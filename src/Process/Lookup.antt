-- ===== src/Process/Lookup.antt =====
-- The lookup of a process closes every file and directory that it opens.
use yc_360_script.Prelude.{ℕ, ◌+◌, ◌≡◌, Option, none, some, Bytes, codes, ◌++◌, arith}
use yc_360_script.Prelude.Int.{ℤ}
use yc_360_script.CString.{snprintf}
use yc_360_script.CString.Numbers.{signed_decimal}
use yc_360_script.Posix.{World, issue, call, readdir, opendir, fopen, fclose}
use yc_360_script.Posix.Loop.{forever}
use yc_360_script.Posix.Trace.{Kind, opened, closed, Balanced}
use yc_360_script.Posix.Balance.{forever-Balanced}
use yc_360_script.Process.{
  sched_get_host_pid, sched_path, scan_round, scan_processes, compare_inodes, alt_lookup_nspid,
  Info, status_round, finish_info, found, info_result, get_process_info,
}

module _ (k : Kind) (v : ℕ) where
  sched_get_host_pid-Balanced :
      (path : Bytes) (w : World) → Balanced k v w (sched_get_host_pid path w).1
  unfolding sched_get_host_pid issue
  sched_get_host_pid-Balanced path w = ground arith

  scan_round-Balanced :
      (pid dir : ℤ) (s : Unit {0}) (w : World) → Balanced k v w (scan_round pid dir s w).1
  unfolding scan_round issue
  scan_round-Balanced pid dir s w =
      let e = issue (readdir dir) w in
      ground (arith, sched_get_host_pid-Balanced (sched_path pid e.0.bytes) e.1)

  scan_processes-Balanced : (pid : ℤ) (w : World) → Balanced k v w (scan_processes pid w).1
  unfolding scan_processes issue
  scan_processes-Balanced pid w =
      let d =
        call (opendir (snprintf 300 (codes "/proc/" ++ (signed_decimal pid ++ codes "/root/proc"))))
          w in
      ground (
        arith,
        forever-Balanced k v (λ _. pid) (scan_round pid d.0) (scan_round-Balanced pid d.0) tt d.1,
      )

  compare_inodes-Balanced : (a b : Bytes) (w : World) → Balanced k v w (compare_inodes a b w).1
  unfolding compare_inodes issue
  compare_inodes-Balanced a b w = ground arith

  alt_lookup_nspid-Balanced : (pid : ℤ) (w : World) → Balanced k v w (alt_lookup_nspid pid w).1
  unfolding alt_lookup_nspid
  alt_lookup_nspid-Balanced pid w =
      let b = snprintf 300 (codes "/proc/" ++ (signed_decimal pid ++ codes "/ns/pid")) in
      let c = compare_inodes (codes "/proc/self/ns/pid") b w in
      ground (
        arith,
        compare_inodes-Balanced (codes "/proc/self/ns/pid") b w,
        scan_processes-Balanced pid c.1,
      )

  status_round-Balanced :
      (file : ℤ) (info : Info) (w : World) → Balanced k v w (status_round file info w).1
  unfolding status_round issue
  status_round-Balanced file info w = ground arith

  -- What is left open: the file, after a fault.
  finish_info-result :
      (pid file : ℤ) (r : Option Info) (w : World) (info : Info)
      → info_result (finish_info pid file r w).0 ≡ found info
      → (let w1 = (issue (fclose file) w).1 in
          opened k v (finish_info pid file r w).1.trace + closed k v w1.trace
          ≡ closed k v (finish_info pid file r w).1.trace + opened k v w1.trace)
  unfolding finish_info
  finish_info-result pid file none w info e = cc
  finish_info-result pid file (some i) w info e =
      ground (arith, alt_lookup_nspid-Balanced pid (issue (fclose file) w).1)

-- When `get_process_info` returns information, it has closed every descriptor, stream and directory
-- as often as it was handed out, the directory of the fallback search included.
pub get_process_info-Balanced :
    (k : Kind) (v : ℕ) (pid : ℤ) (start info : Info) (w : World)
    → (get_process_info pid start w).0 ≡ found info
    → Balanced k v w (get_process_info pid start w).1
unfolding get_process_info issue
get_process_info-Balanced k v pid start info w e =
    let f =
      call (fopen (snprintf 64 (codes "/proc/" ++ (signed_decimal pid ++ codes "/status")))) w in
    let p = forever (λ s. some s) (status_round f.0) start f.1 in
    ground (
      arith,
      forever-Balanced k v (λ s. some s) (status_round f.0) (status_round-Balanced k v f.0) start
          f.1,
      finish_info-result k v pid f.0 p.0 p.1 info,
    )
