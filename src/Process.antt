-- ===== src/Process.antt =====
-- internal/capture/ycattach/posix/psutil.c, the Linux part: who the target process is, and how its
-- files are reached.
pub mod Status
pub mod Lookup
pub mod Place
use yc_360_script.Prelude.{
  ℕ, ◌+◌, ◌-◌, ◌%◌, ◌^◌, Bool, true, false, ◌&&◌, [], ◌∷◌, ◌++◌, Option, none, some, ltb, leb, ◌==◌,
  not, if◌then◌else◌, Bytes, codes, length, take, drop, has_prefix,
}
use yc_360_script.Prelude.Int.{ℤ, pos, negsuc, is_neg, eqb_ℤ}
use yc_360_script.CString.{snprintf, strchr, strrchr, atoi}
use yc_360_script.CString.Numbers.{signed_decimal}
use yc_360_script.Posix.{
  read_only, open_file, close, stat, opendir, readdir, closedir, fopen, getline, fclose, setns,
  getenv, World, M, issue, call, then_return,
}
use yc_360_script.Posix.Loop.{Next, again, stop, forever}

-- `sizeof(tmp_path)`: MAX_PATH - 100.
abbrev pub tmp_path_size : ℕ
tmp_path_size = 924

-- The path and the status; the path is cut where it does not fit, and then the status is -1.
unfoldable pub get_tmp_path_r : ℤ → ℕ → M (Bytes × ℤ)
get_tmp_path_r pid bufsize w =
    let text = codes "/proc/" ++ (signed_decimal pid ++ codes "/root/tmp") in
    if leb bufsize (length text)
    then ((snprintf bufsize text, negsuc 0), w)
    else (let (r, w') = call (stat (snprintf bufsize text)) w in ((snprintf bufsize text, r), w'))

-- The new contents of the global `tmp_path`.
unfoldable pub get_tmp_path : ℤ → M Bytes
get_tmp_path pid w =
    let (env, w1) = issue (getenv (codes "JATTACH_PATH")) w in
    if not (is_neg env.ret) && ltb (length env.bytes) tmp_path_size
    then (env.bytes, w1)
    else (let (r, w2) = get_tmp_path_r pid tmp_path_size w1 in
        (if eqb_ℤ r.1 (pos 0) then r.0 else codes "/tmp", w2))

-- The text behind the last `(` of the line, as a number; -1 without one.
abbrev pub host_pid_of : Option Bytes → ℤ
host_pid_of none = negsuc 0
host_pid_of (some t) = atoi (drop 1 t)

unfoldable pub sched_get_host_pid : Bytes → M ℤ
sched_get_host_pid path w =
    let (file, w1) = call (fopen path) w in
    if is_neg file
    then (negsuc 0, w1)
    else (let (line, w2) = issue (getline file) w1 in
        then_return (issue (fclose file))
          (if eqb_ℤ line.ret (negsuc 0) then negsuc 0 else host_pid_of (strrchr line.bytes b'('))
          w2)

abbrev pub starts_with_pid : Bytes → Bool
starts_with_pid [] = false
starts_with_pid (c ∷ name) = leb b'1' c && leb c b'9'

abbrev pub sched_path : ℤ → Bytes → Bytes
sched_path pid name =
    snprintf 300
      (codes "/proc/" ++ (signed_decimal pid ++ (codes "/root/proc/" ++ (name ++ codes "/sched"))))

-- One entry of the directory. `again` for the next one; `stop` with the result of the function, in
-- front of the `closedir` that both ways out of the loop make.
unfoldable pub scan_round : ℤ → ℤ → Unit {0} → M (Next (Unit {0}) ℤ)
scan_round pid dir s w =
    let (entry, w1) = issue (readdir dir) w in
    if is_neg entry.ret
    then (stop pid, w1)
    else if starts_with_pid entry.bytes
    then (let (host, w2) = sched_get_host_pid (sched_path pid entry.bytes) w1 in
        (if eqb_ℤ host pid then stop (atoi entry.bytes) else again tt, w2))
    else (again tt, w1)

unfoldable pub scan_processes : ℤ → M ℤ
scan_processes pid w =
    let (dir, w1) =
      call (opendir (snprintf 300 (codes "/proc/" ++ (signed_decimal pid ++ codes "/root/proc"))))
        w in
    if is_neg dir
    then (pid, w1)
    else (let (result, w2) = forever (λ _. pid) (scan_round pid dir) tt w1 in
        then_return (issue (closedir dir)) result w2)

-- `stat(a) == 0 && stat(b) == 0`, and whether the inodes differ.
unfoldable pub compare_inodes : Bytes → Bytes → M (Option Bool)
compare_inodes a b w =
    let (old, w1) = issue (stat a) w in
    if not (eqb_ℤ old.ret (pos 0))
    then (none, w1)
    else (let (new, w2) = issue (stat b) w1 in
        (if eqb_ℤ new.ret (pos 0) then some (not (old.number == new.number)) else none, w2))

abbrev pub same_namespace : Option Bool → Bool
same_namespace none = false
same_namespace (some differ) = not differ

unfoldable pub alt_lookup_nspid : ℤ → M ℤ
alt_lookup_nspid pid w =
    let (r, w1) =
      compare_inodes (codes "/proc/self/ns/pid")
        (snprintf 300 (codes "/proc/" ++ (signed_decimal pid ++ codes "/ns/pid"))) w in
    if same_namespace r then (pid, w1) else scan_processes pid w1

-- What `get_process_info` fills in; `nspid_found` is its flag.
pub record Info : Type 0 where
  pub uid : ℕ
  pub gid : ℕ
  pub nspid : ℤ
  pub nspid_found : Bool

-- `(uid_t)` of an `int`.
abbrev pub to_id : ℤ → ℕ
to_id (pos n) = n % 2 ^ 32
to_id (negsuc n) = 2 ^ 32 - 1 - n % 2 ^ 32

-- `atoi` of a pointer that may be NULL, which faults.
abbrev pub atoi_at : Option Bytes → Option ℤ
atoi_at none = none
atoi_at (some t) = some (atoi t)

abbrev pub set_uid : Info → Option ℤ → Option Info
set_uid info none = none
set_uid info (some n) = some (record info { uid = to_id n })

abbrev pub set_gid : Info → Option ℤ → Option Info
set_gid info none = none
set_gid info (some n) = some (record info { gid = to_id n })

abbrev pub set_nspid : Info → Option ℤ → Option Info
set_nspid info none = none
set_nspid info (some n) = some (record info { nspid = n; nspid_found = true })

-- One line of /proc/pid/status. `none`: there is no tab where the code expects one, and it hands
-- NULL to `atoi`.
unfoldable pub process_line : Bytes → Info → Option Info
process_line line info =
    if has_prefix (codes "Uid:") line
    then set_uid info (atoi_at (strchr (drop 5 line) 9))
    else if has_prefix (codes "Gid:") line
    then set_gid info (atoi_at (strchr (drop 5 line) 9))
    else if has_prefix (codes "NStgid:") line
    then set_nspid info (atoi_at (strrchr line 9))
    else some info

abbrev pub line_step : Option Info → Next Info (Option Info)
line_step none = stop none
line_step (some info) = again info

unfoldable pub status_round : ℤ → Info → M (Next Info (Option Info))
status_round file info w =
    let (line, w') = issue (getline file) w in
    (
      if eqb_ℤ line.ret (negsuc 0)
          then stop (some info)
          else line_step (process_line line.bytes info),
      w',
    )

-- The end of `get_process_info`: after a fault there is none.
unfoldable pub finish_info : ℤ → ℤ → Option Info → M (Option Info)
finish_info pid file none w = (none, w)
finish_info pid file (some info) w =
    let w1 = (issue (fclose file) w).1 in
    if info.nspid_found
    then (some info, w1)
    else (let (n, w2) = alt_lookup_nspid pid w1 in (some (record info { nspid = n }), w2))

-- The result is the status, with the information where it was found; the outer `none` is a fault.
pub data InfoResult : Type 0 where
  not_found faulted : InfoResult
  found : Info → InfoResult

abbrev pub info_result : Option Info → InfoResult
info_result none = faulted
info_result (some info) = found info

unfoldable pub get_process_info : ℤ → Info → M InfoResult
get_process_info pid info w =
    let (file, w1) =
      call (fopen (snprintf 64 (codes "/proc/" ++ (signed_decimal pid ++ codes "/status")))) w in
    if is_neg file
    then (not_found, w1)
    else (let (parsed, w2) = forever (λ s. some s) (status_round file) info w1 in
        let (r, w3) = finish_info pid file parsed w2 in (info_result r, w3))

-- 1 if the namespace changed, 0 if it is the same (or cannot be read), -1 if it cannot be entered.
abbrev pub switch_ns : Bytes → Option Bool → M ℤ
switch_ns path none w = (pos 0, w)
switch_ns path (some false) w = (pos 0, w)
switch_ns path (some true) w =
    let (newns, w1) = call (open_file path read_only 0) w in
    if is_neg newns
    then (negsuc 0, w1)
    else (let (result, w2) = call (setns newns) w1 in
        then_return (issue (close newns)) (if is_neg result then negsuc 0 else pos 1) w2)

unfoldable pub enter_ns : ℤ → Bytes → M ℤ
enter_ns pid type w =
    let path = snprintf 64 (codes "/proc/" ++ (signed_decimal pid ++ (codes "/ns/" ++ type))) in
    let (r, w1) = compare_inodes (snprintf 64 (codes "/proc/self/ns/" ++ type)) path w in
    switch_ns path r w1
