-- ===== src/Windows/Balance.antt =====
-- The handles and the memory of an attach on Windows.
use yc_360_script.Prelude.{
  ℕ, zero, suc, ◌+◌, ◌≤◌, take, length, ◌++◌, ◌<◌, arith, Bool, true, false, List, [], ◌∷◌, ◌==◌,
  if◌then◌else◌, Bytes, codes,
}
use yc_360_script.Prelude.Int.{ℤ}
use yc_360_script.CString.{atoi}
use yc_360_script.CString.Numbers.{decimal}
use yc_360_script.Windows.{
  Call, open_process, open_thread_token, create_remote_thread, create_pipe, close_handle,
  lookup_privilege, Event, event, World, issue, thread_token, enable_debug_privileges,
  check_bitness, allocate_code, allocate_data, allocate, open_target, await_thread, run_thread,
  inject, inject_thread, mirror, read_response, converse, jattach, get_last_error, put, read_file,
  connect_pipe, get_tick_count, call,
}

abbrev pub is : ℕ → ℕ → ℕ
is v h = if h == v then 1 else 0

abbrev pub gives : Call → Bool
gives (open_process _) = true
gives open_thread_token = true
gives (create_remote_thread _ _) = true
gives (create_pipe _) = true
gives _ = false

abbrev pub takes_back : ℕ → Call → ℕ
takes_back v (close_handle h) = is v h
takes_back v _ = 0

abbrev pub opened : ℕ → List Event → ℕ
opened v [] = 0
opened v (event c r ∷ t) = (if gives c then is v r.ret else 0) + opened v t

abbrev pub closed : ℕ → List Event → ℕ
closed v [] = 0
closed v (event c r ∷ t) = takes_back v c + closed v t

-- How often the privilege could not be looked up: `enable_debug_privileges` then keeps its token.
abbrev pub failed_lookups : List Event → ℕ
failed_lookups [] = 0
failed_lookups (event lookup_privilege r ∷ t) = (if r.ret == 0 then 1 else 0) + failed_lookups t
failed_lookups (event _ _ ∷ t) = failed_lookups t

-- Between `w` and `w'` the handle `v` was handed out `n` times more than it was closed, or up to once
-- more for each failed look-up.
abbrev pub Gains : ℕ → World → World → ℕ → Type 0
Gains v w w' n =
    (opened v w'.trace + closed v w.trace + failed_lookups w.trace
      ≤ closed v w'.trace + opened v w.trace + failed_lookups w'.trace + n)
    × (closed v w'.trace + opened v w.trace + n ≤ opened v w'.trace + closed v w.trace)

-- It was closed `l` times more.
abbrev Drops : ℕ → World → World → ℕ → Type 0
Drops v w w' l =
    (opened v w'.trace + closed v w.trace + failed_lookups w.trace + l
      ≤ closed v w'.trace + opened v w.trace + failed_lookups w'.trace)
    × (closed v w'.trace + opened v w.trace ≤ opened v w'.trace + closed v w.trace + l)

module _ (v : ℕ) (real : 0 < v) where
  enable_debug_privileges-Gains : (w : World) → Gains v w (enable_debug_privileges w).1 0
  unfolding enable_debug_privileges thread_token issue
  enable_debug_privileges-Gains w = ground arith

  check_bitness-Gains : (process : ℕ) (w : World) → Gains v w (check_bitness process w).1 0
  unfolding check_bitness issue
  check_bitness-Gains process w = ground arith

  allocate-Gains :
      (pipe : Bytes) (argv : List Bytes) (w : World) → Gains v w (allocate pipe argv w).1 0
  unfolding allocate allocate_code allocate_data issue
  allocate-Gains pipe argv w = ground arith

  open_target-Gains :
      (pid : ℤ) (w : World) → (let r = open_target pid w in Gains v w r.1 (is v r.0))
  unfolding open_target issue
  open_target-Gains pid w =
      ground
        (arith, enable_debug_privileges-Gains (call get_last_error (call (open_process pid) w).1).1)

  run_thread-Gains : (code data_at : ℕ) (w : World) → Gains v w (run_thread code data_at w).1 0
  unfolding run_thread await_thread issue
  run_thread-Gains code data_at w = ground arith

  inject-Drops :
      (process : ℕ) (pipe : Bytes) (argv : List Bytes) (w : World)
      → Drops v w (inject process pipe argv w).1 (is v process)
  unfolding inject issue
  inject-Drops process pipe argv w =
      let m = allocate pipe argv w in
      ground (arith, allocate-Gains pipe argv w, run_thread-Gains m.0.0 m.0.1 m.1)

  inject_thread-Gains :
      (pid : ℤ) (pipe : Bytes) (argv : List Bytes) (w : World)
      → Gains v w (inject_thread pid pipe argv w).1 0
  unfolding inject_thread issue
  inject_thread-Gains pid pipe argv w =
      let p = open_target pid w in
      let b = check_bitness p.0 p.1 in
      ground (
        arith,
        open_target-Gains pid w,
        check_bitness-Gains p.0 p.1,
        inject-Drops p.0 pipe argv b.1,
      )

  mirror-Gains : (pipe fuel : ℕ) (buf : Bytes) (w : World) → Gains v w (mirror pipe fuel buf w) 0
  unfolding mirror issue
  mirror-Gains pipe zero buf w = omega arith
  mirror-Gains pipe (suc fuel) buf w =
      let r = issue (read_file pipe 8192) (issue (put buf) w).1 in
      ground (arith, mirror-Gains pipe fuel (take 8192 r.0.bytes) r.1)

  read_response-Gains : (pipe : ℕ) (w : World) → Gains v w (read_response pipe w).1 0
  unfolding read_response issue
  read_response-Gains pipe w =
      let r = issue (read_file pipe 8191) (issue (connect_pipe pipe) w).1 in
      ground (arith, mirror-Gains pipe (length r.1.replies + 1) (take 8191 r.0.bytes) r.1)

  converse-Drops :
      (pipe : ℕ) (pid : ℤ) (name : Bytes) (argv : List Bytes) (w : World)
      → Drops v w (converse pipe pid name argv w).1 (is v pipe)
  unfolding converse issue
  converse-Drops pipe pid name argv w =
      let i = inject_thread pid name argv w in
      ground (
        arith,
        inject_thread-Gains pid name argv w,
        read_response-Gains pipe (issue (put (codes "Response code = ")) i.1).1,
      )

-- An attach on Windows closes every handle of a process, thread, token or pipe as often as it was
-- handed out, whatever the system answers, but for at most one handle for each look-up of the debug
-- privilege that fails, and it never closes a handle more often than it was handed out.
pub jattach-handles :
    (argv : List Bytes) (w : World) (v : ℕ)
    → 0 < v
    → (let w' = (jattach argv w).1 in
        (opened v w'.trace + closed v w.trace + failed_lookups w.trace
          ≤ closed v w'.trace + opened v w.trace + failed_lookups w'.trace)
        × (closed v w'.trace + opened v w.trace ≤ opened v w'.trace + closed v w.trace))
unfolding jattach issue
jattach-handles [] w v real = omega arith
jattach-handles (a ∷ []) w v real = omega arith
jattach-handles (a ∷ c ∷ argv) w v real =
    let t = issue get_tick_count w in
    let name = codes "\\\\.\\pipe\\javatool" ++ decimal t.0.number in
    let p = call (create_pipe name) t.1 in
    ground (arith, converse-Drops v real p.0 (atoi a) name (c ∷ argv) p.1)
