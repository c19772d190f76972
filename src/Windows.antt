-- ===== src/Windows.antt =====
-- internal/capture/ycattach/windows/jattach.c: attaching on 64-bit Windows by a thread that is injected
-- into the JVM. The replies of the system stand in a script, as in Posix.
pub mod Balance
pub mod Mirror
use yc_360_script.Prelude.{
  ℕ, zero, suc, ◌+◌, ◌-◌, ◌%◌, ◌^◌, Bool, true, false, not, ◌&&◌, ◌||◌, List, [], ◌∷◌, ◌++◌, Option,
  none, some, ltb, ◌==◌, if◌then◌else◌, Bytes, codes, length, take, drop, get_or,
}
use yc_360_script.Prelude.Int.{ℤ, pos, negsuc}
use yc_360_script.CString.{atoi}
use yc_360_script.CString.Numbers.{decimal}

-- The calls of the Windows API and of stdio, with the arguments that matter.
pub data Call : Type 0 where
  open_process : ℤ → Call
  get_last_error open_thread_token impersonate_self lookup_privilege get_tick_count : Call
  adjust_privileges close_handle is_wow64 virtual_free : ℕ → Call
  virtual_alloc : Bool → Call
  write_code : ℕ → Call
  write_data : ℕ → List Bytes → Call
  create_remote_thread : ℕ → ℕ → Call
  wait_for exit_code connect_pipe : ℕ → Call
  create_pipe : Bytes → Call
  read_file : ℕ → ℕ → Call
  put : Bytes → Call

-- The return value (NULL and FALSE are 0), an output number, and the bytes that are delivered.
pub record Reply : Type 0 where
  pub ret : ℕ
  pub number : ℕ
  pub bytes : Bytes

pub data Event : Type 0 where
  event : Call → Reply → Event

-- The trace has its latest event first.
pub record World : Type 0 where
  pub replies : List Reply
  pub trace : List Event

abbrev pub first_reply : List Reply → Reply
first_reply [] = record { ret = 0; number = 0; bytes = [] }
first_reply (r ∷ rs) = r

abbrev pub M {ℓ} : Type ℓ → Type ℓ
M A = World → A × World

unfoldable pub issue : Call → M Reply
issue c w = (
  first_reply w.replies,
  record { replies = drop 1 w.replies; trace = event c (first_reply w.replies) ∷ w.trace },
)

abbrev pub call : Call → M ℕ
call c w = ((issue c w).0.ret, (issue c w).1)

-- A DWORD that is printed with `%d`.
abbrev pub as_int : ℕ → Bytes
as_int code =
    let n = code % 2 ^ 32 in if ltb n (2 ^ 31) then decimal n else b'-' ∷ decimal (2 ^ 32 - n)

-- What `print_error` prints.
abbrev pub error_text : Bytes → ℕ → Bytes
error_text msg code = msg ++ (codes " (error code = " ++ (as_int code ++ codes ")\n"))

-- `print_error` with `GetLastError()`.
abbrev pub print_error : Bytes → World → World
print_error msg w =
    let (code, w') = call get_last_error w in (issue (put (error_text msg code)) w').1

-- The token of the thread; `OpenThreadToken`'s output is the reply's return value.
unfoldable pub thread_token : M ℕ
thread_token w =
    let (token, w1) = call open_thread_token w in
    if not (token == 0)
    then (token, w1)
    else (let (self, w2) = call impersonate_self w1 in
        if self == 0 then (0, w2) else call open_thread_token w2)

unfoldable pub enable_debug_privileges : M Bool
enable_debug_privileges w =
    let (token, w1) = thread_token w in
    if token == 0
    then (false, w1)
    else (let (known, w2) = call lookup_privilege w1 in
        if known == 0
        then (false, w2)
        else (let (success, w3) = call (adjust_privileges token) w2 in
            (not (success == 0), (issue (close_handle token) w3).1)))

-- The 64-bit branch: the reply's number is `targetWow64`.
unfoldable pub check_bitness : ℕ → M Bool
check_bitness process w =
    let (r, w1) = issue (is_wow64 process) w in
    if not (r.ret == 0) && not (r.number == 0)
    then (false, (issue (put (codes "Cannot attach 64-bit process to 32-bit JVM\n")) w1).1)
    else (true, w1)

unfoldable pub allocate_code : M ℕ
allocate_code w =
    let (code, w1) = call (virtual_alloc true) w in
    if code == 0 then (0, w1) else (code, (issue (write_code code) w1).1)

-- `args`: the first four arguments, padded with empty texts, behind the name of the pipe.
abbrev pub call_data : Bytes → List Bytes → List Bytes
call_data pipe argv =
    codes "jvm"
    ∷ codes "_JVM_EnqueueOperation"
    ∷ pipe
    ∷ get_or argv 0 []
    ∷ get_or argv 1 []
    ∷ get_or argv 2 []
    ∷ get_or argv 3 []
    ∷ []

unfoldable pub allocate_data : Bytes → List Bytes → M ℕ
allocate_data pipe argv w =
    let (data_at, w1) = call (virtual_alloc false) w in
    if data_at == 0
    then (0, w1)
    else (data_at, (issue (write_data data_at (call_data pipe argv)) w1).1)

-- `code != NULL ? allocate_data(…) : NULL`, behind `allocate_code`.
unfoldable pub allocate : Bytes → List Bytes → M (ℕ × ℕ)
allocate pipe argv w =
    let (code, w1) = allocate_code w in
    if code == 0
    then ((0, 0), w1)
    else (let (data_at, w2) = allocate_data pipe argv w1 in ((code, data_at), w2))

-- `OpenProcess`, with a second try behind `ERROR_ACCESS_DENIED` (5). 0 is every failure; its message is
-- printed.
unfoldable pub open_target : ℤ → M ℕ
open_target pid w =
    let (first, w1) = call (open_process pid) w in
    if not (first == 0)
    then (first, w1)
    else (let (why, w2) = call get_last_error w1 in
        if not (why == 5)
        then (0, print_error (codes "Could not open process") w2)
        else (let (enabled, w3) = enable_debug_privileges w2 in
            if not enabled
            then (0, print_error (codes "Not enough privileges") w3)
            else (let (second, w4) = call (open_process pid) w3 in
                if second == 0
                then (0, print_error (codes "Could not open process") w4)
                else (second, w4))))

-- Wait for the remote thread; its exit code is the reply's number.
unfoldable pub await_thread : ℕ → M Bool
await_thread thread w =
    let w1 =
      (issue (wait_for thread) (issue (put (codes "Connected to remote process\n")) w).1).1 in
    let (code, w2) = issue (exit_code thread) w1 in
    if code.number == 0 then (true, (issue (close_handle thread) w2).1) else (
      false,
      (issue (close_handle thread)
          (issue
            (put (error_text (codes "Attach is not supported by the target process") code.number))
            w2).1).1,
    )

unfoldable pub run_thread : ℕ → ℕ → M Bool
run_thread code data_at w =
    let (thread, w1) = call (create_remote_thread code data_at) w in
    if thread == 0
    then (false, print_error (codes "Could not create remote thread") w1)
    else await_thread thread w1

-- From `allocate_code` on.
unfoldable pub inject : ℕ → Bytes → List Bytes → M Bool
inject process pipe argv w =
    let (memory, w1) = allocate pipe argv w in
    if memory.1 == 0
    then (
      false,
      (issue (close_handle process)
          (print_error (codes "Could not allocate memory in target process") w1)).1,
    )
    else (let (success, w2) = run_thread memory.0 memory.1 w1 in
        let w3 = (issue (virtual_free memory.1) (issue (virtual_free memory.0) w2).1).1 in
        (success, (issue (close_handle process) w3).1))

unfoldable pub inject_thread : ℤ → Bytes → List Bytes → M Bool
inject_thread pid pipe argv w =
    let (process, w1) = open_target pid w in
    if process == 0
    then (false, w1)
    else (let (fits, w2) = check_bitness process w1 in
        if fits then inject process pipe argv w2 else (false, (issue (close_handle process) w2).1))

-- `do { fwrite(buf, 1, bytesRead, stdout); } while (ReadFile(…));` on fuel: see `Mirror`.
unfoldable pub mirror : ℕ → ℕ → Bytes → World → World
mirror pipe zero buf w = w
mirror pipe (suc fuel) buf w =
    let (r, w2) = issue (read_file pipe 8192) (issue (put buf) w).1 in
    let rest = mirror pipe fuel (take 8192 r.bytes) w2 in if r.ret == 0 then w2 else rest

unfoldable pub read_response : ℕ → M ℤ
read_response pipe w =
    let (r, w1) = issue (read_file pipe 8191) (issue (connect_pipe pipe) w).1 in
    let buf = take 8191 r.bytes in
    if r.ret == 0
    then (pos 1, print_error (codes "Error reading response") w1)
    else (atoi buf, mirror pipe (length w1.replies + 1) buf w1)

-- From `inject_thread` on.
unfoldable pub converse : ℕ → ℤ → Bytes → List Bytes → M ℤ
converse pipe pid name argv w =
    let (injected, w1) = inject_thread pid name argv w in
    if not injected
    then (pos 1, (issue (close_handle pipe) w1).1)
    else (let (result, w2) = read_response pipe (issue (put (codes "Response code = ")) w1).1 in
        (result, (issue (close_handle pipe) (issue (put (b'\n' ∷ [])) w2).1).1))

unfoldable pub jattach : List Bytes → M ℤ
jattach [] w = (pos 1, w)
jattach (a ∷ []) w = (pos 1, w)
jattach (pid ∷ c ∷ argv) w =
    let (ticks, w1) = issue get_tick_count w in
    let name = codes "\\\\.\\pipe\\javatool" ++ decimal ticks.number in
    let (pipe, w2) = call (create_pipe name) w1 in
    if pipe == 0
    then (pos 1, print_error (codes "Could not create pipe") w2)
    else converse pipe (atoi pid) name (c ∷ argv) w2

-- What the injected thread does inside the JVM: `module_of` is GetModuleHandleA, `address_of` is
-- GetProcAddress and `enqueue` calls what it found. The undecorated name comes first, then the name of
-- a 32-bit export.
abbrev pub enqueue_name : Bytes
enqueue_name = codes "_JVM_EnqueueOperation"

unfoldable pub remote_thread_entry :
    (Bytes → ℕ) → (ℕ → Bytes → ℕ) → (ℕ → List Bytes → ℕ) → List Bytes → ℕ
remote_thread_entry module_of address_of enqueue args =
    let lib = module_of (codes "jvm") in
    let plain = address_of lib (drop 1 enqueue_name) in
    let decorated = address_of lib (take 21 enqueue_name ++ codes "@20") in
    if lib == 0
    then 1001
    else if not (plain == 0)
    then enqueue plain args
    else if decorated == 0
    then 1002
    else enqueue decorated args
