-- ===== src/Hotspot.antt =====
-- internal/capture/ycattach/posix/jattach_hotspot.c: attaching to a HotSpot JVM. `tmp` is the global
-- `tmp_path`.
pub mod Wait
pub mod Mirror
pub mod Balance
use yc_360_script.Prelude.{
  ℕ, zero, suc, ◌+◌, ◌-◌, ◌*◌, ◌^◌, Bool, true, false, not, ◌&&◌, ◌||◌, List, [], ◌∷◌, ◌++◌, Option,
  none, some, ltb, leb, ◌==◌, if◌then◌else◌, Bytes, codes, length, take, drop, get_or, has_prefix,
  bytes_eq,
}
use yc_360_script.Prelude.Int.{ℤ, pos, negsuc, is_neg, eqb_ℤ}
use yc_360_script.CString.{snprintf, atoi}
use yc_360_script.CString.Numbers.{decimal, signed_decimal}
use yc_360_script.Posix.{
  creat, close, unlink, stat, socket, af_unix, connect, read, write, kill, nanosleep, geteuid, put,
  report, World, M, issue, call, Chunk, failed, got, receive, then_return,
}
use yc_360_script.Posix.Loop.{Next, again, stop, forever}

abbrev pub max_path : ℕ
max_path = 1024

abbrev pub socket_path : Bytes → ℤ → Bytes
socket_path tmp pid = tmp ++ (codes "/.java_pid" ++ signed_decimal pid)

-- 0 if the JVM has opened its socket; the reply's flag is `S_ISSOCK`.
unfoldable pub check_socket : Bytes → ℤ → M ℤ
check_socket tmp pid w =
    let (stats, w') = issue (stat (snprintf max_path (socket_path tmp pid))) w in
    (if eqb_ℤ stats.ret (pos 0) && stats.flag then pos 0 else negsuc 0, w')

-- The owner of a file, or (uid_t)-1.
unfoldable pub get_file_owner : Bytes → M ℕ
get_file_owner path w =
    let (stats, w') = issue (stat path) w in
    (if eqb_ℤ stats.ret (pos 0) then stats.number else 2 ^ 32 - 1, w')

-- `do { nanosleep(&ts); result = check_socket(nspid); } while (result != 0 && (ts += 20 ms) < 500 ms)`
-- with `ts` in nanoseconds. Out of fuel it gives 1, which `check_socket` never does: see `Wait`.
unfoldable pub poll : Bytes → ℤ → ℕ → ℕ → M ℤ
poll tmp nspid zero ts w = (pos 1, w)
poll tmp nspid (suc fuel) ts w =
    let (result, w') = check_socket tmp nspid (issue (nanosleep ts) w).1 in
    let rest = poll tmp nspid fuel (ts + 20000000) w' in
    if eqb_ℤ result (pos 0)
    then (result, w')
    else if ltb (ts + 20000000) 500000000
    then rest
    else (result, w')

abbrev pub trigger_here : ℤ → Bytes
trigger_here nspid =
    snprintf max_path (
      codes "/proc/"
      ++ (signed_decimal nspid ++ (codes "/cwd/.attach_pid" ++ signed_decimal nspid)))

abbrev pub trigger_tmp : Bytes → ℤ → Bytes
trigger_tmp tmp nspid = snprintf max_path (tmp ++ (codes "/.attach_pid" ++ signed_decimal nspid))

-- `close(fd) == 0 && get_file_owner(path) != geteuid()`
unfoldable pub is_distrusted : ℤ → Bytes → M Bool
is_distrusted fd path w =
    let (closed, w1) = call (close fd) w in
    if eqb_ℤ closed (pos 0)
    then (let (owner, w2) = get_file_owner path w1 in
        let (me, w3) = issue geteuid w2 in (not (owner == me.number), w3))
    else (false, w1)

-- The trigger file that was made: in the JVM's directory, else in the temporary one.
unfoldable pub create_in_tmp : Bytes → ℤ → M (Option Bytes)
create_in_tmp tmp nspid w =
    let path = trigger_tmp tmp nspid in
    let (fd, w2) = call (creat path 0o660) (issue (unlink (trigger_here nspid)) w).1 in
    if eqb_ℤ fd (negsuc 0) then (none, w2) else then_return (issue (close fd)) (some path) w2

unfoldable pub create_trigger : Bytes → ℤ → M (Option Bytes)
create_trigger tmp nspid w =
    let (fd, w1) = call (creat (trigger_here nspid) 0o660) w in
    if eqb_ℤ fd (negsuc 0)
    then create_in_tmp tmp nspid w1
    else (let (bad, w2) = is_distrusted fd (trigger_here nspid) w1 in
        if bad then create_in_tmp tmp nspid w2 else (some (trigger_here nspid), w2))

abbrev pub poll_fuel : ℕ
poll_fuel = 24

-- SIGQUIT is 3.
abbrev pub signal_and_wait : Bytes → ℤ → ℤ → Option Bytes → M ℤ
signal_and_wait tmp pid nspid none w = (negsuc 0, w)
signal_and_wait tmp pid nspid (some path) w =
    let (result, w') = poll tmp nspid poll_fuel 20000000 (issue (kill pid 3) w).1 in
    then_return (issue (unlink path)) result w'

unfoldable pub start_attach_mechanism : Bytes → ℤ → ℤ → M ℤ
start_attach_mechanism tmp pid nspid w =
    let (path, w') = create_trigger tmp nspid w in signal_and_wait tmp pid nspid path w'

-- `sun_path` has 108 bytes.
unfoldable pub connect_socket : Bytes → ℤ → M ℤ
connect_socket tmp pid w =
    let (fd, w1) = call (socket af_unix) w in
    if eqb_ℤ fd (negsuc 0)
    then (negsuc 0, w1)
    else (let (done, w2) = call (connect fd (snprintf 108 (socket_path tmp pid))) w1 in
        if eqb_ℤ done (negsuc 0) then then_return (issue (close fd)) (negsuc 0) w2 else (fd, w2))

-- `write(…) <= 0`
abbrev pub is_not_positive : ℤ → Bool
is_not_positive (pos n) = n == 0
is_not_positive (negsuc n) = true

-- `i < argc ? argv[i] : ""` for i from 0 to 3, each with its NUL.
abbrev pub arguments : List Bytes → List Bytes
arguments argv =
    (get_or argv 0 [] ++ 0 ∷ [])
    ∷ (get_or argv 1 [] ++ 0 ∷ [])
    ∷ (get_or argv 2 [] ++ 0 ∷ [])
    ∷ (get_or argv 3 [] ++ 0 ∷ [])
    ∷ []

-- One `write` for each piece; a short write is taken for a whole one.
unfoldable pub write_pieces : ℤ → List Bytes → M ℤ
write_pieces fd [] w = (pos 0, w)
write_pieces fd (p ∷ ps) w =
    let (bytes, w') = call (write fd p) w in
    let rest = write_pieces fd ps w' in if is_not_positive bytes then (negsuc 0, w') else rest

unfoldable pub write_command : ℤ → List Bytes → M ℤ
write_command fd argv = write_pieces fd ((b'1' ∷ 0 ∷ []) ∷ arguments argv)

-- The loop of the `load` command: fill the buffer, of which one byte is kept for the NUL.
abbrev pub more_of : Bytes → Chunk → Next Bytes Bytes
more_of buf failed = stop buf
more_of buf (got []) = stop buf
more_of buf (got (x ∷ xs)) = again (buf ++ (x ∷ xs))

unfoldable pub fill_round : ℤ → Bytes → M (Next Bytes Bytes)
fill_round fd buf w =
    if ltb (length buf) 8191
    then (let (c, w') = receive (read fd (8191 - length buf)) (8191 - length buf) w in
        (more_of buf c, w'))
    else (stop buf, w)

-- `do { fwrite(buf, 1, bytes, stdout); bytes = read(fd, buf, 8192); } while (bytes > 0);`
abbrev pub next_chunk : Chunk → Next Bytes (Unit {0})
next_chunk failed = stop tt
next_chunk (got []) = stop tt
next_chunk (got (x ∷ xs)) = again (x ∷ xs)

unfoldable pub mirror_round : ℤ → Bytes → M (Next Bytes (Unit {0}))
mirror_round fd buf w =
    let (c, w') = receive (read fd 8192) 8192 (issue (put buf) w).1 in (next_chunk c, w')

abbrev pub return_code : Bytes
return_code = codes "return code: "

-- The result of `load` stands in the second line. `none`: the answer is so short that `buf + 2`
-- points behind the terminating NUL, at a byte that was never written.
unfoldable pub load_result : Bytes → Option ℤ
load_result buf =
    if ltb (length buf) 2
    then none
    else some (atoi (if has_prefix return_code (drop 2 buf) then drop 15 buf else drop 2 buf))

unfoldable pub is_load : List Bytes → Bool
is_load argv = ltb 0 (length argv) && bytes_eq (get_or argv 0 []) (codes "load")

-- All that was read so far goes to stdout, and then the rest of the stream.
unfoldable pub mirror : ℤ → Bytes → Option ℤ → M (Option ℤ)
mirror fd buf result w =
    let w1 = (issue (put (codes "JVM response code = ")) w).1 in
    let w2 = (forever (λ _. tt) (mirror_round fd) buf w1).1 in
    then_return (issue (put (b'\n' ∷ []))) result w2

-- From the first line's code on.
unfoldable pub answer : ℤ → List Bytes → Bytes → M (Option ℤ)
answer fd argv buf w =
    if eqb_ℤ (atoi buf) (pos 0) && is_load argv
    then (let (all, w') = forever (λ b. b) (fill_round fd) buf w in
        mirror fd all (load_result all) w')
    else mirror fd buf (some (atoi buf)) w

abbrev pub respond : ℤ → List Bytes → Chunk → M (Option ℤ)
respond fd argv failed =
    then_return (issue (report (codes "Error reading response"))) (some (pos 1))
respond fd argv (got []) =
    then_return (issue (report (codes "Unexpected EOF reading response"))) (some (pos 1))
respond fd argv (got (x ∷ xs)) = answer fd argv (x ∷ xs)

unfoldable pub read_response : ℤ → List Bytes → M (Option ℤ)
read_response fd argv w = let (c, w') = receive (read fd 8191) 8191 w in respond fd argv c w'

-- From `connect_socket` on.
unfoldable pub converse : Bytes → ℤ → List Bytes → M (Option ℤ)
converse tmp nspid argv w =
    let (fd, w1) = connect_socket tmp nspid w in
    if eqb_ℤ fd (negsuc 0)
    then (some (pos 1), (issue (report (codes "Could not connect to socket")) w1).1)
    else (let (sent, w2) =
          write_command fd argv (issue (put (codes "Connected to remote JVM\n")) w1).1 in
        if not (eqb_ℤ sent (pos 0))
        then then_return (issue (close fd)) (some (pos 1))
            (issue (report (codes "Error writing to socket")) w2).1
        else (let (result, w3) = read_response fd argv w2 in
            then_return (issue (close fd)) result w3))

unfoldable pub jattach_hotspot : Bytes → ℤ → ℤ → List Bytes → M (Option ℤ)
jattach_hotspot tmp pid nspid argv w =
    let (ready, w1) = check_socket tmp nspid w in
    if eqb_ℤ ready (pos 0)
    then converse tmp nspid argv w1
    else (let (started, w2) = start_attach_mechanism tmp pid nspid w1 in
        if eqb_ℤ started (pos 0)
        then converse tmp nspid argv w2
        else (some (pos 1), (issue (report (codes "Could not start attach mechanism")) w2).1))
