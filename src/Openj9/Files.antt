-- ===== src/Openj9/Files.antt =====
-- The files, sockets and semaphore by which OpenJ9 is told to attach. `tmp` is the global `tmp_path`,
-- and MAX_PATH is 1024.
pub mod Balance
pub mod Accept
use yc_360_script.Prelude.{
  ℕ, zero, suc, ◌+◌, ◌-◌, ◌*◌, ◌/◌, ◌%◌, ◌^◌, Bool, true, false, not, ◌&&◌, ◌||◌, List, [], ◌∷◌,
  ◌++◌, ltb, leb, ◌==◌, if◌then◌else◌, Bytes, codes, length, take, drop, get_or, has_prefix,
}
use yc_360_script.Prelude.Int.{ℤ, pos, negsuc, is_neg, eqb_ℤ}
use yc_360_script.CString.{snprintf}
use yc_360_script.CString.Numbers.{decimal, signed_decimal, hex_digits}
use yc_360_script.Posix.{
  OpenMode, read_only, write_create, write_truncate, lock_ex, lock_un, Domain, af_inet6, af_inet,
  open_file, close, unlink, stat, flock, socket, bind, listen, getsockname, accept, set_timeout,
  recv, read, write, semget, semop, opendir, readdir, closedir, time, report, World, M, pure, ◌>>=◌,
  ◌>>◌, issue, call, Chunk, failed, got, receive, then_return,
}
use yc_360_script.Posix.Loop.{Next, again, stop, forever}

abbrev pub max_path : ℕ
max_path = 1024

abbrev pub attach_dir : Bytes
attach_dir = codes "/.com_ibm_tools_attach"

-- The errno that `close_with_errno` keeps is no part of the model.
abbrev pub close_with_errno : ℤ → M ℤ
close_with_errno fd = then_return (issue (close fd)) (negsuc 0)

unfoldable pub acquire_lock : Bytes → Bytes → Bytes → M ℤ
acquire_lock tmp subdir filename w =
    let path = snprintf max_path (tmp ++ (attach_dir ++ (b'/' ∷ (subdir ++ (b'/' ∷ filename))))) in
    let (lock_fd, w') = call (open_file path write_create 0o666) w in
    if is_neg lock_fd
    then (negsuc 0, w')
    else (let (locked, w'') = call (flock lock_fd lock_ex) w' in
        if is_neg locked then close_with_errno lock_fd w'' else (lock_fd, w''))

unfoldable pub release_lock : ℤ → M (Unit {0})
release_lock lock_fd w = then_return (issue (close lock_fd)) tt (issue (flock lock_fd lock_un) w).1

-- A listening socket and its port; -1 and no port on failure.
pub record Listening : Type 0 where
  pub fd : ℤ
  pub port : ℕ

abbrev pub not_listening : Listening
not_listening = record { fd = negsuc 0; port = 0 }

-- `bind(…) == 0 && listen(…) == 0 && getsockname(…) == 0`, or the common exit.
unfoldable pub listen_on : ℤ → Domain → M Listening
listen_on s domain w =
    let (bound, w') = call (bind s domain) w in
    if not (eqb_ℤ bound (pos 0))
    then (not_listening, (close_with_errno s w').1)
    else (let (listens, w'') = call (listen s) w' in
        if not (eqb_ℤ listens (pos 0))
        then (not_listening, (close_with_errno s w'').1)
        else (let (named, w''') = issue (getsockname s) w'' in
            if not (eqb_ℤ named.ret (pos 0))
            then (not_listening, (close_with_errno s w''').1)
            else (record { fd = s; port = named.number }, w''')))

-- IPv6 first; IPv4 only if there is no IPv6 socket at all.
unfoldable pub create_attach_socket : M Listening
create_attach_socket w =
    let (s6, w') = call (socket af_inet6) w in
    if not (eqb_ℤ s6 (negsuc 0))
    then listen_on s6 af_inet6 w'
    else (let (s4, w'') = call (socket af_inet) w' in
        if not (eqb_ℤ s4 (negsuc 0))
        then listen_on s4 af_inet w''
        else (not_listening, (close_with_errno s4 w'').1))

abbrev pub reply_info_path : Bytes → ℤ → Bytes
reply_info_path tmp pid =
    snprintf max_path (tmp ++ (attach_dir ++ (b'/' ∷ (signed_decimal pid ++ codes "/replyInfo"))))

unfoldable pub close_attach_socket : Bytes → ℤ → ℤ → M (Unit {0})
close_attach_socket tmp s pid w =
    then_return (issue (close s)) tt (issue (unlink (reply_info_path tmp pid)) w).1

-- The bytes of a little-endian number, lowest first.
abbrev pub from_bytes : Bytes → ℕ
from_bytes [] = 0
from_bytes (b ∷ bs) = b + 256 * from_bytes bs

abbrev pub scale : Bytes → ℕ
scale [] = 1
scale (b ∷ bs) = 256 * scale bs

-- What `read` leaves in `key`: the bytes that came, on top of the ones that were there.
abbrev pub overwrite : ℕ → Chunk → ℕ
overwrite key failed = key
overwrite key (got bs) = from_bytes bs + key / scale bs * scale bs

unfoldable pub random_key : M ℕ
random_key w =
    let (now, w') = issue time w in
    let key : ℕ = now.number * 0xc6a4a7935bd1e995 % 2 ^ 64 in
    let (fd, w'') = call (open_file (codes "/dev/urandom") read_only 0) w' in
    if is_neg fd
    then (key, w'')
    else (let (c, w''') = receive (read fd 8) 8 w'' in
        then_return (issue (close fd)) (overwrite key c) w''')

-- `%016llx\n%d\n`.
abbrev pub reply_info : ℕ → ℕ → Bytes
reply_info key port = hex_digits 16 key ++ (b'\n' ∷ (decimal port ++ b'\n' ∷ []))

unfoldable pub write_reply_info : Bytes → ℤ → ℕ → ℕ → M ℤ
write_reply_info tmp pid port key w =
    let (fd, w') = call (open_file (reply_info_path tmp pid) write_truncate 0o600) w in
    if is_neg fd
    then (negsuc 0, w')
    else then_return (issue (close fd)) (pos 0) (issue (write fd (reply_info key port)) w').1

-- `while (notif_count-- > 0) semop(sem, &op, 1);`
unfoldable pub semop_times : ℕ → ℤ → ℤ → M (Unit {0})
semop_times zero sem value w = (tt, w)
semop_times (suc n) sem value w =
    semop_times n sem value (issue (semop sem value (is_neg value)) w).1

abbrev pub notifier_dir : Bytes → Bytes
notifier_dir tmp = snprintf max_path (tmp ++ attach_dir)

abbrev pub notifier_path : Bytes → Bytes
notifier_path tmp = snprintf max_path (tmp ++ (attach_dir ++ codes "/_notifier"))

unfoldable pub notify_semaphore : Bytes → ℤ → ℕ → M ℤ
notify_semaphore tmp value notif_count w =
    let (sem, w') = call (semget (notifier_path tmp)) w in
    if is_neg sem
    then (negsuc 0, w')
    else then_return (semop_times notif_count sem value) (pos 0) w'

-- One `recv` of the loop that fills `char buf[35]`.
abbrev pub received_more : Bytes → Chunk → Next Bytes Bytes
received_more buf failed = stop []
received_more buf (got []) = stop []
received_more buf (got (x ∷ xs)) = again (buf ++ (x ∷ xs))

-- `[]` stands for a connection that was closed early; a full buffer is not empty.
unfoldable pub recv_round : ℤ → Bytes → M (Next Bytes Bytes)
recv_round client buf w =
    if ltb (length buf) 35
    then (let (c, w') = receive (recv client (35 - length buf)) (35 - length buf) w in
        (received_more buf c, w'))
    else (stop buf, w)

abbrev pub expected_greeting : ℕ → Bytes
expected_greeting key = codes "ATTACH_CONNECTED " ++ (hex_digits 16 key ++ (b' ' ∷ []))

-- `memcmp(buf, expected, 34) == 0`, after the loop.
unfoldable pub check_greeting : ℤ → ℕ → Bytes → M ℤ
check_greeting client key [] w =
    then_return (issue (close client)) (negsuc 0)
      (issue (report (codes "The JVM connection was prematurely closed")) w).1
check_greeting client key (x ∷ buf) w =
    if has_prefix (expected_greeting key) (x ∷ buf)
    then (client, (issue (set_timeout client 1800) w).1)
    else then_return (issue (close client)) (negsuc 0)
        (issue (report (codes "Unexpected JVM response")) w).1

unfoldable pub accept_client : ℤ → ℕ → M ℤ
accept_client s key w =
    let (client, w') = call (accept s) (issue (set_timeout s 5) w).1 in
    if is_neg client
    then (negsuc 0, (issue (report (codes "JVM did not respond")) w').1)
    else (let (buf, w'') = forever (λ _. []) (recv_round client) [] w' in
        check_greeting client key buf w'')

abbrev pub max_notif_files : ℕ
max_notif_files = 256

-- `entry->d_name[0]` is a digit from 1 to 9; the reply's flag is `DT_DIR || DT_UNKNOWN`.
abbrev pub starts_with_pid : Bytes → Bool
starts_with_pid [] = false
starts_with_pid (c ∷ name) = leb b'1' c && leb c b'9'

-- The entries of `notif_lock` that this call fills, in order; the count is their number.
unfoldable pub notification_round : Bytes → ℤ → List ℤ → M (Next (List ℤ) (List ℤ))
notification_round tmp dir locks w =
    let (entry, w') = issue (readdir dir) w in
    if is_neg entry.ret || not (ltb (length locks) max_notif_files)
    then (stop locks, w')
    else if starts_with_pid entry.bytes && entry.flag
    then (let (lock, w'') = acquire_lock tmp entry.bytes (codes "attachNotificationSync") w' in
        (again (locks ++ lock ∷ []), w''))
    else (again locks, w')

unfoldable pub lock_notification_files : Bytes → M (List ℤ)
lock_notification_files tmp w =
    let (dir, w') = call (opendir (notifier_dir tmp)) w in
    if is_neg dir
    then ([], w')
    else (let (locks, w'') = forever (λ locks. locks) (notification_round tmp dir) [] w' in
        then_return (issue (closedir dir)) locks w'')

unfoldable pub unlock_notification_files : List ℤ → M (Unit {0})
unlock_notification_files [] w = (tt, w)
unlock_notification_files (lock ∷ locks) w =
    unlock_notification_files locks (if is_neg lock then w else (release_lock lock w).1)

unfoldable pub is_openj9_process : Bytes → ℤ → M Bool
is_openj9_process tmp pid w =
    let path =
      snprintf max_path
        (tmp ++ (attach_dir ++ (b'/' ∷ (signed_decimal pid ++ codes "/attachInfo")))) in
    let (found, w') = call (stat path) w in (eqb_ℤ found (pos 0), w')
