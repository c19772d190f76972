-- ===== src/Openj9/Session.antt =====
-- `jattach_openj9`: one attach session.
pub mod Balance
use yc_360_script.Prelude.{
  ℕ, Bool, true, false, not, List, [], ◌∷◌, Option, none, some, ltb, if◌then◌else◌, Bytes, codes,
  length,
}
use yc_360_script.Prelude.Int.{ℤ, pos, negsuc, is_neg, eqb_ℤ}
use yc_360_script.Posix.{close, put, report, World, M, issue, then_return}
use yc_360_script.Openj9.Translate.{translate_command}
use yc_360_script.Openj9.Wire.{write_command, read_response, detach}
use yc_360_script.Openj9.Files.{
  acquire_lock, release_lock, Listening, create_attach_socket, close_attach_socket, random_key,
  write_reply_info, lock_notification_files, notify_semaphore, accept_client,
  unlock_notification_files,
}

-- The two conditional parts of `error:`.
unfoldable pub close_if_open : Bytes → ℤ → ℤ → M (Unit {0})
close_if_open tmp s nspid w = if is_neg s then (tt, w) else close_attach_socket tmp s nspid w

unfoldable pub unlock_if_any : Bytes → List ℤ → M (Unit {0})
unlock_if_any tmp locks w =
    if ltb 0 (length locks)
    then then_return (notify_semaphore tmp (negsuc 0) (length locks)) tt
        (unlock_notification_files locks w).1
    else (tt, w)

-- `error:` with the locks that are held.
unfoldable pub abandon : Bytes → ℤ → ℤ → List ℤ → ℤ → M (Option ℤ)
abandon tmp s nspid locks attach_lock w =
    then_return (release_lock attach_lock) (some (pos 1))
      (unlock_if_any tmp locks (close_if_open tmp s nspid w).1).1

-- The result of `read_response` on the connection `fd`; `none`: `print_unescaped` left its buffer.
unfoldable pub finish : ℤ → Option ℤ → M (Option ℤ)
finish fd none w = (none, w)
finish fd (some result) w =
    then_return (issue (close fd)) (some result)
      (if eqb_ℤ result (pos 1) then w else (detach fd w).1)

-- From "Connected to remote JVM" on.
unfoldable pub converse : ℤ → List Bytes → M (Option ℤ)
converse fd argv w =
    let w1 = (issue (put (codes "Connected to remote JVM\n")) w).1 in
    let cmd = translate_command 8192 argv in
    let (sent, w2) = write_command fd cmd w1 in
    if not (eqb_ℤ sent (pos 0))
    then then_return (issue (close fd)) (some (pos 1))
        (issue (report (codes "Error writing to socket")) w2).1
    else (let (r, w3) = read_response fd cmd w2 in finish fd r w3)

-- The release of everything but the connection, behind a successful `accept_client`.
unfoldable pub settle : Bytes → ℤ → ℤ → List ℤ → ℤ → M (Unit {0})
settle tmp s nspid locks attach_lock w =
    release_lock attach_lock
      (notify_semaphore tmp (negsuc 0) (length locks)
        (unlock_notification_files locks (close_attach_socket tmp s nspid w).1).1).1

-- The function in stages, each of which ends with the next or at `error:`. From `accept_client` on:
unfoldable pub await_client : Bytes → ℤ → List Bytes → ℤ → Listening → ℕ → List ℤ → M (Option ℤ)
await_client tmp nspid argv attach_lock s key locks w =
    let (fd, w1) = accept_client s.fd key w in
    if is_neg fd
    then abandon tmp s.fd nspid locks attach_lock w1
    else converse fd argv (settle tmp s.fd nspid locks attach_lock w1).1

-- From `lock_notification_files` on.
unfoldable pub notify_jvm : Bytes → ℤ → List Bytes → ℤ → Listening → ℕ → M (Option ℤ)
notify_jvm tmp nspid argv attach_lock s key w =
    let (locks, w1) = lock_notification_files tmp w in
    let (told, w2) = notify_semaphore tmp (pos 1) (length locks) w1 in
    if not (eqb_ℤ told (pos 0))
    then abandon tmp s.fd nspid locks attach_lock
        (issue (report (codes "Could not notify semaphore")) w2).1
    else await_client tmp nspid argv attach_lock s key locks w2

-- From `random_key` on.
unfoldable pub publish : Bytes → ℤ → List Bytes → ℤ → Listening → M (Option ℤ)
publish tmp nspid argv attach_lock s w =
    let (key, w1) = random_key w in
    let (wrote, w2) = write_reply_info tmp nspid s.port key w1 in
    if not (eqb_ℤ wrote (pos 0))
    then abandon tmp s.fd nspid [] attach_lock
        (issue (report (codes "Could not write replyInfo")) w2).1
    else notify_jvm tmp nspid argv attach_lock s key w2

-- From `create_attach_socket` on.
unfoldable pub open_session : Bytes → ℤ → List Bytes → ℤ → M (Option ℤ)
open_session tmp nspid argv attach_lock w =
    let (s, w1) = create_attach_socket w in
    if is_neg s.fd
    then abandon tmp s.fd nspid [] attach_lock
        (issue (report (codes "Failed to listen to attach socket")) w1).1
    else publish tmp nspid argv attach_lock s w1

unfoldable pub jattach_openj9 : Bytes → ℤ → List Bytes → M (Option ℤ)
jattach_openj9 tmp nspid argv w =
    let (attach_lock, w1) = acquire_lock tmp [] (codes "_attachlock") w in
    if is_neg attach_lock
    then (some (pos 1), (issue (report (codes "Could not acquire attach lock")) w1).1)
    else open_session tmp nspid argv attach_lock w1
