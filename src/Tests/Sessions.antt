-- ===== src/Tests/Sessions.antt =====
-- An OpenJ9 and a HotSpot session against scripted replies.
use yc_360_script.Prelude.{
  arith, ℕ, ◌≤◌, ◌≡◌, ◌≢◌, refl, true, false, ◌⊎◌, List, [], ◌∷◌, ◌++◌, some, Bytes, codes, length,
  take, has_prefix,
}
use yc_360_script.Prelude.Int.{ℤ, pos, negsuc}
use yc_360_script.Posix.{World, Reply, issue, receive, read}
use yc_360_script.Posix.Loop.{forever, rounds, again}
use yc_360_script.Posix.Trace.{descriptor, Balanced, sent, received}
use yc_360_script.CString.{after_strstr}
use yc_360_script.CString.Numbers.{hex_digits}
use yc_360_script.Openj9.Translate.{translate_command}
use yc_360_script.Openj9.Wire.{
  write_round, write_command, Buffer, complete, last_byte, after_read, read_round, read_all,
  load_result, interpret, read_response, drain_round, detach,
}
use yc_360_script.Openj9.Wire.Sending.{write_command-sent}
use yc_360_script.Openj9.Wire.Receiving.{read_all-complete}
use yc_360_script.Openj9.Files.{
  acquire_lock, release_lock, listen_on, create_attach_socket, close_attach_socket, random_key,
  write_reply_info, semop_times, notify_semaphore, recv_round, check_greeting, accept_client,
  notification_round, lock_notification_files, unlock_notification_files, is_openj9_process,
  expected_greeting,
}
use yc_360_script.Openj9.Files.Accept.{accept_client-key}
use yc_360_script.Openj9.Session.{
  close_if_open, unlock_if_any, abandon, finish, converse, settle, await_client, notify_jvm,
  publish, open_session, jattach_openj9,
}
use yc_360_script.Openj9.Session.Balance.{jattach_openj9-Balanced}
use yc_360_script.Hotspot
use yc_360_script.Hotspot.{jattach_hotspot, poll, poll_fuel, check_socket}
use yc_360_script.Hotspot.Balance.{jattach_hotspot-Balanced}
use yc_360_script.Hotspot.Mirror.{IsDue, read_response-mirrors}
use yc_360_script.Hotspot.Wait.{poll-poll_fuel}
use yc_360_script.Attach.{Globals, jattach2}
use yc_360_script.Attach.Laws.{jattach2-Balanced}

abbrev value : ℤ → Reply
value r = record { ret = r; bytes = []; number = 0; flag = false }

abbrev text : Bytes → Reply
text b = record { ret = pos 0; bytes = b; number = 0; flag = true }

abbrev handle : ℕ → Reply
handle n = value (pos n)

abbrev ok : Reply
ok = value (pos 0)

abbrev fails : Reply
fails = value (negsuc 0)

abbrev greeting : Bytes
greeting = codes "ATTACH_CONNECTED 0000000000000000 " ++ 0 ∷ []

-- The lock, the socket, a key of 0, `replyInfo`, one notified JVM and its connection.
abbrev opening : List Reply
opening =
    handle 3
    ∷ ok
    ∷ handle 4
    ∷ ok
    ∷ ok
    ∷ ok
    ∷ ok
    ∷ fails
    ∷ handle 5
    ∷ handle 19
    ∷ ok
    ∷ handle 6
    ∷ text (codes "77")
    ∷ handle 7
    ∷ ok
    ∷ fails
    ∷ ok
    ∷ handle 9
    ∷ ok
    ∷ ok
    ∷ handle 8
    ∷ text (take 20 greeting)
    ∷ text (codes "0000000000000 " ++ 0 ∷ [])
    ∷ ok
    ∷ []

-- Unlinking and unlocking, the command, the answer and the detachment.
abbrev closing : List Reply
closing =
    ok
    ∷ ok
    ∷ ok
    ∷ ok
    ∷ handle 9
    ∷ ok
    ∷ ok
    ∷ ok
    ∷ ok
    ∷ handle 20
    ∷ handle 99
    ∷ handle 1
    ∷ text (codes "done" ++ 0 ∷ [])
    ∷ ok
    ∷ ok
    ∷ handle 16
    ∷ text (0 ∷ [])
    ∷ ok
    ∷ []

abbrev from : List Reply → World
from rs = record { replies = rs; trace = [] }

abbrev threaddump : List Bytes
threaddump = codes "threaddump" ∷ []

abbrev tmp : Bytes
tmp = codes "/tmp"

openj9_returns :
    (jattach_openj9 tmp (pos 77) threaddump (from (opening ++ closing))).0 ≡ some (pos 0)
unfolding jattach_openj9 open_session publish notify_jvm await_client abandon close_if_open
    unlock_if_any settle converse finish acquire_lock release_lock create_attach_socket listen_on
    close_attach_socket random_key write_reply_info lock_notification_files notification_round
    unlock_notification_files notify_semaphore semop_times accept_client recv_round check_greeting
    translate_command write_command write_round read_response read_all read_round after_read
    interpret load_result after_strstr detach drain_round forever issue hex_digits rounds
openj9_returns = refl

jattach_openj9-Balanced_example :
    Balanced descriptor 8
      (from (opening ++ closing))
      (jattach_openj9 tmp (pos 77) threaddump (from (opening ++ closing))).1
jattach_openj9-Balanced_example =
    jattach_openj9-Balanced tmp (pos 77) threaddump (from (opening ++ closing)) (pos 0) 8
      openj9_returns

abbrev hotspot_script : List Reply
hotspot_script =
    fails
    ∷ handle 3
    ∷ ok
    ∷ value (pos 0)
    ∷ ok
    ∷ ok
    ∷ ok
    ∷ ok
    ∷ text []
    ∷ ok
    ∷ handle 4
    ∷ ok
    ∷ ok
    ∷ handle 2
    ∷ handle 11
    ∷ handle 1
    ∷ handle 1
    ∷ handle 1
    ∷ text (codes "0\nreturn ")
    ∷ ok
    ∷ ok
    ∷ text (codes "0\n")
    ∷ ok
    ∷ ok
    ∷ []

jattach_hotspot-Balanced_example :
    Balanced descriptor 4
      (from hotspot_script)
      (jattach_hotspot tmp (pos 40) (pos 77) threaddump (from hotspot_script)).1
jattach_hotspot-Balanced_example =
    jattach_hotspot-Balanced tmp (pos 40) (pos 77) threaddump (from hotspot_script) 4

abbrev prepared : Globals
prepared = record { nspid = pos 77; code = pos 0; tmp_path = tmp }

-- The lock file is opened and cannot be locked.
abbrev unlockable : World
unlockable = from (ok ∷ handle 3 ∷ fails ∷ ok ∷ ok ∷ [])

attach_returns : (jattach2 (pos 40) threaddump prepared unlockable).0 ≡ some (pos 1)
unfolding jattach2 is_openj9_process jattach_openj9 acquire_lock issue
attach_returns = refl

jattach2-Balanced_example :
    Balanced descriptor 3 unlockable (jattach2 (pos 40) threaddump prepared unlockable).1
jattach2-Balanced_example =
    jattach2-Balanced (pos 40) threaddump prepared unlockable (pos 1) 3 attach_returns

abbrev answers : World
answers = from (text (codes "0\nab") ∷ ok ∷ ok ∷ text (codes "cd") ∷ ok ∷ ok ∷ ok ∷ [])

read_response-mirrors_example :
    (let r = Hotspot.read_response (pos 4) threaddump answers in
      IsDue (pos 4) (receive (read (pos 4) 8191) 8191 answers).0 answers r.0 r.1)
read_response-mirrors_example = read_response-mirrors (pos 4) threaddump answers

-- Two short writes.
abbrev slow : World
slow = from (handle 3 ∷ handle 2 ∷ [])

write_command-sent_example :
    (((write_command (pos 5) (codes "quit") slow).0 ≡ pos 0)
      × (sent (pos 5) (write_command (pos 5) (codes "quit") slow).1.trace
          ≡ sent (pos 5) slow.trace ++ (codes "quit" ++ 0 ∷ [])))
    ⊎ (((write_command (pos 5) (codes "quit") slow).0 ≡ negsuc 0)
        × ((k : ℕ) × (k ≤ length (codes "quit" ++ 0 ∷ []))
            × (sent (pos 5) (write_command (pos 5) (codes "quit") slow).1.trace
                ≡ sent (pos 5) slow.trace ++ take k (codes "quit" ++ 0 ∷ []))))
write_command-sent_example = write_command-sent (pos 5) (codes "quit") slow

-- A malloc, and an answer in two pieces.
abbrev pieces : World
pieces = from (ok ∷ text (codes "ab") ∷ text (codes "c" ++ 0 ∷ []) ∷ [])

pieces_complete : (read_all (pos 5) pieces).0 ≡ complete (codes "abc" ++ 0 ∷ [])
unfolding read_all forever rounds read_round after_read issue
pieces_complete = refl

read_all-complete_example :
    (received (pos 5) (read_all (pos 5) pieces).1.trace
      ≡ received (pos 5) pieces.trace ++ (codes "abc" ++ 0 ∷ []))
    × (codes "abc" ++ 0 ∷ [] ≢ [])
    × (last_byte (codes "abc" ++ 0 ∷ []) ≡ 0)
read_all-complete_example = read_all-complete (pos 5) (codes "abc" ++ 0 ∷ []) pieces pieces_complete

abbrev fresh : Buffer
fresh = record { size = 8192; bytes = [] }

abbrev half : Buffer
half = record { size = 8192; bytes = codes "ab" }

abbrev arriving : World
arriving = from (text (codes "ab") ∷ [])

goes_on : (read_round (pos 5) fresh arriving).0 ≡ again half
unfolding read_round after_read issue
goes_on = refl

abbrev knocking : World
knocking =
    from
      (ok ∷ handle 8 ∷ text (take 20 greeting) ∷ text (codes "0000000000000 " ++ 0 ∷ []) ∷ ok ∷ [])

let_in : (accept_client (pos 4) 0 knocking).0 ≡ pos 8
unfolding accept_client recv_round check_greeting forever rounds issue hex_digits
let_in = refl

accept_client-key_example :
    (buf : Bytes) × (received (pos 8) (accept_client (pos 4) 0 knocking).1.trace
      ≡ received (pos 8) knocking.trace ++ buf)
    × (length buf ≡ 35)
    × (has_prefix (expected_greeting 0) buf ≡ true)
accept_client-key_example = accept_client-key (pos 4) 0 knocking 8 let_in

-- The socket appears in the second round.
abbrev starting : World
starting = from (handle 3 ∷ ok ∷ ok ∷ ok ∷ ok ∷ ok ∷ fails ∷ ok ∷ text [] ∷ ok ∷ [])

poll-poll_fuel_example :
    poll tmp (pos 77) 30 20000000 starting ≡ poll tmp (pos 77) poll_fuel 20000000 starting
poll-poll_fuel_example = poll-poll_fuel tmp (pos 77) 30 starting (omega arith)
