-- ===== src/Openj9/Session/Balance.antt =====
-- Every descriptor that a session opens is closed again, on every path.
use yc_360_script.Prelude.{
  ℕ, ◌+◌, ◌≡◌, Option, none, some, List, [], ◌∷◌, Bytes, codes, length, arith,
}
use yc_360_script.Prelude.Int.{ℤ, pos, negsuc}
use yc_360_script.Posix.{World, issue, put, report}
use yc_360_script.Posix.Trace.{descriptor, is, Balanced}
use yc_360_script.Posix.Balance.{Drops}
use yc_360_script.Openj9.Translate.{translate_command}
use yc_360_script.Openj9.Wire.{write_command, read_response}
use yc_360_script.Openj9.Wire.Balance.{
  write_command-Balanced, read_response-Balanced, detach-Balanced,
}
use yc_360_script.Openj9.Files.{
  acquire_lock, Listening, create_attach_socket, close_attach_socket, random_key, write_reply_info,
  lock_notification_files, notify_semaphore, accept_client, unlock_notification_files,
}
use yc_360_script.Openj9.Files.Balance.{
  acquire_lock-Gains, release_lock-Drops, create_attach_socket-Gains, close_attach_socket-Drops,
  random_key-Balanced, write_reply_info-Balanced, notify_semaphore-Balanced, accept_client-Gains,
  held, unlock_notification_files-Drops, lock_notification_files-HasLocked,
}
use yc_360_script.Openj9.Session.{
  close_if_open, unlock_if_any, abandon, finish, converse, settle, await_client, notify_jvm,
  publish, open_session, jattach_openj9,
}

module _ (v : ℕ) where
  close_if_open-Drops :
      (tmp : Bytes) (s nspid : ℤ) (w : World)
      → Drops descriptor v w (close_if_open tmp s nspid w).1 (is v s)
  unfolding close_if_open
  close_if_open-Drops tmp s nspid w = ground (arith, close_attach_socket-Drops v tmp s nspid w)

  unlock_if_any-Drops :
      (tmp : Bytes) (locks : List ℤ) (w : World)
      → Drops descriptor v w (unlock_if_any tmp locks w).1 (held v locks)
  unfolding unlock_if_any held
  unlock_if_any-Drops tmp [] w = ground arith
  unlock_if_any-Drops tmp (l ∷ ls) w =
      let w1 = (unlock_notification_files (l ∷ ls) w).1 in
      ground (
        arith,
        unlock_notification_files-Drops v (l ∷ ls) w,
        notify_semaphore-Balanced v tmp (negsuc 0) (length (l ∷ ls)) w1,
      )

  abandon-Drops :
      (tmp : Bytes) (s nspid : ℤ) (locks : List ℤ) (lock : ℤ) (w : World)
      → Drops descriptor v w
          (abandon tmp s nspid locks lock w).1
          (is v s + held v locks + is v lock)
  unfolding abandon
  abandon-Drops tmp s nspid locks lock w =
      let w1 = (close_if_open tmp s nspid w).1 in
      let w2 = (unlock_if_any tmp locks w1).1 in
      omega (
        arith,
        close_if_open-Drops tmp s nspid w,
        unlock_if_any-Drops tmp locks w1,
        release_lock-Drops v lock w2,
      )

  finish-Drops :
      (fd : ℤ) (r : Option ℤ) (w : World) (result : ℤ)
      → (finish fd r w).0 ≡ some result
      → Drops descriptor v w (finish fd r w).1 (is v fd)
  unfolding finish issue
  finish-Drops fd none w result e = cc
  finish-Drops fd (some r) w result e = ground (arith, detach-Balanced v fd w)

  settle-Drops :
      (tmp : Bytes) (s nspid : ℤ) (locks : List ℤ) (lock : ℤ) (w : World)
      → Drops descriptor v w (settle tmp s nspid locks lock w).1 (is v s + held v locks + is v lock)
  unfolding settle
  settle-Drops tmp s nspid locks lock w =
      let w1 = (close_attach_socket tmp s nspid w).1 in
      let w2 = (unlock_notification_files locks w1).1 in
      let w3 = (notify_semaphore tmp (negsuc 0) (length locks) w2).1 in
      omega (
        arith,
        close_attach_socket-Drops v tmp s nspid w,
        unlock_notification_files-Drops v locks w1,
        notify_semaphore-Balanced v tmp (negsuc 0) (length locks) w2,
        release_lock-Drops v lock w3,
      )

  converse-Drops :
      (fd : ℤ) (argv : List Bytes) (w : World) (result : ℤ)
      → (converse fd argv w).0 ≡ some result
      → Drops descriptor v w (converse fd argv w).1 (is v fd)
  unfolding converse issue
  converse-Drops fd argv w result e =
      let w1 = (issue (put (codes "Connected to remote JVM\n")) w).1 in
      let cmd = translate_command 8192 argv in
      let w2 = (write_command fd cmd w1).1 in
      let r = read_response fd cmd w2 in
      ground (
        arith,
        write_command-Balanced v fd cmd w1,
        read_response-Balanced v fd cmd w2,
        finish-Drops fd r.0 r.1 result,
      )

module _ (v : ℕ) (tmp : Bytes) (nspid : ℤ) (argv : List Bytes) (lock : ℤ) (s : Listening)
    (result : ℤ) where
  await_client-Drops :
      (key : ℕ) (locks : List ℤ) (w : World)
      → (await_client tmp nspid argv lock s key locks w).0 ≡ some result
      → Drops descriptor v w
          (await_client tmp nspid argv lock s key locks w).1
          (is v s.fd + held v locks + is v lock)
  unfolding await_client
  await_client-Drops key locks w e =
      let c = accept_client s.fd key w in
      ground (
        arith,
        accept_client-Gains v s.fd key w,
        abandon-Drops v tmp s.fd nspid locks lock c.1,
        settle-Drops v tmp s.fd nspid locks lock c.1,
        converse-Drops v c.0 argv (settle tmp s.fd nspid locks lock c.1).1 result,
      )

  notify_jvm-Drops :
      (key : ℕ) (w : World)
      → (notify_jvm tmp nspid argv lock s key w).0 ≡ some result
      → Drops descriptor v w (notify_jvm tmp nspid argv lock s key w).1 (is v s.fd + is v lock)
  unfolding notify_jvm issue
  notify_jvm-Drops key w e =
      let l = lock_notification_files tmp w in
      let w2 = (notify_semaphore tmp (pos 1) (length l.0) l.1).1 in
      let w3 = (issue (report (codes "Could not notify semaphore")) w2).1 in
      ground (
        arith,
        (lock_notification_files-HasLocked v tmp w).kept,
        notify_semaphore-Balanced v tmp (pos 1) (length l.0) l.1,
        abandon-Drops v tmp s.fd nspid l.0 lock w3,
        await_client-Drops key l.0 w2,
      )

  publish-Drops :
      (w : World)
      → (publish tmp nspid argv lock s w).0 ≡ some result
      → Drops descriptor v w (publish tmp nspid argv lock s w).1 (is v s.fd + is v lock)
  unfolding publish issue held
  publish-Drops w e =
      let k = random_key w in
      let w2 = (write_reply_info tmp nspid s.port k.0 k.1).1 in
      let w3 = (issue (report (codes "Could not write replyInfo")) w2).1 in
      ground (
        arith,
        random_key-Balanced v w,
        write_reply_info-Balanced v tmp nspid s.port k.0 k.1,
        abandon-Drops v tmp s.fd nspid [] lock w3,
        notify_jvm-Drops k.0 w2,
      )

module _ (v : ℕ) (tmp : Bytes) (nspid : ℤ) (argv : List Bytes) (result : ℤ) where
  open_session-Drops :
      (lock : ℤ) (w : World)
      → (open_session tmp nspid argv lock w).0 ≡ some result
      → Drops descriptor v w (open_session tmp nspid argv lock w).1 (is v lock)
  unfolding open_session issue held
  open_session-Drops lock w e =
      let s = create_attach_socket w in
      let w2 = (issue (report (codes "Failed to listen to attach socket")) s.1).1 in
      ground (
        arith,
        create_attach_socket-Gains v w,
        abandon-Drops v tmp s.0.fd nspid [] lock w2,
        publish-Drops v tmp nspid argv lock s.0 result s.1,
      )

  jattach_openj9_lem :
      (w : World)
      → (jattach_openj9 tmp nspid argv w).0 ≡ some result
      → Balanced descriptor v w (jattach_openj9 tmp nspid argv w).1
  unfolding jattach_openj9 issue
  jattach_openj9_lem w e =
      let lock = acquire_lock tmp [] (codes "_attachlock") w in
      ground (
        arith,
        acquire_lock-Gains v tmp [] (codes "_attachlock") w,
        open_session-Drops lock.0 lock.1,
      )

-- A session that returns has closed every descriptor as often as it was handed out to the session,
-- whatever the system and the JVM answer and wherever the session fails.
pub jattach_openj9-Balanced :
    (tmp : Bytes) (nspid : ℤ) (argv : List Bytes) (w : World) (result : ℤ) (v : ℕ)
    → (jattach_openj9 tmp nspid argv w).0 ≡ some result
    → Balanced descriptor v w (jattach_openj9 tmp nspid argv w).1
jattach_openj9-Balanced tmp nspid argv w result v = jattach_openj9_lem v tmp nspid argv result w
