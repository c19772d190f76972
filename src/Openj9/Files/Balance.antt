-- ===== src/Openj9/Files/Balance.antt =====
-- Which descriptors each of these functions keeps: `v` is any descriptor.
use yc_360_script.Prelude.{
  ℕ, zero, suc, ◌+◌, ◌≡◌, List, [], ◌∷◌, ◌++◌, has_prefix, codes, length, length-append, ◌≤◌,
  Bool-cases, inl, inr, Bytes, arith,
}
use yc_360_script.Prelude.Int.{ℤ}
use yc_360_script.Posix.{
  World, issue, call, Domain, af_inet6, af_inet, socket, accept, readdir, opendir, semget,
  set_timeout,
}
use yc_360_script.Posix.Loop.{again, stop, forever, forever_inv}
use yc_360_script.Posix.Trace.{descriptor, opened, closed, is, Gains, Balanced}
use yc_360_script.Posix.Balance.{Drops, forever-Balanced}
use yc_360_script.Openj9.Files.{
  acquire_lock, release_lock, listen_on, create_attach_socket, close_attach_socket, random_key,
  write_reply_info, semop_times, notify_semaphore, notifier_path, notifier_dir, expected_greeting,
  recv_round, check_greeting, accept_client, notification_round, lock_notification_files,
  unlock_notification_files,
}

module _ (v : ℕ) where
  pub acquire_lock-Gains :
      (tmp subdir filename : Bytes) (w : World)
      → (let r = acquire_lock tmp subdir filename w in Gains descriptor v w r.1 (is v r.0))
  unfolding acquire_lock issue
  acquire_lock-Gains tmp subdir filename w = ground arith

  pub release_lock-Drops :
      (fd : ℤ) (w : World) → Drops descriptor v w (release_lock fd w).1 (is v fd)
  unfolding release_lock issue
  release_lock-Drops fd w = omega arith

  listen_on-Gains :
      (s : ℤ) (domain : Domain) (w : World)
      → (let r = listen_on s domain w in
          opened descriptor v r.1.trace + closed descriptor v w.trace + is v s
          ≡ closed descriptor v r.1.trace + opened descriptor v w.trace + is v r.0.fd)
  unfolding listen_on issue
  listen_on-Gains s domain w = ground arith

  pub create_attach_socket-Gains :
      (w : World) → (let r = create_attach_socket w in Gains descriptor v w r.1 (is v r.0.fd))
  unfolding create_attach_socket issue
  create_attach_socket-Gains w =
      let six = call (socket af_inet6) w in
      let four = call (socket af_inet) six.1 in
      ground (arith, listen_on-Gains six.0 af_inet6 six.1, listen_on-Gains four.0 af_inet four.1)

  pub close_attach_socket-Drops :
      (tmp : Bytes) (s pid : ℤ) (w : World)
      → Drops descriptor v w (close_attach_socket tmp s pid w).1 (is v s)
  unfolding close_attach_socket issue
  close_attach_socket-Drops tmp s pid w = omega arith

  pub random_key-Balanced : (w : World) → Balanced descriptor v w (random_key w).1
  unfolding random_key issue
  random_key-Balanced w = ground arith

  pub write_reply_info-Balanced :
      (tmp : Bytes) (pid : ℤ) (port key : ℕ) (w : World)
      → Balanced descriptor v w (write_reply_info tmp pid port key w).1
  unfolding write_reply_info issue
  write_reply_info-Balanced tmp pid port key w = ground arith

  semop_times-Balanced :
      (n : ℕ) (sem value : ℤ) (w : World) → Balanced descriptor v w (semop_times n sem value w).1
  unfolding semop_times issue
  semop_times-Balanced zero sem value w = omega arith
  semop_times-Balanced (suc n) sem value w = omega (arith, semop_times-Balanced n sem value)

  pub notify_semaphore-Balanced :
      (tmp : Bytes) (value : ℤ) (n : ℕ) (w : World)
      → Balanced descriptor v w (notify_semaphore tmp value n w).1
  unfolding notify_semaphore issue
  notify_semaphore-Balanced tmp value n w =
      let sem = call (semget (notifier_path tmp)) w in
      ground (arith, semop_times-Balanced n sem.0 value sem.1)

  recv_round-Balanced :
      (client : ℤ) (buf : Bytes) (w : World) → Balanced descriptor v w (recv_round client buf w).1
  unfolding recv_round issue
  recv_round-Balanced client buf w = ground arith

  -- The connection is kept if it is the result, and closed if not.
  check_greeting-Gains :
      (client : ℤ) (key : ℕ) (buf : Bytes) (w : World)
      → (let r = check_greeting client key buf w in
          opened descriptor v r.1.trace + closed descriptor v w.trace + is v client
          ≡ closed descriptor v r.1.trace + opened descriptor v w.trace + is v r.0)
  unfolding check_greeting issue
  check_greeting-Gains client key [] w = omega arith
  check_greeting-Gains client key (x ∷ buf) w =
      elim (Bool-cases (has_prefix (expected_greeting key) (x ∷ buf))) [
        | inl same ↦ rw same (omega arith)
        | inr other ↦ rw other (omega arith)
      ]

  pub accept_client-Gains :
      (s : ℤ) (key : ℕ) (w : World)
      → (let r = accept_client s key w in Gains descriptor v w r.1 (is v r.0))
  unfolding accept_client issue
  accept_client-Gains s key w =
      let c = call (accept s) (issue (set_timeout s 5) w).1 in
      let r = forever (λ _. []) (recv_round c.0) [] c.1 in
      ground (
        arith,
        forever-Balanced descriptor v (λ _. []) (recv_round c.0) (recv_round-Balanced c.0) [] c.1,
        check_greeting-Gains c.0 key r.0 r.1,
      )

  -- How often `v` is among the locks.
  unfoldable pub held : List ℤ → ℕ
  held [] = 0
  held (l ∷ ls) = is v l + held ls

  held-append : (ls : List ℤ) (l : ℤ) → held (ls ++ l ∷ []) ≡ held ls + is v l
  unfolding held
  held-append [] l = omega arith
  held-append (x ∷ ls) l = omega (arith, held-append ls l)

  pub unlock_notification_files-Drops :
      (locks : List ℤ) (w : World)
      → Drops descriptor v w (unlock_notification_files locks w).1 (held locks)
  unfolding unlock_notification_files held
  unlock_notification_files-Drops [] w = omega arith
  unlock_notification_files-Drops (l ∷ locks) w = ground (
    arith,
    release_lock-Drops l w,
    unlock_notification_files-Drops locks w,
    unlock_notification_files-Drops locks (release_lock l w).1,
  )

  -- The locks taken since `w0` are the ones on the list, at most as many as the array holds.
  pub record HasLocked (w0 : World) (locks : List ℤ) (w : World) : Type 0 where
    pub kept : Gains descriptor v w0 w (held locks)
    pub fits : length locks ≤ 256

  module _ (tmp : Bytes) (dir : ℤ) (w0 : World) where
    notification_round_again :
        (locks : List ℤ) (w : World) (locks' : List ℤ)
        → HasLocked w0 locks w
        → (notification_round tmp dir locks w).0 ≡ again locks'
        → HasLocked w0 locks' (notification_round tmp dir locks w).1
    unfolding notification_round issue
    notification_round_again locks w locks' h e =
        let entry = issue (readdir dir) w in
        let lock = acquire_lock tmp entry.0.bytes (codes "attachNotificationSync") entry.1 in
        ground (
          arith,
          acquire_lock-Gains tmp entry.0.bytes (codes "attachNotificationSync") entry.1,
          held-append locks lock.0,
          length-append locks (lock.0 ∷ []),
        )

    notification_round_stop :
        (locks : List ℤ) (w : World) (locks' : List ℤ)
        → HasLocked w0 locks w
        → (notification_round tmp dir locks w).0 ≡ stop locks'
        → HasLocked w0 locks' (notification_round tmp dir locks w).1
    unfolding notification_round issue
    notification_round_stop locks w locks' h e = ground arith

  pub lock_notification_files-HasLocked :
      (tmp : Bytes) (w : World) → (let r = lock_notification_files tmp w in HasLocked w r.0 r.1)
  unfolding lock_notification_files issue held
  lock_notification_files-HasLocked tmp w =
      let dir = call (opendir (notifier_dir tmp)) w in
      ground (
        arith,
        forever_inv (λ locks. locks) (notification_round tmp dir.0) (HasLocked w) (HasLocked w)
            (λ _ _ p. p) (notification_round_again tmp dir.0 w)
            (notification_round_stop tmp dir.0 w) [] dir.1
            (record { kept = omega arith; fits = omega arith }),
      )
