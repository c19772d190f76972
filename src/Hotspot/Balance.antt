-- ===== src/Hotspot/Balance.antt =====
-- Every descriptor that a HotSpot session opens is closed again, on every path.
use yc_360_script.Prelude.{ℕ, ◌+◌, Option, none, some, List, [], ◌∷◌, Bytes, codes, arith}
use yc_360_script.Prelude.Int.{ℤ}
use yc_360_script.CString.{atoi}
use yc_360_script.Posix.{
  World, Chunk, failed, got, issue, call, receive, creat, read, put, kill, nanosleep, write,
}
use yc_360_script.Posix.Loop.{forever}
use yc_360_script.Posix.Trace.{descriptor, is, Gains, Balanced}
use yc_360_script.Posix.Balance.{Drops, forever-Balanced}
use yc_360_script.Hotspot.{
  check_socket, get_file_owner, poll, poll_fuel, trigger_here, is_distrusted, create_in_tmp,
  create_trigger, signal_and_wait, start_attach_mechanism, connect_socket, write_pieces,
  write_command, arguments, fill_round, mirror_round, load_result, mirror, answer, respond,
  read_response, converse, jattach_hotspot,
}

module _ (v : ℕ) where
  check_socket-Balanced :
      (tmp : Bytes) (pid : ℤ) (w : World) → Balanced descriptor v w (check_socket tmp pid w).1
  unfolding check_socket issue
  check_socket-Balanced tmp pid w = omega arith

  poll-Balanced :
      (tmp : Bytes) (nspid : ℤ) (fuel ts : ℕ) (w : World)
      → Balanced descriptor v w (poll tmp nspid fuel ts w).1
  unfolding poll issue
  poll-Balanced tmp nspid ℕ.zero ts w = omega arith
  poll-Balanced tmp nspid (ℕ.suc fuel) ts w =
      let w1 = (issue (nanosleep ts) w).1 in
      ground (
        arith,
        check_socket-Balanced tmp nspid w1,
        poll-Balanced tmp nspid fuel (ts + 20000000) (check_socket tmp nspid w1).1,
      )

  create_in_tmp-Balanced :
      (tmp : Bytes) (nspid : ℤ) (w : World) → Balanced descriptor v w (create_in_tmp tmp nspid w).1
  unfolding create_in_tmp issue
  create_in_tmp-Balanced tmp nspid w = ground arith

  is_distrusted-Drops :
      (fd : ℤ) (path : Bytes) (w : World)
      → Drops descriptor v w (is_distrusted fd path w).1 (is v fd)
  unfolding is_distrusted get_file_owner issue
  is_distrusted-Drops fd path w = ground arith

  create_trigger-Balanced :
      (tmp : Bytes) (nspid : ℤ) (w : World) → Balanced descriptor v w (create_trigger tmp nspid w).1
  unfolding create_trigger issue
  create_trigger-Balanced tmp nspid w =
      let f = call (creat (trigger_here nspid) 0o660) w in
      let d = is_distrusted f.0 (trigger_here nspid) f.1 in
      ground (
        arith,
        create_in_tmp-Balanced tmp nspid f.1,
        is_distrusted-Drops f.0 (trigger_here nspid) f.1,
        create_in_tmp-Balanced tmp nspid d.1,
      )

  signal_and_wait-Balanced :
      (tmp : Bytes) (pid nspid : ℤ) (path : Option Bytes) (w : World)
      → Balanced descriptor v w (signal_and_wait tmp pid nspid path w).1
  unfolding issue
  signal_and_wait-Balanced tmp pid nspid none w = omega arith
  signal_and_wait-Balanced tmp pid nspid (some path) w =
      omega (arith, poll-Balanced tmp nspid poll_fuel 20000000 (issue (kill pid 3) w).1)

  start_attach_mechanism-Balanced :
      (tmp : Bytes) (pid nspid : ℤ) (w : World)
      → Balanced descriptor v w (start_attach_mechanism tmp pid nspid w).1
  unfolding start_attach_mechanism
  start_attach_mechanism-Balanced tmp pid nspid w =
      let t = create_trigger tmp nspid w in
      omega
        (arith, create_trigger-Balanced tmp nspid w, signal_and_wait-Balanced tmp pid nspid t.0 t.1)

  connect_socket-Gains :
      (tmp : Bytes) (pid : ℤ) (w : World)
      → (let r = connect_socket tmp pid w in Gains descriptor v w r.1 (is v r.0))
  unfolding connect_socket issue
  connect_socket-Gains tmp pid w = ground arith

  write_pieces-Balanced :
      (fd : ℤ) (ps : List Bytes) (w : World) → Balanced descriptor v w (write_pieces fd ps w).1
  unfolding write_pieces issue
  write_pieces-Balanced fd [] w = omega arith
  write_pieces-Balanced fd (p ∷ ps) w =
      ground (arith, write_pieces-Balanced fd ps (issue (write fd p) w).1)

  fill_round-Balanced :
      (fd : ℤ) (buf : Bytes) (w : World) → Balanced descriptor v w (fill_round fd buf w).1
  unfolding fill_round issue
  fill_round-Balanced fd buf w = ground arith

  mirror_round-Balanced :
      (fd : ℤ) (buf : Bytes) (w : World) → Balanced descriptor v w (mirror_round fd buf w).1
  unfolding mirror_round issue
  mirror_round-Balanced fd buf w = omega arith

  mirror-Balanced :
      (fd : ℤ) (buf : Bytes) (result : Option ℤ) (w : World)
      → Balanced descriptor v w (mirror fd buf result w).1
  unfolding mirror issue
  mirror-Balanced fd buf result w = omega (
    arith,
    forever-Balanced descriptor v (λ _. tt) (mirror_round fd) (mirror_round-Balanced fd) buf
        (issue (put (codes "JVM response code = ")) w).1,
  )

  answer-Balanced :
      (fd : ℤ) (argv : List Bytes) (buf : Bytes) (w : World)
      → Balanced descriptor v w (answer fd argv buf w).1
  unfolding answer
  answer-Balanced fd argv buf w =
      let r = forever (λ b. b) (fill_round fd) buf w in
      ground (
        arith,
        forever-Balanced descriptor v (λ b. b) (fill_round fd) (fill_round-Balanced fd) buf w,
        mirror-Balanced fd r.0 (load_result r.0) r.1,
        mirror-Balanced fd buf (some (atoi buf)) w,
      )

  respond-Balanced :
      (fd : ℤ) (argv : List Bytes) (c : Chunk) (w : World)
      → Balanced descriptor v w (respond fd argv c w).1
  unfolding issue
  respond-Balanced fd argv failed w = omega arith
  respond-Balanced fd argv (got []) w = omega arith
  respond-Balanced fd argv (got (x ∷ xs)) w = answer-Balanced fd argv (x ∷ xs) w

  read_response-Balanced :
      (fd : ℤ) (argv : List Bytes) (w : World) → Balanced descriptor v w (read_response fd argv w).1
  unfolding read_response issue
  read_response-Balanced fd argv w =
      let c = receive (read fd 8191) 8191 w in omega (arith, respond-Balanced fd argv c.0 c.1)

  converse-Balanced :
      (tmp : Bytes) (nspid : ℤ) (argv : List Bytes) (w : World)
      → Balanced descriptor v w (converse tmp nspid argv w).1
  unfolding converse write_command issue
  converse-Balanced tmp nspid argv w =
      let c = connect_socket tmp nspid w in
      let w1 = (issue (put (codes "Connected to remote JVM\n")) c.1).1 in
      let pieces = (b'1' ∷ 0 ∷ []) ∷ arguments argv in
      let w2 = (write_pieces c.0 pieces w1).1 in
      ground (
        arith,
        connect_socket-Gains tmp nspid w,
        write_pieces-Balanced c.0 pieces w1,
        read_response-Balanced c.0 argv w2,
      )

-- A HotSpot session closes every descriptor as often as it was handed out to the session, whatever
-- the system and the JVM answer and wherever the session fails.
pub jattach_hotspot-Balanced :
    (tmp : Bytes) (pid nspid : ℤ) (argv : List Bytes) (w : World) (v : ℕ)
    → Balanced descriptor v w (jattach_hotspot tmp pid nspid argv w).1
unfolding jattach_hotspot issue
jattach_hotspot-Balanced tmp pid nspid argv w v =
    let s = check_socket tmp nspid w in
    let t = start_attach_mechanism tmp pid nspid s.1 in
    ground (
      arith,
      check_socket-Balanced v tmp nspid w,
      converse-Balanced v tmp nspid argv s.1,
      start_attach_mechanism-Balanced v tmp pid nspid s.1,
      converse-Balanced v tmp nspid argv t.1,
    )
