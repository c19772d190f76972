-- ===== src/Openj9/Wire/Balance.antt =====
-- The traffic opens and closes no descriptor.
use yc_360_script.Prelude.{ℕ, ◌-◌, Option, none, some, [], ◌∷◌, ◌++◌, codes, length, Bytes, arith}
use yc_360_script.Prelude.Int.{ℤ, negsuc}
use yc_360_script.CString.{after_strstr}
use yc_360_script.Posix.{World, Chunk, failed, got, issue, call, receive, read, malloc}
use yc_360_script.Posix.Trace.{descriptor, Balanced}
use yc_360_script.Posix.Balance.{forever-Balanced}
use yc_360_script.Openj9.Unescape.{print_unescaped}
use yc_360_script.Openj9.Wire.{
  write_round, write_command, Received, no_bytes, read_error, no_memory, complete, Buffer,
  after_read, absorb, read_round, read_all, print_value, found, interpret, respond, read_response,
  drain_round, detach,
}

module _ (v : ℕ) where
  write_round-Balanced :
      (fd : ℤ) (msg : Bytes) (off : ℕ) (w : World)
      → Balanced descriptor v w (write_round fd msg off w).1
  unfolding write_round issue
  write_round-Balanced fd msg off w = ground arith

  pub write_command-Balanced :
      (fd : ℤ) (cmd : Bytes) (w : World) → Balanced descriptor v w (write_command fd cmd w).1
  unfolding write_command
  write_command-Balanced fd cmd w =
      forever-Balanced descriptor v (λ _. negsuc 0) (write_round fd (cmd ++ 0 ∷ []))
        (write_round-Balanced fd (cmd ++ 0 ∷ [])) 0 w

  absorb-Balanced : (b : Buffer) (c : Chunk) (w : World) → Balanced descriptor v w (absorb b c w).1
  unfolding after_read issue
  absorb-Balanced b failed w = omega arith
  absorb-Balanced b (got []) w = omega arith
  absorb-Balanced b (got (x ∷ xs)) w = ground arith

  read_round-Balanced :
      (fd : ℤ) (b : Buffer) (w : World) → Balanced descriptor v w (read_round fd b w).1
  unfolding read_round issue
  read_round-Balanced fd b w =
      let room = b.size - length b.bytes in
      let c = receive (read fd room) room w in omega (arith, absorb-Balanced b c.0 c.1)

  read_all-Balanced : (fd : ℤ) (w : World) → Balanced descriptor v w (read_all fd w).1
  unfolding read_all issue
  read_all-Balanced fd w =
      let m = call (malloc 8192) w in
      ground (
        arith,
        forever-Balanced descriptor v (λ _. read_error) (read_round fd) (read_round-Balanced fd)
            (record { size = 8192; bytes = [] }) m.1,
      )

  print_value-Balanced :
      (o : Option Bytes) (w : World) → Balanced descriptor v w (print_value o w).1
  unfolding issue
  print_value-Balanced none w = omega arith
  print_value-Balanced (some out) w = omega arith

  found-Balanced :
      (buf : Bytes) (o : Option Bytes) (w : World) → Balanced descriptor v w (found buf o w).1
  unfolding issue
  found-Balanced buf none w = omega arith
  found-Balanced buf (some mem) w = print_value-Balanced (print_unescaped mem) w

  interpret-Balanced :
      (cmd buf : Bytes) (w : World) → Balanced descriptor v w (interpret cmd buf w).1
  unfolding interpret issue
  interpret-Balanced cmd buf w = ground (
    arith,
    found-Balanced buf (after_strstr buf (codes "openj9_diagnostics.string_result=") 33) w,
  )

  respond-Balanced :
      (cmd : Bytes) (r : Received) (w : World) → Balanced descriptor v w (respond cmd r w).1
  unfolding issue
  respond-Balanced cmd no_bytes w = omega arith
  respond-Balanced cmd read_error w = omega arith
  respond-Balanced cmd no_memory w = omega arith
  respond-Balanced cmd (complete buf) w = interpret-Balanced cmd buf w

  pub read_response-Balanced :
      (fd : ℤ) (cmd : Bytes) (w : World) → Balanced descriptor v w (read_response fd cmd w).1
  unfolding read_response
  read_response-Balanced fd cmd w =
      let r = read_all fd w in omega (arith, read_all-Balanced fd w, respond-Balanced cmd r.0 r.1)

  drain_round-Balanced :
      (fd : ℤ) (s : Unit {0}) (w : World) → Balanced descriptor v w (drain_round fd s w).1
  unfolding drain_round issue
  drain_round-Balanced fd s w = omega arith

  pub detach-Balanced : (fd : ℤ) (w : World) → Balanced descriptor v w (detach fd w).1
  unfolding detach
  detach-Balanced fd w =
      let r = write_command fd (codes "ATTACH_DETACHED") w in
      ground (
        arith,
        write_command-Balanced fd (codes "ATTACH_DETACHED") w,
        forever-Balanced descriptor v (λ _. tt) (drain_round fd) (drain_round-Balanced fd) tt r.1,
      )
