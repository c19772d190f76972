-- ===== src/Openj9/Wire/Receiving.antt =====
-- What `read_response` takes from the socket, and what it does with a complete answer.
use yc_360_script.Prelude.{
  ℕ, suc, ◌+◌, ◌-◌, ◌*◌, ◌≤◌, ◌<◌, ◌≡◌, ◌≢◌, refl, sym, ◌∙◌, [], ◌∷◌, ◌++◌, append_assoc,
  append_cons-ne-nil, append-nil, Bytes, length, length-append, Bool-cases, inl, inr, arith,
}
use yc_360_script.Prelude.Int.{ℤ, is_neg}
use yc_360_script.Posix.{World, issue, call, receive, read, malloc, realloc, Chunk, failed, got}
use yc_360_script.Posix.Loop.{
  again, stop, forever, forever_inv, Consumes, issue_answer, issue-le, rounds, rounds-steady,
}
use yc_360_script.Posix.Trace.{received, chunk_bytes, length-delivered, eqb_ℤ-self}
use yc_360_script.Openj9.Wire.{
  Received, no_bytes, read_error, no_memory, complete, Buffer, last_byte, after_read, absorb,
  read_round, read_all,
}

module _ (fd : ℤ) (before : Bytes) where
  -- The buffer holds what came from the socket, and the next read has room for a byte.
  pub record IsRoomy (b : Buffer) (w : World) : Type 0 where
    pub taken : received fd w.trace ≡ before ++ b.bytes
    pub room : length b.bytes < b.size

  -- A complete answer is all that came, and ends in a NUL.
  abbrev Ends : Received → World → Type 0
  Ends (complete buf) w = (received fd w.trace ≡ before ++ buf) × (buf ≢ []) × (last_byte buf ≡ 0)
  Ends _ w = Unit

  -- The state between the read and the tests behind it.
  record Absorbed (b : Buffer) (w : World) : Type 0 where
    taken : received fd w.trace ≡ before ++ b.bytes
    some_bytes : b.bytes ≢ []
    room : length b.bytes ≤ b.size

  after_read_again :
      (b : Buffer) (w : World) (b' : Buffer)
      → Absorbed b w
      → (after_read b w).0 ≡ again b'
      → IsRoomy b' (after_read b w).1
  unfolding after_read issue
  after_read_again b w b' a e = ground arith

  after_read_stop :
      (b : Buffer) (w : World) (r : Received)
      → Absorbed b w
      → (after_read b w).0 ≡ stop r
      → Ends r (after_read b w).1
  unfolding after_read issue
  after_read_stop b w r a e = ground arith

  -- One read.
  Took : Buffer → Chunk → World → Type 0
  Took b c w =
      (received fd w.trace ≡ before ++ b.bytes ++ chunk_bytes c)
      × (length b.bytes + length (chunk_bytes c) ≤ b.size)

  received-read :
      (n : ℕ) (w : World)
      → received fd (receive (read fd n) n w).1.trace
        ≡ received fd w.trace ++ chunk_bytes (receive (read fd n) n w).0
  unfolding issue
  received-read n w = rw (eqb_ℤ-self fd)

  Took-chunk :
      (b : Buffer) (w : World)
      → IsRoomy b w
      → (let room = b.size - length b.bytes in
          let r = receive (read fd room) room w in Took b r.0 r.1)
  unfolding Took
  Took-chunk b w h =
      let room = b.size - length b.bytes in
      (
        rw (received-read room w, h.taken),
        omega (arith, h.room, length-delivered room (issue (read fd room) w).0),
      )

  absorbed :
      (b : Buffer) (x : ℕ) (xs : Bytes) (w : World)
      → Took b (got (x ∷ xs)) w
      → Absorbed (record b { bytes = b.bytes ++ (x ∷ xs) }) w
  unfolding Took
  absorbed b x xs w (p, q) = record {
    taken = p ∙ append_assoc before b.bytes (x ∷ xs);
    some_bytes = append_cons-ne-nil b.bytes xs x;
    room = omega (arith, length-append b.bytes (x ∷ xs));
  }

  absorb_again :
      (b : Buffer) (c : Chunk) (w : World) (b' : Buffer)
      → Took b c w
      → (absorb b c w).0 ≡ again b'
      → IsRoomy b' (absorb b c w).1
  absorb_again b failed w b' t e = cc
  absorb_again b (got []) w b' t e = cc
  absorb_again b (got (x ∷ xs)) w b' t e = after_read_again _ w b' (absorbed b x xs w t) e

  absorb_stop :
      (b : Buffer) (c : Chunk) (w : World) (r : Received)
      → Took b c w
      → (absorb b c w).0 ≡ stop r
      → Ends r (absorb b c w).1
  absorb_stop b failed w r t e = ground arith
  absorb_stop b (got []) w r t e = ground arith
  absorb_stop b (got (x ∷ xs)) w r t e = after_read_stop _ w r (absorbed b x xs w t) e

  read_round_again :
      (b : Buffer) (w : World) (b' : Buffer)
      → IsRoomy b w
      → (read_round fd b w).0 ≡ again b'
      → IsRoomy b' (read_round fd b w).1
  unfolding read_round
  read_round_again b w b' h e = absorb_again b _ _ b' (Took-chunk b w h) e

  read_round_stop :
      (b : Buffer) (w : World) (r : Received)
      → IsRoomy b w
      → (read_round fd b w).0 ≡ stop r
      → Ends r (read_round fd b w).1
  unfolding read_round
  read_round_stop b w r h e = absorb_stop b _ _ r (Took-chunk b w h) e

  read_all-Ends :
      (w : World) → received fd w.trace ≡ before → Ends (read_all fd w).0 (read_all fd w).1
  unfolding read_all issue
  read_all-Ends w h = elim (Bool-cases (is_neg (call (malloc 8192) w).0)) [
    | inl fails ↦ rw fails tt
    | inr made ↦ rw made (
        forever_inv (λ _. read_error) (read_round fd) IsRoomy Ends (λ _ _ _. tt) read_round_again
          read_round_stop (record { size = 8192; bytes = [] }) (call (malloc 8192) w).1
          (record { taken = h ∙ sym (append-nil before); room = omega arith }))
  ]

-- A round of the read loop that goes on leaves the buffer with exactly the bytes that came from the
-- socket, fewer than its size: the next read has room, and writes inside the buffer.
read_round-IsRoomy :
    (fd : ℤ) (before : Bytes) (b next : Buffer) (w : World)
    → IsRoomy fd before b w
    → (read_round fd b w).0 ≡ again next
    → IsRoomy fd before next (read_round fd b w).1
read_round-IsRoomy fd before b next w = read_round_again fd before b w next

Ends-complete :
    (fd : ℤ) (before buf : Bytes) (r : Received) (w : World)
    → r ≡ complete buf
    → Ends fd before r w
    → (received fd w.trace ≡ before ++ buf) × (buf ≢ []) × (last_byte buf ≡ 0)
Ends-complete fd before buf no_bytes w e h = cc
Ends-complete fd before buf read_error w e h = cc
Ends-complete fd before buf no_memory w e h = cc
Ends-complete fd before buf (complete b) w e (p, q, r) = ground arith

-- A complete answer is all that was read from the socket since the call, it is not empty, and its
-- last byte is the NUL that the search functions rely on.
pub read_all-complete :
    (fd : ℤ) (buf : Bytes) (w : World)
    → (read_all fd w).0 ≡ complete buf
    → (received fd (read_all fd w).1.trace ≡ received fd w.trace ++ buf)
      × (buf ≢ [])
      × (last_byte buf ≡ 0)
read_all-complete fd buf w e =
    Ends-complete fd (received fd w.trace) buf _ (read_all fd w).1 e (read_all-Ends fd _ w refl)

absorb-le :
    (b : Buffer) (c : Chunk) (w : World) → length (absorb b c w).1.replies ≤ length w.replies
unfolding after_read
absorb-le b failed w = omega arith
absorb-le b (got []) w = omega arith
absorb-le b (got (x ∷ xs)) w = ground (arith, issue-le (realloc (b.size * 2)) w)

read_round-Consumes : (fd : ℤ) → Consumes (read_round fd)
unfolding read_round
read_round-Consumes fd b w next e = elim (issue_answer (read fd (b.size - length b.bytes)) w) [
  | inl fewer ↦
      let r = receive (read fd (b.size - length b.bytes)) (b.size - length b.bytes) w in
      omega (arith, absorb-le b r.0 r.1)
  | inr silent ↦ ground arith
]

-- Every amount of fuel above the number of replies gives the same run of the read loop: it ends.
read_all_ends :
    (fd : ℤ) (b : Buffer) (w : World) (fuel : ℕ)
    → length w.replies < fuel
    → rounds (λ _. read_error) (read_round fd) fuel b w
      ≡ forever (λ _. read_error) (read_round fd) b w
unfolding forever
read_all_ends fd b w fuel h =
    rounds-steady (λ _. read_error) (read_round fd) (read_round-Consumes fd) fuel
      (suc (length w.replies)) b w h (omega arith)
