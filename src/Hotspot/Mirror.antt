-- ===== src/Hotspot/Mirror.antt =====
-- What `read_response` prints, and what `write_command` sends.
use yc_360_script.Prelude.{
  ℕ, ◌-◌, ◌≡◌, refl, ◌∙◌, ◌&&◌, inl, inr, Option, some, List, [], ◌∷◌, ◌++◌, append_assoc,
  append-nil, ltb, Bytes, codes, length, Bool-cases, arith,
}
use yc_360_script.Prelude.Int.{ℤ, pos, eqb_ℤ}
use yc_360_script.CString.{atoi}
use yc_360_script.Posix.{World, Chunk, failed, got, issue, receive, read, put}
use yc_360_script.Posix.Loop.{
  again, stop, forever, forever_inv, forever_end, Consumes, issue-le, issue_answer,
}
use yc_360_script.Posix.Trace.{received, printed, chunk_bytes, eqb_ℤ-self}
use yc_360_script.Hotspot.{
  more_of, fill_round, next_chunk, mirror_round, load_result, is_load, mirror, answer, respond,
  read_response,
}

module _ (fd : ℤ) where
  received-read :
      (n : ℕ) (w : World)
      → received fd (receive (read fd n) n w).1.trace
        ≡ received fd w.trace ++ chunk_bytes (receive (read fd n) n w).0
  unfolding issue
  received-read n w = rw (eqb_ℤ-self fd)

  printed-read : (n : ℕ) (w : World) → printed (receive (read fd n) n w).1.trace ≡ printed w.trace
  unfolding issue
  printed-read n w = refl

  mirror_round-Consumes : Consumes (mirror_round fd)
  unfolding mirror_round
  mirror_round-Consumes buf w next e =
      let fewer = issue-le (put buf) w in
      elim (issue_answer (read fd 8192) (issue (put buf) w).1) [
        | inl less ↦ omega arith
        | inr silent ↦ ground arith
      ]

  module _ (taken0 shown0 : Bytes) where
    -- `buf` was taken, and is still to be printed behind what was.
    Pending : Bytes → World → Type 0
    Pending buf w =
        (out : Bytes) × (received fd w.trace ≡ taken0 ++ (out ++ buf))
        × (printed w.trace ≡ shown0 ++ out)

    Shown : World → Type 0
    Shown w =
        (out : Bytes) × (received fd w.trace ≡ taken0 ++ out) × (printed w.trace ≡ shown0 ++ out)

    mirror_chunk :
        (buf : Bytes) (w : World)
        → Pending buf w
        → (let r = receive (read fd 8192) 8192 (issue (put buf) w).1 in
            Pending (chunk_bytes r.0) r.1)
    unfolding issue Pending
    mirror_chunk buf w (out, p, q) = (
      out ++ buf,
      rw (eqb_ℤ-self fd, p) (append_assoc taken0 (out ++ buf) _),
      rw q (append_assoc shown0 out buf),
    )

    next_again :
        (c : Chunk) (w : World) (buf : Bytes)
        → Pending (chunk_bytes c) w
        → next_chunk c ≡ again buf
        → Pending buf w
    next_again failed w buf p e = cc
    next_again (got []) w buf p e = cc
    next_again (got (x ∷ xs)) w buf p e = let q : x ∷ xs ≡ buf = cc in rw (← q) p

    next_stop :
        (c : Chunk) (w : World) (u : Unit {0})
        → Pending (chunk_bytes c) w
        → next_chunk c ≡ stop u
        → Shown w
    unfolding Pending Shown
    next_stop failed w u (out, p, q) e = (out, rw append-nil at p, q)
    next_stop (got []) w u (out, p, q) e = (out, rw append-nil at p, q)
    next_stop (got (x ∷ xs)) w u p e = cc

    mirror_loop :
        (buf : Bytes) (w : World)
        → Pending buf w
        → Shown (forever (λ _. tt) (mirror_round fd) buf w).1
    unfolding mirror_round
    mirror_loop =
        forever_end (λ _. tt) (mirror_round fd) Pending (λ _ w. Shown w) mirror_round-Consumes
          (λ buf w next p e. next_again _ _ next (mirror_chunk buf w p) e)
          (λ buf w u p e. next_stop _ _ u (mirror_chunk buf w p) e)

    -- The buffer of the `load` command, before anything is printed.
    Held : Bytes → World → Type 0
    Held buf w = (received fd w.trace ≡ taken0 ++ buf) × (printed w.trace ≡ shown0)

    Held-more :
        (buf : Bytes) (n : ℕ) (w : World)
        → Held buf w
        → (let r = receive (read fd n) n w in Held (buf ++ chunk_bytes r.0) r.1)
    unfolding Held
    Held-more buf n w (p, q) =
        (rw (received-read n w, p) (append_assoc taken0 buf _), printed-read n w ∙ q)

    more_again :
        (buf : Bytes) (c : Chunk) (w : World) (next : Bytes)
        → Held (buf ++ chunk_bytes c) w
        → more_of buf c ≡ again next
        → Held next w
    more_again buf failed w next h e = cc
    more_again buf (got []) w next h e = cc
    more_again buf (got (x ∷ xs)) w next h e = let q : buf ++ (x ∷ xs) ≡ next = cc in rw (← q) h

    more_stop :
        (buf : Bytes) (c : Chunk) (w : World) (last : Bytes)
        → Held (buf ++ chunk_bytes c) w
        → more_of buf c ≡ stop last
        → Held last w
    more_stop buf failed w last h e = let q : buf ≡ last = cc in rw (← q, ← append-nil buf) h
    more_stop buf (got []) w last h e = let q : buf ≡ last = cc in rw (← q, ← append-nil buf) h
    more_stop buf (got (x ∷ xs)) w last h e = cc

    fill_again :
        (buf : Bytes) (w : World) (next : Bytes)
        → Held buf w
        → (fill_round fd buf w).0 ≡ again next
        → Held next (fill_round fd buf w).1
    unfolding fill_round
    fill_again buf w next h e =
        let n = 8191 - length buf in
        let r = receive (read fd n) n w in
        elim (Bool-cases (ltb (length buf) 8191)) [
          | inl more ↦ rw more (more_again buf r.0 r.1 next (Held-more buf n w h) (rw more at e))
          | inr full ↦ cc (rw full at e)
        ]

    fill_stop :
        (buf : Bytes) (w : World) (last : Bytes)
        → Held buf w
        → (fill_round fd buf w).0 ≡ stop last
        → Held last (fill_round fd buf w).1
    unfolding fill_round
    fill_stop buf w last h e =
        let n = 8191 - length buf in
        let r = receive (read fd n) n w in
        elim (Bool-cases (ltb (length buf) 8191)) [
          | inl more ↦ rw more (more_stop buf r.0 r.1 last (Held-more buf n w h) (rw more at e))
          | inr full ↦
              let e' : stop buf ≡ stop last = rw full at e in
              let q : buf ≡ last = cc in rw (full, ← q) h
        ]

    fill_loop :
        (buf : Bytes) (w : World)
        → Held buf w
        → (let r = forever (λ b. b) (fill_round fd) buf w in Held r.0 r.1)
    fill_loop = forever_inv (λ b. b) (fill_round fd) Held Held (λ _ _ p. p) fill_again fill_stop

abbrev pub banner : Bytes
banner = codes "JVM response code = "

module _ (fd : ℤ) (taken0 shown0 : Bytes) where
  -- All that was taken was printed, between the banner and a line end.
  Mirrored : World → Type 0
  Mirrored w =
      (out : Bytes) × (received fd w.trace ≡ taken0 ++ out)
      × (printed w.trace ≡ shown0 ++ (banner ++ (out ++ b'\n' ∷ [])))

  closing :
      (w : World) → Shown fd taken0 (shown0 ++ banner) w → Mirrored (issue (put (b'\n' ∷ [])) w).1
  unfolding Shown Mirrored issue
  closing w (out, p, q) = (out, p, rw q (simp append_assoc))

  opening :
      (buf : Bytes) (w : World)
      → Held fd taken0 shown0 buf w
      → Pending fd taken0 (shown0 ++ banner) buf (issue (put banner) w).1
  unfolding Held Pending issue
  opening buf w (p, q) = ([], p, rw (q, append-nil))

  mirror-Mirrored :
      (buf : Bytes) (result : Option ℤ) (w : World)
      → Held fd taken0 shown0 buf w
      → Mirrored (mirror fd buf result w).1
  unfolding mirror
  mirror-Mirrored buf result w h =
      closing _
        (mirror_loop fd taken0 (shown0 ++ banner) buf (issue (put banner) w).1 (opening buf w h))

  answer-Mirrored :
      (argv : List Bytes) (buf : Bytes) (w : World)
      → Held fd taken0 shown0 buf w
      → Mirrored (answer fd argv buf w).1
  unfolding answer
  answer-Mirrored argv buf w h =
      let r = forever (λ b. b) (fill_round fd) buf w in
      elim (Bool-cases (eqb_ℤ (atoi buf) (pos 0) && is_load argv)) [
        | inl load ↦
            rw load (mirror-Mirrored r.0 (load_result r.0) r.1 (fill_loop fd taken0 shown0 buf w h))
        | inr other ↦ rw other (mirror-Mirrored buf (some (atoi buf)) w h)
      ]

-- What is due for the first read: behind an error or the end of the stream the result is 1, and nothing
-- was taken or printed on stdout. Otherwise all that is taken is printed, from the bytes of the first
-- read on.
abbrev pub IsDue : ℤ → Chunk → World → Option ℤ → World → Type 0
IsDue fd failed w r w' =
    (r ≡ some (pos 1))
    × (received fd w'.trace ≡ received fd w.trace)
    × (printed w'.trace ≡ printed w.trace)
IsDue fd (got []) w r w' =
    (r ≡ some (pos 1))
    × (received fd w'.trace ≡ received fd w.trace)
    × (printed w'.trace ≡ printed w.trace)
IsDue fd (got (x ∷ xs)) w r w' =
    (out : Bytes) × (received fd w'.trace ≡ received fd w.trace ++ out)
    × (printed w'.trace ≡ printed w.trace ++ (banner ++ (out ++ b'\n' ∷ [])))

respond-IsDue :
    (fd : ℤ) (argv : List Bytes) (c : Chunk) (before w : World)
    → Held fd (received fd before.trace) (printed before.trace) (chunk_bytes c) w
    → IsDue fd c before (respond fd argv c w).0 (respond fd argv c w).1
unfolding Held Mirrored issue
respond-IsDue fd argv failed before w (p, q) = (refl, p ∙ append-nil _, q)
respond-IsDue fd argv (got []) before w (p, q) = (refl, p ∙ append-nil _, q)
respond-IsDue fd argv (got (x ∷ xs)) before w h =
    answer-Mirrored fd (received fd before.trace) (printed before.trace) argv (x ∷ xs) w h

-- Whatever is read from the JVM, over however many reads and for every command, is printed on
-- stdout in order, once and unchanged, between the banner and a line end, where the first read brings a
-- byte. Where it fails or finds the end of the stream, the result is 1, and no byte is taken and
-- nothing printed.
pub read_response-mirrors :
    (fd : ℤ) (argv : List Bytes) (w : World)
    → (let r = read_response fd argv w in IsDue fd (receive (read fd 8191) 8191 w).0 w r.0 r.1)
unfolding read_response Held
read_response-mirrors fd argv w =
    let c = receive (read fd 8191) 8191 w in
    respond-IsDue fd argv c.0 w c.1 (received-read fd 8191 w, printed-read fd 8191 w)
