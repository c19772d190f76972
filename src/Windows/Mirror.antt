-- ===== src/Windows/Mirror.antt =====
-- The answer of the JVM on its way from the pipe to stdout.
use yc_360_script.Prelude.{
  ℕ, zero, suc, ◌+◌, ◌<◌, ◌≡◌, refl, ◌∙◌, inl, inr, ◌⊎◌, Bool-cases, false, true, ap, List, [], ◌∷◌,
  ◌++◌, drop, ◌==◌, if◌then◌else◌, Bytes, take, length, append-nil, append_assoc, arith,
}
use yc_360_script.Prelude.Int.{pos}
use yc_360_script.Windows.{
  read_file, put, Event, event, World, issue, mirror, read_response, connect_pipe, Reply,
  first_reply,
}

-- The bytes that successful reads of a pipe delivered, in order.
abbrev pub received : ℕ → List Event → Bytes
received pipe [] = []
received pipe (event (read_file h n) r ∷ t) =
    received pipe t ++ (if h == pipe then (if r.ret == 0 then [] else take n r.bytes) else [])
received pipe (event _ _ ∷ t) = received pipe t

-- What went to stdout, in order.
abbrev pub printed : List Event → Bytes
printed [] = []
printed (event (put b) r ∷ t) = printed t ++ b
printed (event _ _ ∷ t) = printed t

-- A read that delivers something is a reply of the script.
answered :
    (rs : List Reply)
    → ((first_reply (drop 1 rs)).ret == 0) ≡ false
    → length (drop 1 (drop 1 rs)) < length rs
answered [] e = ground arith
answered (r ∷ []) e = ground arith
answered (r ∷ q ∷ rs) e = ground arith

-- More fuel than there are replies changes nothing: the loop of `read_response` ends.
mirror_ends :
    (fuel extra pipe : ℕ) (buf : Bytes) (w : World)
    → length w.replies < fuel
    → mirror pipe (fuel + extra) buf w ≡ mirror pipe fuel buf w
unfolding mirror issue
mirror_ends zero extra pipe buf w h = ground arith
mirror_ends (suc fuel) extra pipe buf w h =
    let r = issue (read_file pipe 8192) (issue (put buf) w).1 in
    let more : suc fuel + extra ≡ suc (fuel + extra) = omega arith in
    elim (Bool-cases ((first_reply (drop 1 w.replies)).ret == 0)) [
      | inl last ↦ rw (more, last) refl
      | inr next ↦
          rw (more, next)
            (mirror_ends fuel extra pipe (take 8192 r.0.bytes) r.1
              (omega (arith, answered w.replies next)))
    ]

same_pipe : (pipe : ℕ) → (pipe == pipe) ≡ true
same_pipe pipe = ground arith

-- A read adds what it delivers to what was received, and nothing if it fails.
received-none :
    (pipe n : ℕ) (w : World)
    → ((first_reply w.replies).ret == 0) ≡ true
    → received pipe (issue (read_file pipe n) w).1.trace ≡ received pipe w.trace ++ []
unfolding issue
received-none pipe n w e = rw (same_pipe pipe, e) refl

received-some :
    (pipe n : ℕ) (w : World)
    → ((first_reply w.replies).ret == 0) ≡ false
    → received pipe (issue (read_file pipe n) w).1.trace
      ≡ received pipe w.trace ++ take n (first_reply w.replies).bytes
unfolding issue
received-some pipe n w e = rw (same_pipe pipe, e) refl

-- What the loop prints: the bytes that it starts with, and all that it reads.
Mirrored : ℕ → Bytes → World → World → Type 0
Mirrored pipe buf w w' =
    (out : Bytes) × (received pipe w'.trace ≡ received pipe w.trace ++ out)
    × (printed w'.trace ≡ printed w.trace ++ (buf ++ out))

mirror-Mirrored :
    (fuel pipe : ℕ) (buf : Bytes) (w : World)
    → length w.replies < fuel
    → Mirrored pipe buf w (mirror pipe fuel buf w)
unfolding mirror issue Mirrored
mirror-Mirrored zero pipe buf w h = ground arith
mirror-Mirrored (suc fuel) pipe buf w h =
    let r = issue (read_file pipe 8192) (issue (put buf) w).1 in
    let chunk = take 8192 r.0.bytes in
    elim (Bool-cases ((first_reply (drop 1 w.replies)).ret == 0)) [
      | inl last ↦
          rw last ([], received-none pipe 8192 (issue (put buf) w).1 last, rw (append-nil buf) refl)
      | inr next ↦
          let rest = mirror-Mirrored fuel pipe chunk r.1 (omega (arith, answered w.replies next)) in
          let got = received-some pipe 8192 (issue (put buf) w).1 next in
          rw next (
            chunk ++ rest.0,
            rest.1 ∙ ap (λ z. z ++ rest.0) got ∙ append_assoc (received pipe w.trace) chunk rest.0,
            rest.2 ∙ append_assoc (printed w.trace) buf (chunk ++ rest.0),
          )
    ]

-- `read_response` fails with 1 and reads nothing, or sends to stdout what it reads from the pipe, all
-- of it, in order and once.
pub read_response-mirrored :
    (pipe : ℕ) (w : World)
    → (let r = read_response pipe w in
        ((r.0 ≡ pos 1) × (received pipe r.1.trace ≡ received pipe w.trace))
        ⊎ ((out : Bytes) × (received pipe r.1.trace ≡ received pipe w.trace ++ out)
            × (printed r.1.trace ≡ printed w.trace ++ out)))
unfolding read_response issue Mirrored
read_response-mirrored pipe w =
    let w0 = (issue (connect_pipe pipe) w).1 in
    let r = issue (read_file pipe 8191) w0 in
    let chunk = take 8191 r.0.bytes in
    elim (Bool-cases ((first_reply (drop 1 w.replies)).ret == 0)) [
      | inl fails ↦
          rw fails
            (inl (refl, received-none pipe 8191 w0 fails ∙ append-nil (received pipe w.trace)))
      | inr reads ↦
          let m = mirror-Mirrored (length r.1.replies + 1) pipe chunk r.1 (omega arith) in
          let got = received-some pipe 8191 w0 reads in
          rw reads (
            inr (
              chunk ++ m.0,
              m.1 ∙ ap (λ z. z ++ m.0) got ∙ append_assoc (received pipe w.trace) chunk m.0,
              m.2,
            ))
    ]
