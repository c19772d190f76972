-- ===== src/Top/Line/Buffer.antt =====
-- The buffer as a text and zeros: what the two moves do to the text.
use yc_360_script.Prelude.{
  ℕ, zero, suc, ◌+◌, ◌-◌, ◌≤◌, ◌<◌, ◌≡◌, refl, sym, ◌∙◌, ap, [], ◌∷◌, ◌++◌, append_assoc, Bytes,
  length, take, drop, length-append, length-take, length-drop, take_all, arith,
}
use yc_360_script.Top.Line.{zeros, store, squeeze, expand}
use yc_360_script.Top.Line.Pads.{
  take-within, drop-within, take-beyond, drop-beyond, take-zeros, length-zeros, zeros-append,
  padded, take-padded, drop-padded,
}

abbrev pub delete_at : ℕ → Bytes → Bytes
delete_at pos t = take pos t ++ drop (pos + 1) t

abbrev pub insert_at : ℕ → ℕ → Bytes → Bytes
insert_at pos c t = take pos t ++ c ∷ drop pos t

-- At the end of the text it appends.
abbrev pub replace_at : ℕ → ℕ → Bytes → Bytes
replace_at pos c t = take pos t ++ c ∷ drop (pos + 1) t

store_end : (t : Bytes) → length t ≤ 256 → store 256 0 (padded t) ≡ padded t
store_end t h =
    let front = take-padded t 256 h (omega arith) in
    let back = drop-padded t 257 (omega arith) in
    let one : zeros (256 - length t) ++ 0 ∷ [] ≡ zeros (257 - length t) =
      zeros-append (256 - length t) 1 ∙ ap zeros (omega arith) in
    rw (front, back) (append_assoc t (zeros (256 - length t)) (0 ∷ []) ∙ ap (λ z. t ++ z) one)

-- The zeros behind two pieces.
join :
    (a b : Bytes) (k m : ℕ)
    → length a + length b + k + m ≡ 257
    → a ++ ((b ++ zeros k) ++ zeros m) ≡ padded (a ++ b)
join a b k m e =
    let z : zeros k ++ zeros m ≡ zeros (257 - length (a ++ b)) =
      zeros-append k m ∙ ap zeros (omega (arith, length-append a b)) in
    ap (λ x. a ++ x) (append_assoc b (zeros k) (zeros m) ∙ ap (λ x. b ++ x) z)
    ∙ sym (append_assoc a b (zeros (257 - length (a ++ b))))

-- The rest of the padded text from a place inside of it.
rest-padded :
    (t : Bytes) (pos n : ℕ)
    → pos ≤ length t
    → length t - pos ≤ n
    → n ≤ 257 - pos
    → take n (drop pos (padded t)) ≡ drop pos t ++ zeros (n - (length t - pos))
rest-padded t pos n h k m =
    let e : n ≡ length (drop pos t) + (n - (length t - pos)) = omega (arith, length-drop pos t) in
    ap (take n) (drop-within pos t (zeros (257 - length t)) h)
    ∙ ap (λ i. take i (drop pos t ++ zeros (257 - length t))) e
    ∙ take-beyond (drop pos t) (zeros (257 - length t)) (n - (length t - pos))
    ∙ ap (λ z. drop pos t ++ z)
        (take-zeros (n - (length t - pos)) (257 - length t) (omega (arith, length-drop pos t)))

pub squeeze_inside :
    (t : Bytes) (pos : ℕ)
    → pos < length t
    → length t ≤ 254
    → squeeze pos (padded t) ≡ padded (delete_at pos t)
unfolding squeeze
squeeze_inside t pos h m =
    let front = take-within pos t (zeros (257 - length t)) (omega arith) in
    let middle = rest-padded t (pos + 1) (255 - pos) (omega arith) (omega arith) (omega arith) in
    let back = drop-padded t 255 (omega arith) in
    let whole =
      join (take pos t) (drop (pos + 1) t) (255 - pos - (length t - (pos + 1))) 2
        (omega (arith, length-take pos t, length-drop (pos + 1) t)) in
    rw (front, middle, back)
      (ap (store 256 0) whole
        ∙ store_end (delete_at pos t) (
            omega (
              arith,
              length-append (take pos t) (drop (pos + 1) t),
              length-take pos t,
              length-drop (pos + 1) t,
            )))

-- The zeros behind the end of the text.
rest_end :
    (t : Bytes) (n : ℕ)
    → length t + n ≤ 257
    → (k : ℕ) → length t + k + n ≤ 257
    → take n (drop (length t + k) (padded t)) ≡ zeros n
rest_end t n h k m =
    ap (take n) (drop-padded t (length t + k) (omega arith))
    ∙ take-zeros n (257 - (length t + k)) (omega arith)

take-whole : (t z : Bytes) → take (length t) (t ++ z) ≡ t
take-whole t z = take-within (length t) t z (omega arith) ∙ take_all (length t) t (omega arith)

-- At the end of the text there is nothing to delete.
pub squeeze_end : (t : Bytes) → length t ≤ 254 → squeeze (length t) (padded t) ≡ padded t
unfolding squeeze
squeeze_end t m =
    let front = take-whole t (zeros (257 - length t)) in
    let middle = rest_end t (255 - length t) (omega arith) 1 (omega arith) in
    let back = drop-padded t 255 (omega arith) in
    let whole : zeros (255 - length t) ++ zeros 2 ≡ zeros (257 - length t) =
      zeros-append (255 - length t) 2 ∙ ap zeros (omega arith) in
    rw (front, middle, back) (ap (λ z. store 256 0 (t ++ z)) whole ∙ store_end t (omega arith))

-- Two pieces with a byte between them, and zeros.
cons-join :
    (a b : Bytes) (c k : ℕ)
    → length a + length b + k ≡ 256
    → a ++ c ∷ (b ++ zeros k) ≡ padded (a ++ c ∷ b)
cons-join a b c k e =
    let n : k ≡ 257 - length (a ++ c ∷ b) = omega (arith, length-append a (c ∷ b)) in
    ap (λ i. a ++ c ∷ (b ++ zeros i)) n
    ∙ sym (append_assoc a (c ∷ b) (zeros (257 - length (a ++ c ∷ b))))

pub store_inside :
    (t : Bytes) (pos c : ℕ)
    → pos < length t
    → length t ≤ 254
    → store pos c (padded t) ≡ padded (replace_at pos c t)
store_inside t pos c h m =
    let front = take-within pos t (zeros (257 - length t)) (omega arith) in
    let back = drop-within (pos + 1) t (zeros (257 - length t)) (omega arith) in
    rw (front, back)
      (cons-join (take pos t) (drop (pos + 1) t) c (257 - length t)
        (omega (arith, length-take pos t, length-drop (pos + 1) t)))

pub store_behind :
    (t : Bytes) (c : ℕ) → length t ≤ 254 → store (length t) c (padded t) ≡ padded (t ++ c ∷ [])
store_behind t c h =
    let front = take-whole t (zeros (257 - length t)) in
    let back = drop-padded t (length t + 1) (omega arith) in
    rw (front, back) (cons-join t [] c (257 - (length t + 1)) (omega arith))

take-take : (k : ℕ) (xs : Bytes) → take k (take (k + 1) xs) ≡ take k xs
take-take zero xs = refl
take-take (suc k) [] = let e : suc k + 1 ≡ suc (k + 1) = omega arith in rw e refl
take-take (suc k) (x ∷ xs) =
    let e : suc k + 1 ≡ suc (k + 1) = omega arith in rw e (ap (◌∷◌ x) (take-take k xs))

length-padded : (t : Bytes) → length t ≤ 257 → length (padded t) ≡ 257
length-padded t h =
    omega (arith, length-append t (zeros (257 - length t)), length-zeros (257 - length t))

-- The pieces in front of a place and behind the next, of an append whose first part ends there.
store_at_end :
    (a z : Bytes) (pos c : ℕ) → length a ≡ pos + 1 → store pos c (a ++ z) ≡ take pos a ++ c ∷ z
store_at_end a z pos c e =
    let front = take-within pos a z (omega (arith, e)) in
    let at_length : pos + 1 ≡ length a + 0 = omega (arith, e) in
    let back : drop (pos + 1) (a ++ z) ≡ z =
      ap (λ n. drop n (a ++ z)) at_length ∙ drop-beyond a z 0 in
    rw (front, back) refl

pub expand-padded :
    (t : Bytes) (pos : ℕ)
    → pos ≤ length t
    → length t ≤ 253
    → expand pos (padded t) ≡ padded (insert_at pos b' ' t)
unfolding expand
expand-padded t pos h m =
    let front : take pos (take (pos + 1) (padded t)) ≡ take pos t =
      take-take pos (padded t) ∙ take-within pos t (zeros (257 - length t)) h in
    let middle = rest-padded t pos (255 - pos) h (omega arith) (omega arith) in
    let back = drop-padded t 256 (omega arith) in
    let k = 255 - pos - (length t - pos) in
    let at_end =
      store_at_end (take (pos + 1) (padded t))
        (take (255 - pos) (drop pos (padded t)) ++ drop 256 (padded t)) pos b' '
        (omega (arith, length-take (pos + 1) (padded t), length-padded t (omega arith))) in
    let zeros_in : (drop pos t ++ zeros k) ++ zeros 1 ≡ drop pos t ++ zeros (k + 1) =
      append_assoc (drop pos t) (zeros k) (zeros 1)
      ∙ ap (λ z. drop pos t ++ z) (zeros-append k 1) in
    at_end
    ∙ rw (front, middle, back, zeros_in)
        (cons-join (take pos t) (drop pos t) b' ' (k + 1)
          (omega (arith, length-take pos t, length-drop pos t)))
