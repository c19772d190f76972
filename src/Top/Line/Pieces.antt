-- ===== src/Top/Line/Pieces.antt =====
-- Deletion, insertion and replacement in a text, and what the buffer's moves make of them.
use yc_360_script.Prelude.{
  ℕ, zero, suc, ◌+◌, ◌-◌, ◌≤◌, ◌<◌, ◌≡◌, refl, ◌∙◌, ap, false, [], ◌∷◌, ◌++◌, ◌==◌, ltb, Bytes,
  length, take, drop, length-append, length-take, length-drop, Bool-cases, inl, inr, arith,
}
use yc_360_script.Top.Line.{zeros, text_of, store, squeeze, expand}
use yc_360_script.Top.Line.Buffer.{
  delete_at, insert_at, replace_at, squeeze_inside, squeeze_end, store_inside, store_behind,
  expand-padded,
}
use yc_360_script.Top.Line.Pads.{padded}
use yc_360_script.Top.Line.Edit.{NoNul}

pub NoNul-take : (n : ℕ) (t : Bytes) → NoNul t → NoNul (take n t)
NoNul-take zero t h = tt
NoNul-take (suc n) [] h = tt
NoNul-take (suc n) (c ∷ t) h = (h.0, NoNul-take n t h.1)

pub NoNul-drop : (n : ℕ) (t : Bytes) → NoNul t → NoNul (drop n t)
NoNul-drop zero t h = h
NoNul-drop (suc n) [] h = tt
NoNul-drop (suc n) (c ∷ t) h = NoNul-drop n t h.1

pub NoNul-append : (t u : Bytes) → NoNul t → NoNul u → NoNul (t ++ u)
NoNul-append [] u h k = k
NoNul-append (c ∷ t) u h k = (h.0, NoNul-append t u h.1 k)

pub text_of-padded : (t : Bytes) → length t ≤ 256 → NoNul t → text_of (padded t) ≡ t
text_of-padded t h n = go t (257 - length t) (omega arith) n
  where
    go : (t : Bytes) (k : ℕ) → 0 < k → NoNul t → text_of (t ++ zeros k) ≡ t
    go [] zero h n = absurd (omega arith)
    go [] (suc k) h n = refl
    go (c ∷ t) k h n =
        let solid : (c == 0) ≡ false = ground (arith, n.0) in rw solid (ap (◌∷◌ c) (go t k h n.1))

pub delete_end : (t : Bytes) → delete_at (length t) t ≡ t
delete_end [] = refl
delete_end (c ∷ t) =
    let e : suc (length t) + 1 ≡ suc (length t + 1) = omega arith in
    rw e (ap (◌∷◌ c) (delete_end t))

pub replace_end : (c : ℕ) (t : Bytes) → replace_at (length t) c t ≡ t ++ c ∷ []
replace_end c [] = refl
replace_end c (d ∷ t) =
    let e : suc (length t) + 1 ≡ suc (length t + 1) = omega arith in
    rw e (ap (◌∷◌ d) (replace_end c t))

pub replace-insert :
    (pos b c : ℕ) (t : Bytes)
    → pos ≤ length t
    → replace_at pos c (insert_at pos b t) ≡ insert_at pos c t
replace-insert zero b c t h = refl
replace-insert (suc pos) b c [] h = absurd (omega arith)
replace-insert (suc pos) b c (d ∷ t) h =
    let e : suc pos + 1 ≡ suc (pos + 1) = omega arith in
    rw e (ap (◌∷◌ d) (replace-insert pos b c t (omega arith)))

pub squeeze-padded :
    (t : Bytes) (pos : ℕ)
    → pos ≤ length t
    → length t ≤ 254
    → squeeze pos (padded t) ≡ padded (delete_at pos t)
squeeze-padded t pos h m = elim (Bool-cases (ltb pos (length t))) [
  | inl inside ↦ squeeze_inside t pos (ground arith) m
  | inr behind ↦ let e : pos ≡ length t = ground arith in rw (e, delete_end t) (squeeze_end t m)
]

pub store-padded :
    (t : Bytes) (pos c : ℕ)
    → pos ≤ length t
    → length t ≤ 254
    → store pos c (padded t) ≡ padded (replace_at pos c t)
store-padded t pos c h m = elim (Bool-cases (ltb pos (length t))) [
  | inl inside ↦ store_inside t pos c (ground arith) m
  | inr behind ↦
      let e : pos ≡ length t = ground arith in rw (e, replace_end c t) (store_behind t c m)
]

pub length-insert_at :
    (pos c : ℕ) (t : Bytes) → pos ≤ length t → length (insert_at pos c t) ≡ length t + 1
length-insert_at pos c t h =
    omega (arith, length-append (take pos t) (c ∷ drop pos t), length-take pos t, length-drop pos t)

pub length-replace_at :
    (pos c : ℕ) (t : Bytes)
    → pos ≤ length t
    → (length (replace_at pos c t) ≤ length t + 1)
      × (pos < length (replace_at pos c t))
      × (pos < length t → length (replace_at pos c t) ≡ length t)
length-replace_at pos c t h =
    let parts = length-append (take pos t) (c ∷ drop (pos + 1) t) in
    let a = length-take pos t in
    let b = length-drop (pos + 1) t in
    (omega (arith, parts, a, b), omega (arith, parts, a, b), λ i. omega (arith, parts, a, b, i))

pub store-insert :
    (t : Bytes) (pos c : ℕ)
    → pos ≤ length t
    → length t ≤ 253
    → store pos c (expand pos (padded t)) ≡ padded (insert_at pos c t)
store-insert t pos c h m =
    let n = length-insert_at pos b' ' t h in
    rw (expand-padded t pos h m) (
      store-padded (insert_at pos b' ' t) pos c (omega (arith, n)) (omega (arith, n))
      ∙ ap padded (replace-insert pos b' ' c t h))
