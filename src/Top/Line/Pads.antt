-- ===== src/Top/Line/Pads.antt =====
-- A text with zeros behind it.
use yc_360_script.Prelude.{
  ℕ, zero, suc, ◌+◌, ◌-◌, ◌≤◌, ◌≡◌, refl, ◌∙◌, ap, [], ◌∷◌, ◌++◌, Bytes, length, take, drop, arith,
}
use yc_360_script.Top.Line.{zeros}

pub take-within : (k : ℕ) (t z : Bytes) → k ≤ length t → take k (t ++ z) ≡ take k t
take-within zero t z h = refl
take-within (suc k) [] z h = absurd (omega arith)
take-within (suc k) (x ∷ t) z h = ap (◌∷◌ x) (take-within k t z (omega arith))

pub drop-within : (k : ℕ) (t z : Bytes) → k ≤ length t → drop k (t ++ z) ≡ drop k t ++ z
drop-within zero t z h = refl
drop-within (suc k) [] z h = absurd (omega arith)
drop-within (suc k) (x ∷ t) z h = drop-within k t z (omega arith)

pub take-beyond : (t z : Bytes) (k : ℕ) → take (length t + k) (t ++ z) ≡ t ++ take k z
take-beyond [] z k = ap (λ n. take n z) (omega arith)
take-beyond (x ∷ t) z k =
    let e : suc (length t) + k ≡ suc (length t + k) = omega arith in
    rw e (ap (◌∷◌ x) (take-beyond t z k))

pub drop-beyond : (t z : Bytes) (k : ℕ) → drop (length t + k) (t ++ z) ≡ drop k z
drop-beyond [] z k = ap (λ n. drop n z) (omega arith)
drop-beyond (x ∷ t) z k =
    let e : suc (length t) + k ≡ suc (length t + k) = omega arith in rw e (drop-beyond t z k)

pub take-zeros : (k m : ℕ) → k ≤ m → take k (zeros m) ≡ zeros k
take-zeros zero m h = refl
take-zeros (suc k) zero h = absurd (omega arith)
take-zeros (suc k) (suc m) h = ap (◌∷◌ 0) (take-zeros k m (omega arith))

pub drop-zeros : (k m : ℕ) → drop k (zeros m) ≡ zeros (m - k)
drop-zeros zero m = ap zeros (omega arith)
drop-zeros (suc k) zero = let e : 0 - suc k ≡ 0 = omega arith in rw e refl
drop-zeros (suc k) (suc m) = drop-zeros k m ∙ ap zeros (omega arith)

pub length-zeros : (n : ℕ) → length (zeros n) ≡ n
length-zeros zero = refl
length-zeros (suc n) = ap suc (length-zeros n)

pub zeros-append : (a b : ℕ) → zeros a ++ zeros b ≡ zeros (a + b)
zeros-append zero b = ap zeros (omega arith)
zeros-append (suc a) b =
    let e : suc a + b ≡ suc (a + b) = omega arith in rw e (ap (◌∷◌ 0) (zeros-append a b))

abbrev pub padded : Bytes → Bytes
padded t = t ++ zeros (257 - length t)

-- A piece of the padded text, and zeros from a place behind it on.
pub take-padded :
    (t : Bytes) (k : ℕ) → length t ≤ k → k ≤ 257 → take k (padded t) ≡ t ++ zeros (k - length t)
take-padded t k h m =
    let e : k ≡ length t + (k - length t) = omega arith in
    ap (λ n. take n (padded t)) e
    ∙ take-beyond t (zeros (257 - length t)) (k - length t)
    ∙ ap (λ z. t ++ z) (take-zeros (k - length t) (257 - length t) (omega arith))

pub drop-padded : (t : Bytes) (k : ℕ) → length t ≤ k → drop k (padded t) ≡ zeros (257 - k)
drop-padded t k h =
    let e : k ≡ length t + (k - length t) = omega arith in
    ap (λ n. drop n (padded t)) e
    ∙ drop-beyond t (zeros (257 - length t)) (k - length t)
    ∙ drop-zeros (k - length t) (257 - length t)
    ∙ ap zeros (omega arith)
