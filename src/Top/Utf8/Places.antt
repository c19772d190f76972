-- ===== src/Top/Utf8/Places.antt =====
-- A column of a text of whole characters and the byte at which it begins.
use yc_360_script.Prelude.{
  ℕ, zero, suc, ◌+◌, ◌-◌, ◌≤◌, ◌≡◌, refl, ap, ◌∙◌, true, false, List, [], ◌∷◌, some, ltb, Bytes,
  length, take, length-append, Bool-cases, inl, inr, arith,
}
use yc_360_script.Top.Utf8.{proper_from, utf8_proper_col}
use yc_360_script.Top.Utf8.Chars.{
  AllChars, glued, length-char, length-glued, physical_stops, physical_goes, logical_stops,
  logical_goes,
}

take-empty : (n : ℕ) → take {A = Bytes} n [] ≡ []
take-empty zero = refl
take-empty (suc n) = refl

physical :
    (col fuel : ℕ) (bs : List Bytes) (tlen cnum : ℕ)
    → AllChars bs
    → length bs ≤ fuel
    → cnum ≤ col
    → proper_from true col fuel (glued bs) tlen cnum
      ≡ some (tlen + length (glued (take (col - cnum) bs)))
unfolding proper_from
physical col fuel [] tlen cnum all enough h =
    ap some (omega (arith, ap length (ap glued (take-empty (col - cnum)))))
physical col zero (b ∷ bs) tlen cnum all enough h = absurd (omega (arith, enough))
physical col (suc fuel) (b ∷ bs) tlen cnum (ch, all) enough h =
    elim (Bool-cases (ltb col (cnum + 1))) [
      | inl last ↦
          let done : col - cnum ≡ 0 = ground (arith, last) in
          physical_stops col fuel b (glued bs) tlen cnum ch last
          ∙ ap some (omega (arith, ap (λ n. length (glued (take n (b ∷ bs)))) done))
      | inr more ↦
          let next : col - cnum ≡ suc (col - (cnum + 1)) = ground (arith, more) in
          let inside : cnum + 1 ≤ col = ground (arith, more) in
          let size =
            ap (λ n. length (glued (take n (b ∷ bs)))) next
            ∙ length-append b (glued (take (col - (cnum + 1)) bs)) in
          physical_goes col fuel b (glued bs) tlen cnum ch more
          ∙ physical col fuel bs (tlen + length b) (cnum + 1) all (omega (arith, enough)) inside
          ∙ ap some (omega (arith, size))
    ]

logical :
    (col fuel m : ℕ) (bs : List Bytes) (tlen cnum : ℕ)
    → AllChars bs
    → length bs ≤ fuel
    → m ≤ length bs
    → col ≡ tlen + length (glued (take m bs))
    → proper_from false col fuel (glued bs) tlen cnum ≡ some (cnum + m)
unfolding proper_from
logical col fuel m [] tlen cnum all enough h e = ap some (omega arith)
logical col zero m (b ∷ bs) tlen cnum all enough h e = absurd (omega (arith, enough))
logical col (suc fuel) zero (b ∷ bs) tlen cnum (ch, all) enough h e =
    let last : ltb col (tlen + length b) ≡ true = ground (arith, e, length-char b ch) in
    logical_stops col fuel b (glued bs) tlen cnum ch last ∙ ap some (omega arith)
logical col (suc fuel) (suc m) (b ∷ bs) tlen cnum (ch, all) enough h e =
    let size = length-append b (glued (take m bs)) in
    let more : ltb col (tlen + length b) ≡ false = ground (arith, e, size) in
    logical_goes col fuel b (glued bs) tlen cnum ch more
    ∙ logical col fuel m bs (tlen + length b) (cnum + 1) all (omega (arith, enough))
        (omega (arith, h)) (omega (arith, e, size))
    ∙ ap some (omega arith)

-- In a text of whole characters, for a column up to its end, counted in characters, utf8_proper_col
-- gives the number of bytes that the characters before it take, and for that number of bytes it gives
-- the column back.
pub utf8_proper_col_back :
    (bs : List Bytes) (col : ℕ)
    → AllChars bs
    → col ≤ length bs
    → (utf8_proper_col (glued bs) col true ≡ some (length (glued (take col bs))))
      × (utf8_proper_col (glued bs) (length (glued (take col bs))) false ≡ some col)
unfolding utf8_proper_col
utf8_proper_col_back bs col all h =
    let enough = length-glued bs all in
    let bytes = length (glued (take col bs)) in
    let whole : col - 0 ≡ col = omega arith in
    (
      physical col (length (glued bs)) bs 0 0 all enough (omega arith)
          ∙ ap some (omega (arith, ap (λ n. length (glued (take n bs))) whole)),
      logical bytes (length (glued bs)) col bs 0 0 all enough h (omega arith)
          ∙ ap some (omega arith),
    )
