-- ===== src/Top/Utf8/Kept.antt =====
-- The characters that fit a number of columns, which utf8_embody finds, and what utf8_delta counts.
use yc_360_script.Prelude.{
  ℕ, zero, suc, ◌+◌, ◌-◌, ◌≤◌, ◌≡◌, refl, ap, ◌∙◌, true, false, List, [], ◌∷◌, ◌++◌, some, ltb,
  ◌==◌, if◌then◌else◌, Bytes, length, take, length-append, Bool-cases, inl, inr, arith,
}
use yc_360_script.Top.Utf8.{Wcwidth, delta_from, utf8_delta, embody_from, utf8_embody}
use yc_360_script.Top.Utf8.Chars.{
  AllChars, glued, cols, total_cols, length-glued, delta_from-char, embody_from_stops,
  embody_from_goes,
}

-- The first characters that fit, and none where there is no room.
abbrev pub fitting : Wcwidth → ℕ → List Bytes → List Bytes
fitting wcwidth room [] = []
fitting wcwidth room (b ∷ bs) =
    if ltb room (cols wcwidth b) then [] else b ∷ fitting wcwidth (room - cols wcwidth b) bs

abbrev pub kept : Wcwidth → ℕ → List Bytes → List Bytes
kept wcwidth room bs = if room == 0 then [] else fitting wcwidth room bs

embody_from-fitting :
    (wcwidth : Wcwidth) (width fuel : ℕ) (bs : List Bytes) (passed cnum : ℕ)
    → AllChars bs
    → length bs ≤ fuel
    → cnum ≤ width
    → embody_from wcwidth width fuel (glued bs) passed cnum
      ≡ some (passed + length (glued (fitting wcwidth (width - cnum) bs)))
unfolding embody_from
embody_from-fitting wcwidth width fuel [] passed cnum all enough h = ap some (omega arith)
embody_from-fitting wcwidth width zero (b ∷ bs) passed cnum all enough h =
    absurd (omega (arith, enough))
embody_from-fitting wcwidth width (suc fuel) (b ∷ bs) passed cnum (ch, all) enough h =
    let k = cols wcwidth b in
    elim (Bool-cases (ltb width (cnum + k))) [
      | inl full ↦
          let full' : ltb (width - cnum) k ≡ true = ground (arith, full) in
          embody_from_stops wcwidth width fuel b (glued bs) passed cnum ch full
          ∙ simp full' (ap some (omega arith))
      | inr room ↦
          let room' : ltb (width - cnum) k ≡ false = ground (arith, room) in
          let inside : cnum + k ≤ width = ground (arith, room) in
          let rest : width - cnum - k ≡ width - (cnum + k) = omega arith in
          let size = length-append b (glued (fitting wcwidth (width - (cnum + k)) bs)) in
          embody_from_goes wcwidth width fuel b (glued bs) passed cnum ch room
          ∙ embody_from-fitting wcwidth width fuel bs (passed + length b) (cnum + k) all
              (omega (arith, enough)) inside
          ∙ simp (room', rest) (ap some (omega (arith, size)))
    ]

pub utf8_embody-kept :
    (wcwidth : Wcwidth) (bs : List Bytes) (width : ℕ)
    → AllChars bs
    → utf8_embody wcwidth (glued bs) width ≡ some (length (glued (kept wcwidth width bs)))
unfolding utf8_embody
utf8_embody-kept wcwidth bs width all = elim (Bool-cases (width == 0)) [
  | inl none' ↦ simp none' refl
  | inr some' ↦
      let whole : width - 0 ≡ width = omega arith in
      simp some' (
        embody_from-fitting wcwidth width (length (glued bs)) bs 0 0 all (length-glued bs all)
          (omega arith)
        ∙ ap some (omega (arith, ap (λ n. length (glued (fitting wcwidth n bs))) whole)))
]

take-both : (b x y : Bytes) → take (length (b ++ x)) (b ++ y) ≡ b ++ take (length x) y
take-both [] x y = refl
take-both (c ∷ b) x y = ap (◌∷◌ c) (take-both b x y)

take-fitting :
    (wcwidth : Wcwidth) (room : ℕ) (bs : List Bytes)
    → take (length (glued (fitting wcwidth room bs))) (glued bs) ≡ glued (fitting wcwidth room bs)
take-fitting wcwidth room [] = refl
take-fitting wcwidth room (b ∷ bs) = elim (Bool-cases (ltb room (cols wcwidth b))) [
  | inl full ↦ simp full refl
  | inr fits ↦ simp fits (
      take-both b (glued (fitting wcwidth (room - cols wcwidth b) bs)) (glued bs)
      ∙ ap (λ z. b ++ z) (take-fitting wcwidth (room - cols wcwidth b) bs))
]

pub take-kept :
    (wcwidth : Wcwidth) (room : ℕ) (bs : List Bytes)
    → take (length (glued (kept wcwidth room bs))) (glued bs) ≡ glued (kept wcwidth room bs)
take-kept wcwidth room bs = elim (Bool-cases (room == 0)) [
  | inl none' ↦ simp none' refl
  | inr some' ↦ simp some' (take-fitting wcwidth room bs)
]

fitting-All :
    (wcwidth : Wcwidth) (room : ℕ) (bs : List Bytes)
    → AllChars bs
    → AllChars (fitting wcwidth room bs)
      × (total_cols wcwidth (fitting wcwidth room bs) ≤ room)
      × (length (glued (fitting wcwidth room bs)) ≤ length (glued bs))
fitting-All wcwidth room [] all = (tt, omega arith, omega arith)
fitting-All wcwidth room (b ∷ bs) (ch, all) = elim (Bool-cases (ltb room (cols wcwidth b))) [
  | inl full ↦ simp full (tt, omega arith, omega arith)
  | inr fits ↦
      let room' = room - cols wcwidth b in
      let (a, few, short) = fitting-All wcwidth room' bs all in
      let inside : cols wcwidth b ≤ room = ground (arith, fits) in
      simp fits (
        (ch, a),
        omega (arith, few, inside),
        omega (
          arith,
          length-append b (glued bs),
          length-append b (glued (fitting wcwidth room' bs)),
          short,
        ),
      )
]

pub kept-All :
    (wcwidth : Wcwidth) (room : ℕ) (bs : List Bytes)
    → AllChars bs
    → AllChars (kept wcwidth room bs)
      × (total_cols wcwidth (kept wcwidth room bs) ≤ room)
      × (length (glued (kept wcwidth room bs)) ≤ length (glued bs))
kept-All wcwidth room bs all = elim (Bool-cases (room == 0)) [
  | inl none' ↦ simp none' (tt, omega arith, omega arith)
  | inr some' ↦ simp some' (fitting-All wcwidth room bs all)
]

delta_from-chars :
    (wcwidth : Wcwidth) (fuel : ℕ) (bs : List Bytes) (passed cnum : ℕ)
    → AllChars bs
    → length bs ≤ fuel
    → delta_from wcwidth fuel (glued bs) passed cnum
      ≡ some (passed + length (glued bs) - (cnum + total_cols wcwidth bs))
unfolding delta_from
delta_from-chars wcwidth fuel [] passed cnum all enough = ap some (omega arith)
delta_from-chars wcwidth zero (b ∷ bs) passed cnum all enough = absurd (omega (arith, enough))
delta_from-chars wcwidth (suc fuel) (b ∷ bs) passed cnum (ch, all) enough =
    delta_from-char wcwidth fuel b (glued bs) passed cnum ch
    ∙ delta_from-chars wcwidth fuel bs (passed + length b) (cnum + cols wcwidth b) all
        (omega (arith, enough))
    ∙ ap some (omega (arith, length-append b (glued bs)))

pub utf8_delta-chars :
    (wcwidth : Wcwidth) (bs : List Bytes)
    → AllChars bs
    → utf8_delta wcwidth (glued bs) ≡ some (length (glued bs) - total_cols wcwidth bs)
unfolding utf8_delta
utf8_delta-chars wcwidth bs all =
    delta_from-chars wcwidth (length (glued bs)) bs 0 0 all (length-glued bs all)
    ∙ ap some (omega arith)
