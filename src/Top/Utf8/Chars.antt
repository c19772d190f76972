-- ===== src/Top/Utf8/Chars.antt =====
-- A text that is whole characters, and what each loop does at one of them.
use yc_360_script.Prelude.{
  ℕ, suc, ◌+◌, ◌≤◌, ◌<◌, ◌≡◌, refl, sym, ap, ◌∙◌, Bool, true, false, ◌&&◌, List, [], ◌∷◌, ◌++◌,
  Option, none, some, ltb, if◌then◌else◌, Bytes, length, take, drop, length-append, arith,
}
use yc_360_script.Top.Utf8.{
  utf8_tab, Wcwidth, or_one, utf8_cols, delta_from, embody_from, proper_from,
}

pub data IsChar : Bytes → Type 0 where
  char : (c : ℕ) (r : Bytes) → utf8_tab c ≡ some (suc (length r)) → IsChar (c ∷ r)

abbrev pub AllChars : List Bytes → Type 0
AllChars [] = Unit
AllChars (b ∷ bs) = IsChar b × AllChars bs

abbrev pub glued : List Bytes → Bytes
glued [] = []
glued (b ∷ bs) = b ++ glued bs

-- The columns of a character, and of several ones.
abbrev pub cols : Wcwidth → Bytes → ℕ
cols wcwidth b = utf8_cols wcwidth b (length b)

abbrev pub total_cols : Wcwidth → List Bytes → ℕ
total_cols wcwidth [] = 0
total_cols wcwidth (b ∷ bs) = cols wcwidth b + total_cols wcwidth bs

-- `wcwidth` is at most 2.
abbrev pub IsNarrow : Wcwidth → Type 0
IsNarrow wcwidth = (b : Bytes) (w : ℕ) → wcwidth b ≡ some w → w ≤ 2

drop-glued : (b t : Bytes) → drop (length b) (b ++ t) ≡ t
drop-glued [] t = refl
drop-glued (c ∷ b) t = drop-glued b t

take-glued : (b t : Bytes) → take (length b) (b ++ t) ≡ b
take-glued [] t = refl
take-glued (c ∷ b) t = ap (◌∷◌ c) (take-glued b t)

take_all-glued : (b : Bytes) → take (length b) b ≡ b
take_all-glued [] = refl
take_all-glued (c ∷ b) = ap (◌∷◌ c) (take_all-glued b)

cols-glued :
    (wcwidth : Wcwidth) (b t : Bytes) → utf8_cols wcwidth (b ++ t) (length b) ≡ cols wcwidth b
unfolding utf8_cols
cols-glued wcwidth b t =
    ap (λ z. if ltb 1 (length b) then or_one (wcwidth z) else length b)
      (take-glued b t ∙ sym (take_all-glued b))

pub length-char : (b : Bytes) → IsChar b → 0 < length b
length-char [] x = elim x [ ]
length-char (c ∷ r) _ = omega arith

or_one-le : (o : Option ℕ) → ((w : ℕ) → o ≡ some w → w ≤ 2) → or_one o ≤ 2
or_one-le none h = omega arith
or_one-le (some w) h = h w refl

cols-le : (wcwidth : Wcwidth) → IsNarrow wcwidth → (b : Bytes) → cols wcwidth b ≤ length b
unfolding utf8_cols
cols-le wcwidth narrow b =
    let few = or_one-le (wcwidth (take (length b) b)) (narrow (take (length b) b)) in
    ground (arith, few)

pub total_cols-le :
    (wcwidth : Wcwidth)
    → IsNarrow wcwidth
    → (bs : List Bytes) → total_cols wcwidth bs ≤ length (glued bs)
total_cols-le wcwidth narrow [] = omega arith
total_cols-le wcwidth narrow (b ∷ bs) =
    omega
      (arith, length-append b (glued bs), cols-le wcwidth narrow b, total_cols-le wcwidth narrow bs)

pub length-glued : (bs : List Bytes) → AllChars bs → length bs ≤ length (glued bs)
length-glued [] all = omega arith
length-glued (b ∷ bs) (ch, all) =
    omega (arith, length-append b (glued bs), length-char b ch, length-glued bs all)

no_overrun : (r t : Bytes) → ltb (suc (length (r ++ t))) (suc (length r)) ≡ false
no_overrun r t = ground (arith, length-append r t)

pub delta_from-char :
    (wcwidth : Wcwidth) (fuel : ℕ) (b t : Bytes) (passed cnum : ℕ)
    → IsChar b
    → delta_from wcwidth (suc fuel) (b ++ t) passed cnum
      ≡ delta_from wcwidth fuel t (passed + length b) (cnum + cols wcwidth b)
unfolding delta_from
delta_from-char wcwidth fuel [] t passed cnum x = elim x [ ]
delta_from-char wcwidth fuel (c ∷ r) t passed cnum (char _ _ e) =
    rw (delta_from, e)
      (rw (delta_from, no_overrun r t)
        (rw (drop-glued r t) (
          ap (λ n. delta_from wcwidth fuel t (passed + suc (length r)) (cnum + n))
            (cols-glued wcwidth (c ∷ r) t))))

pub embody_from_stops :
    (wcwidth : Wcwidth) (width fuel : ℕ) (b t : Bytes) (passed cnum : ℕ)
    → IsChar b
    → ltb width (cnum + cols wcwidth b) ≡ true
    → embody_from wcwidth width (suc fuel) (b ++ t) passed cnum ≡ some passed
unfolding embody_from
embody_from_stops wcwidth width fuel [] t passed cnum x full = elim x [ ]
embody_from_stops wcwidth width fuel (c ∷ r) t passed cnum (char _ _ e) full =
    rw (embody_from, e) (rw (cols-glued wcwidth (c ∷ r) t) (rw (embody_from, full) refl))

pub embody_from_goes :
    (wcwidth : Wcwidth) (width fuel : ℕ) (b t : Bytes) (passed cnum : ℕ)
    → IsChar b
    → ltb width (cnum + cols wcwidth b) ≡ false
    → embody_from wcwidth width (suc fuel) (b ++ t) passed cnum
      ≡ embody_from wcwidth width fuel t (passed + length b) (cnum + cols wcwidth b)
unfolding embody_from
embody_from_goes wcwidth width fuel [] t passed cnum x room = elim x [ ]
embody_from_goes wcwidth width fuel (c ∷ r) t passed cnum (char _ _ e) room =
    rw (embody_from, e)
      (rw (cols-glued wcwidth (c ∷ r) t) (
        rw (embody_from, room)
          (rw (embody_from, no_overrun r t)
            (rw (drop-glued r t) (
              ap (λ n. embody_from wcwidth width fuel t (passed + suc (length r)) (cnum + n))
                (cols-glued wcwidth (c ∷ r) t))))))

and_false : (b : Bool) → (b && false) ≡ false
and_false true = refl
and_false false = refl

pub physical_stops :
    (col fuel : ℕ) (b t : Bytes) (tlen cnum : ℕ)
    → IsChar b
    → ltb col (cnum + 1) ≡ true
    → proper_from true col (suc fuel) (b ++ t) tlen cnum ≡ some tlen
unfolding proper_from
physical_stops col fuel [] t tlen cnum x last = elim x [ ]
physical_stops col fuel (c ∷ r) t tlen cnum (char _ _ e) last =
    rw (proper_from, e) (rw (proper_from, last) refl)

pub physical_goes :
    (col fuel : ℕ) (b t : Bytes) (tlen cnum : ℕ)
    → IsChar b
    → ltb col (cnum + 1) ≡ false
    → proper_from true col (suc fuel) (b ++ t) tlen cnum
      ≡ proper_from true col fuel t (tlen + length b) (cnum + 1)
unfolding proper_from
physical_goes col fuel [] t tlen cnum x more = elim x [ ]
physical_goes col fuel (c ∷ r) t tlen cnum (char _ _ e) more =
    rw (proper_from, e)
      (rw (proper_from, more)
        (rw (proper_from, and_false (ltb col (tlen + suc (length r))))
          (rw (proper_from, no_overrun r t) (rw (drop-glued r t) refl))))

pub logical_stops :
    (col fuel : ℕ) (b t : Bytes) (tlen cnum : ℕ)
    → IsChar b
    → ltb col (tlen + length b) ≡ true
    → proper_from false col (suc fuel) (b ++ t) tlen cnum ≡ some cnum
unfolding proper_from
logical_stops col fuel [] t tlen cnum x last = elim x [ ]
logical_stops col fuel (c ∷ r) t tlen cnum (char _ _ e) last =
    rw (proper_from, e)
      (rw (proper_from, and_false (ltb col (cnum + 1))) (rw (proper_from, last) refl))

pub logical_goes :
    (col fuel : ℕ) (b t : Bytes) (tlen cnum : ℕ)
    → IsChar b
    → ltb col (tlen + length b) ≡ false
    → proper_from false col (suc fuel) (b ++ t) tlen cnum
      ≡ proper_from false col fuel t (tlen + length b) (cnum + 1)
unfolding proper_from
logical_goes col fuel [] t tlen cnum x more = elim x [ ]
logical_goes col fuel (c ∷ r) t tlen cnum (char _ _ e) more =
    rw (proper_from, e)
      (rw (proper_from, and_false (ltb col (cnum + 1)))
        (rw (proper_from, more) (rw (proper_from, no_overrun r t) (rw (drop-glued r t) refl))))
