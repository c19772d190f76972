-- ===== src/Top/Filters/File/Lines.antt =====
-- `sscanf`, `strchr` and `strstr` take apart what was printed.
use yc_360_script.Prelude.{
  ℕ, ◌≡◌, ◌≢◌, refl, ◌∙◌, ap, false, [], ◌∷◌, ◌++◌, some, Bytes, codes, arith,
}
use yc_360_script.Prelude.Int.{pos}
use yc_360_script.CString.{after_strstr, atoi}
use yc_360_script.CString.Numbers.{decimal, signed_decimal}
use yc_360_script.CString.Decimal.{All, IsDigit, IsEnd, atoi-decimal, decimal-All, decimal-ne-nil}
use yc_360_script.Top.Filters.{Criterion, contains}
use yc_360_script.Top.Filters.File.{
  skip_digits, scan_text, scan_int, scan_window, scan_type, cut_newline, scan_filter, delim_2,
  includes, window_text, filter_text,
}

skip_digits-All : (s rest : Bytes) → All IsDigit s → IsEnd rest → skip_digits (s ++ rest) ≡ rest
skip_digits-All [] [] a h = refl
skip_digits-All [] (c ∷ rest) a h = rw h refl
skip_digits-All (c ∷ s) rest a h = ground (arith, a.0, skip_digits-All s rest a.1 h)

scan_int-digit :
    (d : ℕ) (s : Bytes) → IsDigit d → scan_int (d ∷ s) ≡ some (atoi (d ∷ s), skip_digits (d ∷ s))
unfolding scan_int
scan_int-digit d [] h = ground arith
scan_int-digit d (c ∷ s) h = ground arith

scan_int-digits :
    (t rest : Bytes)
    → t ≢ []
    → All IsDigit t
    → IsEnd rest
    → scan_int (t ++ rest) ≡ some (atoi (t ++ rest), rest)
scan_int-digits [] rest ne a h = absurd (ne refl)
scan_int-digits (d ∷ s) rest ne a h =
    scan_int-digit d (s ++ rest) a.0
    ∙ ap (λ r. some (atoi (d ∷ (s ++ rest)), r)) (skip_digits-All (d ∷ s) rest a h)

-- `%d` reads a number that `%d` printed.
scan_int-decimal :
    (n : ℕ) (rest : Bytes) → IsEnd rest → scan_int (decimal n ++ rest) ≡ some (pos n, rest)
scan_int-decimal n rest h =
    scan_int-digits (decimal n) rest (decimal-ne-nil n) (decimal-All n) h
    ∙ ap (λ z. some (z, rest)) (atoi-decimal n rest h)

pub scan_window-text : (i tot : ℕ) → scan_window (window_text i tot) ≡ some (pos i, pos tot)
unfolding scan_window scan_text
scan_window-text i tot =
    rw (scan_int-decimal i (codes ", osel_tot=" ++ (decimal tot ++ 10 ∷ [])) refl)
      (rw (scan_int-decimal tot (10 ∷ []) refl) refl)

-- A search goes past digits.
contains-digits :
    (s p rest : Bytes)
    → All IsDigit s
    → contains (λ c. c) (b'e' ∷ p) (s ++ rest) ≡ contains (λ c. c) (b'e' ∷ p) rest
contains-digits [] p rest a = refl
contains-digits (c ∷ s) p rest a = ground (arith, a.0, contains-digits s p rest a.1)

pub window_text-ends : (i tot : ℕ) → includes delim_2 (window_text i tot) ≡ false
window_text-ends i tot =
    contains-digits (decimal i)
      (codes "nd  : saved other filter data -------------------" ++ 10 ∷ [])
      (codes ", osel_tot=" ++ (decimal tot ++ 10 ∷ [])) (decimal-All i)
    ∙ contains-digits (decimal tot)
        (codes "nd  : saved other filter data -------------------" ++ 10 ∷ []) (10 ∷ [])
        (decimal-All tot)

cut_newline-All : (s : Bytes) → All (λ x. x ≢ 10) s → cut_newline (s ++ 10 ∷ []) ≡ s
cut_newline-All [] a = refl
cut_newline-All (c ∷ s) a = ground (arith, a.0, cut_newline-All s a.1)

cut_newline-digits :
    (s rest : Bytes) → All IsDigit s → cut_newline (s ++ rest) ≡ s ++ cut_newline rest
cut_newline-digits [] rest a = refl
cut_newline-digits (c ∷ s) rest a = ground (arith, a.0, cut_newline-digits s rest a.1)

after_strstr-digits :
    (s p rest : Bytes) (n : ℕ)
    → All IsDigit s
    → after_strstr (s ++ rest) (b'f' ∷ p) n ≡ after_strstr rest (b'f' ∷ p) n
unfolding after_strstr
after_strstr-digits [] p rest n a = refl
after_strstr-digits (c ∷ s) p rest n a = ground (arith, a.0, after_strstr-digits s p rest n a.1)

typed_text : ℕ → Bytes → Bytes
typed_text typ raw = 9 ∷ codes "type=" ++ decimal typ ++ (44 ∷ 9 ∷ codes "filter=" ++ raw)

scan_type-text : (typ : ℕ) (raw : Bytes) → scan_type (typed_text typ raw) ≡ some (pos typ)
unfolding scan_type scan_text typed_text
scan_type-text typ raw = rw (scan_int-decimal typ (44 ∷ 9 ∷ codes "filter=" ++ raw) refl) refl

cut_newline-text :
    (typ : ℕ) (raw : Bytes)
    → All (λ x. x ≢ 10) raw
    → cut_newline (typed_text typ (raw ++ 10 ∷ [])) ≡ typed_text typ raw
unfolding typed_text
cut_newline-text typ raw a =
    ap (λ z. 9 ∷ codes "type=" ++ z)
      (cut_newline-digits (decimal typ) (44 ∷ 9 ∷ codes "filter=" ++ (raw ++ 10 ∷ []))
          (decimal-All typ)
        ∙ ap (λ z. decimal typ ++ (44 ∷ 9 ∷ codes "filter=" ++ z)) (cut_newline-All raw a))

after_strstr-text :
    (typ : ℕ) (raw : Bytes) → after_strstr (typed_text typ raw) (codes "filter=") 7 ≡ some raw
unfolding typed_text after_strstr
after_strstr-text typ raw =
    after_strstr-digits (decimal typ) (codes "ilter=") (44 ∷ 9 ∷ codes "filter=" ++ raw) 7
      (decimal-All typ)

pub scan_filter-text :
    (typ : ℕ) (c : Criterion)
    → c.typ ≡ pos typ
    → All (λ x. x ≢ 10) c.raw
    → scan_filter (filter_text c) ≡ some (pos typ, c.raw)
unfolding scan_filter typed_text signed_decimal
scan_filter-text typ c e a =
    rw
      (
        e,
        scan_type-text typ (c.raw ++ 10 ∷ []),
        cut_newline-text typ c.raw a,
        after_strstr-text typ c.raw,
      )
      refl
