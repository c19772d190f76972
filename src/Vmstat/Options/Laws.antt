-- ===== src/Vmstat/Options/Laws.antt =====
-- What every accepted command line guarantees to the reports.
use yc_360_script.Prelude.{
  ℕ, ◌^◌, ◌<◌, ◌≡◌, refl, ◌⊎◌, inl, inr, Bool-cases, false, List, [], ◌∷◌, Option, Bytes, arith,
}
use yc_360_script.Prelude.Int.{ℤ, pos, negsuc}
use yc_360_script.Vmstat.Words.{u64}
use yc_360_script.Vmstat.Options.{
  Settings, initial, Opt, version, unit, Result, go, exit, unit_size, apply_option, apply_options,
  strtol_or_err, set_delay, refuse_more, apply_operands, set_height, configure, ◌>>=◌,
}

-- The divisors of the reports are positive, and the counters fit their types.
pub record IsReady (s : Settings) : Type 0 where
  pub unit_positive : 0 < s.data_unit
  pub delay_positive : 0 < s.sleep_time
  pub delay_fits : s.sleep_time < 2 ^ 32
  pub count_fits : s.num_updates < 2 ^ 64

abbrev Ensures : (Settings → Type 0) → Result Settings → Type 0
Ensures P (go s) = P s
Ensures P (exit e) = Unit

Ensures-bind :
    (P Q : Settings → Type 0) (r : Result Settings) (f : Settings → Result Settings)
    → Ensures P r
    → ((s : Settings) → P s → Ensures Q (f s))
    → Ensures Q (r >>= f)
Ensures-bind P Q (go s) f h k = k s h
Ensures-bind P Q (exit e) f h k = tt

apply_option-IsReady : (s : Settings) (o : Opt) → IsReady s → Ensures IsReady (apply_option s o)
unfolding apply_option unit_size
apply_option-IsReady s version h = tt
apply_option-IsReady s (unit arg) h = ground arith
apply_option-IsReady s _ h = ground arith

apply_options-IsReady :
    (os : List Opt) (s : Settings) → IsReady s → Ensures IsReady (apply_options s os)
unfolding apply_options
apply_options-IsReady [] s h = h
apply_options-IsReady (o ∷ os) s h =
    Ensures-bind IsReady IsReady (apply_option s o) (λ s'. apply_options s' os)
      (apply_option-IsReady s o h) (apply_options-IsReady os)

u64-lt : (z : ℤ) → u64 z < 2 ^ 64
u64-lt (pos n) = omega arith
u64-lt (negsuc n) = omega arith

set_delay-IsReady : (s : Settings) (d : ℤ) → IsReady s → Ensures IsReady (set_delay s d)
set_delay-IsReady s (negsuc n) h = tt
set_delay-IsReady s (pos n) h = ground arith

counted :
    (s : Settings) (n : ℤ) (rest : List Bytes)
    → IsReady s
    → Ensures IsReady
        (refuse_more (record s { num_updates = u64 n; infinite_updates = false }) rest)
counted s n [] h = record {
  unit_positive = h.unit_positive;
  delay_positive = h.delay_positive;
  delay_fits = h.delay_fits;
  count_fits = u64-lt n;
}
counted s n (x ∷ xs) h = tt

bind-number :
    (r : Result ℤ) (f : ℤ → Result Settings)
    → ((n : ℤ) → Ensures IsReady (f n))
    → Ensures IsReady (r >>= f)
bind-number (go n) f k = k n
bind-number (exit e) f k = tt

apply_operands-IsReady :
    (s : Settings) (ops : List Bytes) → IsReady s → Ensures IsReady (apply_operands s ops)
unfolding apply_operands
apply_operands-IsReady s [] h = omega (arith, h)
apply_operands-IsReady s (d ∷ []) h =
    bind-number (strtol_or_err d) (set_delay s) (λ n. set_delay-IsReady s n h)
apply_operands-IsReady s (d ∷ c ∷ rest) h = bind-number (strtol_or_err d) _ (λ n.
    Ensures-bind IsReady IsReady (set_delay s n) _ (set_delay-IsReady s n h)
      (λ s' h'. bind-number (strtol_or_err c) _ (λ m. counted s' m rest h')))

abbrev IsPrepared : Settings → Type 0
IsPrepared s = IsReady s × ((s.moreheaders ≡ false) ⊎ (0 < s.height))

set_height-IsPrepared :
    (s : Settings) (rows : Option ℕ) → IsReady s → IsPrepared (set_height s rows)
unfolding set_height
set_height-IsPrepared s rows h = elim (Bool-cases s.moreheaders) [
  | inl more ↦ rw more (ground arith, inr (ground arith))
  | inr once ↦ rw once (ground arith, inl refl)
]

of_Ensures :
    (P : Settings → Type 0) (r : Result Settings) (s : Settings) → r ≡ go s → Ensures P r → P s
of_Ensures P (go t) s e h = let q : t ≡ s = cc in rw (← q) h
of_Ensures P (exit x) s e h = cc

initial-IsReady : IsReady initial
initial-IsReady = omega arith

-- Whatever the options, operands and window are, an accepted command line leaves a positive unit and
-- a positive delay that fits an unsigned int, a count that fits an unsigned long, and a positive
-- window height wherever headers are repeated: no report divides by zero.
pub configure-IsReady :
    (opts : List Opt) (operands : List Bytes) (rows : Option ℕ) (s : Settings)
    → configure opts operands rows ≡ go s
    → IsReady s × ((s.moreheaders ≡ false) ⊎ (0 < s.height))
unfolding configure
configure-IsReady opts operands rows s e =
    of_Ensures IsPrepared (configure opts operands rows) s e (
      Ensures-bind IsReady IsPrepared (apply_options initial opts) _
        (apply_options-IsReady opts initial initial-IsReady)
        (λ t h.
          Ensures-bind IsReady IsPrepared (apply_operands t operands) _
            (apply_operands-IsReady t operands h) (λ t' h'. set_height-IsPrepared t' rows h')))
