-- ===== src/Posix/Loop.antt =====
-- Loops whose rounds end by what the system answers. The fuel is the number of replies left and
-- one more; `forever-steady` shows that it is enough for every body that takes a reply in each
-- round, and stops when there are none.
use yc_360_script.Prelude.{
  ℕ, zero, suc, ◌<◌, ◌≡◌, refl, List, [], ◌∷◌, drop, length-drop, ◌≤◌, length, ◌⊎◌, inl, inr, arith,
}
use yc_360_script.Posix.{World, M, Call, Reply, issue, silence, first_reply}

pub data Next {ℓ κ} (S : Type ℓ) (A : Type κ) : Type (ℓ ⊔ κ) where
  again : S → Next S A
  stop : A → Next S A

module _ {ℓ κ} {S : Type ℓ} {A : Type κ} (out : S → A) (body : S → M (Next S A)) where
  -- `out` is the answer when the fuel is gone.
  unfoldable pub rounds : ℕ → S → M A
  rounds zero s w = (out s, w)
  rounds (suc f) s w = elim (body s w).0 [
    | again t ↦ rounds f t (body s w).1
    | stop a ↦ (a, (body s w).1)
  ]

  unfoldable pub forever : S → M A
  forever s w = rounds (suc (length w.replies)) s w

Next-cases {ℓ κ} :
    {S : Type ℓ} {A : Type κ} (n : Next S A) → ((t : S) × (n ≡ again t)) ⊎ ((a : A) × (n ≡ stop a))
Next-cases (again t) = inl (t, refl)
Next-cases (stop a) = inr (a, refl)

-- Every round that goes on has taken a reply.
abbrev pub Consumes {ℓ κ} : {S : Type ℓ} {A : Type κ} → (S → M (Next S A)) → Type (ℓ ⊔ κ)
Consumes {S = S} body =
    (s : S) (w : World) (t : S)
    → (body s w).0 ≡ again t
    → length (body s w).1.replies < length w.replies

module _ {ℓ κ} {S : Type ℓ} {A : Type κ} (out : S → A) (body : S → M (Next S A)) where
  -- Any two amounts of fuel above the number of replies give the same run.
  pub rounds-steady :
      Consumes body
      → (f g : ℕ) (s : S) (w : World) → length w.replies < f
      → length w.replies < g
      → rounds out body f s w ≡ rounds out body g s w
  unfolding rounds
  rounds-steady c zero g s w hf hg = absurd (omega arith)
  rounds-steady c (suc f) zero s w hf hg = absurd (omega arith)
  rounds-steady c (suc f) (suc g) s w hf hg = elim (Next-cases (body s w).0) [
    | inl (t, e) ↦
        let fewer = c s w t e in
        rw (e, rounds) (rounds-steady c f g t (body s w).1 (omega arith) (omega arith))
    | inr (a, e) ↦ rw (e, rounds)
  ]

  -- An invariant on the state and the world, for the answer of the last round too.
  pub rounds_inv {μ} :
      (P : S → World → Type μ) (Q : A → World → Type μ)
      → ((s : S) (w : World) → P s w → Q (out s) w)
      → ((s : S) (w : World) (t : S) → P s w → (body s w).0 ≡ again t → P t (body s w).1)
      → ((s : S) (w : World) (a : A) → P s w → (body s w).0 ≡ stop a → Q a (body s w).1)
      → (f : ℕ) (s : S) (w : World) → P s w
      → Q (rounds out body f s w).0 (rounds out body f s w).1
  unfolding rounds
  rounds_inv P Q dry keep last zero s w p = dry s w p
  rounds_inv P Q dry keep last (suc f) s w p = elim (Next-cases (body s w).0) [
    | inl (t, e) ↦ rw (e, rounds) (rounds_inv P Q dry keep last f t (body s w).1 (keep s w t p e))
    | inr (a, e) ↦ rw (e, rounds) (last s w a p e)
  ]

  pub forever_inv {μ} :
      (P : S → World → Type μ) (Q : A → World → Type μ)
      → ((s : S) (w : World) → P s w → Q (out s) w)
      → ((s : S) (w : World) (t : S) → P s w → (body s w).0 ≡ again t → P t (body s w).1)
      → ((s : S) (w : World) (a : A) → P s w → (body s w).0 ≡ stop a → Q a (body s w).1)
      → (s : S) (w : World) → P s w
      → Q (forever out body s w).0 (forever out body s w).1
  unfolding forever
  forever_inv P Q dry keep last s w p = rounds_inv P Q dry keep last (suc (length w.replies)) s w p

module _ {ℓ κ} {S : Type ℓ} {A : Type κ} (out : S → A) (body : S → M (Next S A)) where
  -- With enough fuel the answer is that of a last round.
  pub rounds_end {μ} :
      (P : S → World → Type μ) (Q : A → World → Type μ)
      → Consumes body
      → ((s : S) (w : World) (t : S) → P s w → (body s w).0 ≡ again t → P t (body s w).1)
      → ((s : S) (w : World) (a : A) → P s w → (body s w).0 ≡ stop a → Q a (body s w).1)
      → (f : ℕ) (s : S) (w : World) → length w.replies < f
      → P s w
      → Q (rounds out body f s w).0 (rounds out body f s w).1
  unfolding rounds
  rounds_end P Q c keep last zero s w l p = absurd (omega arith)
  rounds_end P Q c keep last (suc f) s w l p = elim (Next-cases (body s w).0) [
    | inl (t, e) ↦
        let fewer = c s w t e in
        rw (e, rounds) (rounds_end P Q c keep last f t (body s w).1 (omega arith) (keep s w t p e))
    | inr (a, e) ↦ rw (e, rounds) (last s w a p e)
  ]

  pub forever_end {μ} :
      (P : S → World → Type μ) (Q : A → World → Type μ)
      → Consumes body
      → ((s : S) (w : World) (t : S) → P s w → (body s w).0 ≡ again t → P t (body s w).1)
      → ((s : S) (w : World) (a : A) → P s w → (body s w).0 ≡ stop a → Q a (body s w).1)
      → (s : S) (w : World) → P s w
      → Q (forever out body s w).0 (forever out body s w).1
  unfolding forever
  forever_end P Q c keep last s w =
      rounds_end P Q c keep last (suc (length w.replies)) s w (omega arith)

-- A call takes a reply, or hears the silence behind the last one.
pub issue_answer :
    (c : Call) (w : World)
    → (length (issue c w).1.replies < length w.replies) ⊎ ((issue c w).0 ≡ silence)
unfolding issue
issue_answer c w = answer w.replies
  where
    answer : (rs : List Reply) → (length (drop 1 rs) < length rs) ⊎ (first_reply rs ≡ silence)
    answer [] = inr refl
    answer (r ∷ rs) = inl (omega arith)

pub issue-le : (c : Call) (w : World) → length (issue c w).1.replies ≤ length w.replies
unfolding issue
issue-le c w = omega (arith, length-drop 1 w.replies)
