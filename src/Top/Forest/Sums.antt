-- ===== src/Top/Forest/Sums.antt =====
-- Sums over a tree that holds every task once.
use yc_360_script.Prelude.{
  ℕ, suc, ◌+◌, ◌*◌, ◌≤◌, ◌<◌, ◌≡◌, refl, sym, ◌∙◌, ap, true, false, List, [], ◌∷◌, ◌==◌, length,
  inl, inr, ◌⊎◌, Bool-cases, arith,
}
use native.Mathlib.Nat.{zero-add, one-mul, add_assoc, add-mul, zero-mul}
use yc_360_script.Top.Forest.{Task, Entry, is_child, nest, level_of}
use yc_360_script.Top.Forest.Closure.{Placed, times, adds, adds-nil, adds-child, adds-other}
use yc_360_script.Top.Forest.Once.{sow, sow-nil, sow-root, sow-other}
use yc_360_script.Top.Forest.Parents.{Once}

-- `u` is one of the tasks.
abbrev pub Among : Task → List Task → Type 0
Among u [] = ⊥
Among u (t ∷ ts) = (u ≡ t) ⊎ Among u ts

abbrev pub AllAmong : List Task → List Entry → Type 0
AllAmong ts [] = Unit
AllAmong ts (e ∷ tree) = Among e.task ts × AllAmong ts tree

module _ (all : List Task) where
  adds-AllAmong :
      (ts : List Task) (self : Task) (level : ℕ) (tree : List Entry)
      → ((u : Task) → Among u ts → Among u all)
      → AllAmong all tree
      → AllAmong all (adds self level ts tree)
  adds-AllAmong [] self level tree inc a = rw (adds-nil self level tree) a
  adds-AllAmong (t ∷ ts) self level tree inc a =
      let inc' = λ (u : Task) (h : Among u ts). inc u (inr h) in
      elim (Bool-cases (is_child self t)) [
        | inl yes' ↦ rw (adds-child t ts self level tree yes') (
            adds-AllAmong ts self level _ inc'
              (adds-AllAmong ts t (nest (level + 1)) _ inc' (inc t (inl refl), a)))
        | inr no' ↦
            rw (adds-other t ts self level tree no') (adds-AllAmong ts self level tree inc' a)
      ]

  pub sow-AllAmong :
      (ts : List Task) (tree : List Entry)
      → ((u : Task) → Among u ts → Among u all)
      → AllAmong all tree
      → AllAmong all (sow ts tree)
  sow-AllAmong [] tree inc a = rw (sow-nil tree) a
  sow-AllAmong (t ∷ ts) tree inc a =
      let inc' = λ (u : Task) (h : Among u ts). inc u (inr h) in
      elim (Bool-cases (level_of tree t.at == 0)) [
        | inl root ↦
            rw (sow-root t ts tree root)
              (sow-AllAmong ts _ inc' (adds-AllAmong ts t 0 _ inc' (inc t (inl refl), a)))
        | inr child ↦ rw (sow-other t ts tree child) (sow-AllAmong ts tree inc' a)
      ]

-- The sum of a quantity over an array of tasks, and over the entries of a tree.
abbrev pub over_tasks : (Task → ℕ) → List Task → ℕ
over_tasks f [] = 0
over_tasks f (t ∷ ts) = f t + over_tasks f ts

abbrev pub over_entries : (Task → ℕ) → List Entry → ℕ
over_entries f [] = 0
over_entries f (e ∷ tree) = f e.task + over_entries f tree

module _ (f : Task → ℕ) where
  weight : List Task → List Entry → ℕ
  weight [] tree = 0
  weight (t ∷ ts) tree = times t.at tree * f t + weight ts tree

  weight-Once :
      (ts : List Task) (tree : List Entry) → Once ts tree → weight ts tree ≡ over_tasks f ts
  unfolding weight
  weight-Once [] tree o = refl
  weight-Once (t ∷ ts) tree o = rw (o.0, one-mul, weight-Once ts tree o.1) refl

  weight_skip :
      (ts : List Task) (n : ℕ) (e : Entry) (tree : List Entry)
      → Placed n ts
      → e.task.at < n
      → weight ts (e ∷ tree) ≡ weight ts tree
  unfolding weight
  weight_skip [] n e tree p h = refl
  weight_skip (t ∷ ts) n e tree p h =
      let apart : (e.task.at == t.at) ≡ false = ground (arith, p.0) in
      rw (apart, zero-add, weight_skip ts (suc n) e tree p.1 (omega arith)) refl

  Among-le : (u : Task) (ts : List Task) (n : ℕ) → Placed n ts → Among u ts → n ≤ u.at
  Among-le u [] n p a = elim a [ ]
  Among-le u (t ∷ ts) n p (inl e) = rw e (omega (arith, p.0))
  Among-le u (t ∷ ts) n p (inr a) = omega (arith, Among-le u ts (suc n) p.1 a)

  weight-entry :
      (ts : List Task) (n : ℕ) (e : Entry) (tree : List Entry)
      → Placed n ts
      → Among e.task ts
      → weight ts (e ∷ tree) ≡ f e.task + weight ts tree
  unfolding weight
  weight-entry [] n e tree p a = elim a [ ]
  weight-entry (t ∷ ts) n e tree p (inl q) =
      let same : (e.task.at == t.at) ≡ true = ground (arith, ap (λ (u : Task). u.at) q) in
      let q' : f e.task ≡ f t = ap f q in
      rw
        (
          same,
          weight_skip ts (suc n) e tree p.1 (omega (arith, ap (λ (u : Task). u.at) q, p.0)),
          q',
        )
        (rw (add-mul, one-mul, add_assoc) refl)
  weight-entry (t ∷ ts) n e tree p (inr a) =
      let apart : (e.task.at == t.at) ≡ false =
        ground (arith, Among-le e.task ts (suc n) p.1 a, p.0) in
      rw (apart, zero-add, weight-entry ts (suc n) e tree p.1 a) (omega arith)

  weight-none : (ts : List Task) → weight ts [] ≡ 0
  unfolding weight
  weight-none [] = refl
  weight-none (t ∷ ts) = rw (zero-mul, weight-none ts) refl

  weight-shown :
      (ts : List Task) (tree : List Entry)
      → Placed 0 ts
      → AllAmong ts tree
      → weight ts tree ≡ over_entries f tree
  weight-shown ts [] p a = weight-none ts
  weight-shown ts (e ∷ tree) p a =
      weight-entry ts 0 e tree p a.0 ∙ ap (λ n. f e.task + n) (weight-shown ts tree p a.1)

-- A tree that holds each of the tasks once has the sum of the array, for every quantity.
pub over_entries-Once :
    (f : Task → ℕ) (ts : List Task) (tree : List Entry)
    → Placed 0 ts
    → AllAmong ts tree
    → Once ts tree
    → over_entries f tree ≡ over_tasks f ts
over_entries-Once f ts tree p a o = sym (weight-shown f ts tree p a) ∙ weight-Once f ts tree o

pub over_entries_one : (tree : List Entry) → over_entries (λ _. 1) tree ≡ length tree
over_entries_one [] = refl
over_entries_one (e ∷ tree) = omega (arith, over_entries_one tree)

pub over_tasks_one : (ts : List Task) → over_tasks (λ _. 1) ts ≡ length ts
over_tasks_one [] = refl
over_tasks_one (t ∷ ts) = omega (arith, over_tasks_one ts)

-- The trees only grow.
