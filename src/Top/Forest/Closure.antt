-- ===== src/Top/Forest/Closure.antt =====
-- What `forest_adds` does to the number of times that a task stands in the tree: every task stands
-- there as often as its parents.
use yc_360_script.Prelude.{
  ℕ, suc, ◌+◌, ◌*◌, ◌<◌, ◌≡◌, refl, ◌∙◌, ap, true, false, List, [], ◌∷◌, ◌==◌, if◌then◌else◌, inl,
  inr, Bool-cases, arith,
}
use native.Mathlib.Nat.{zero-add}
use yc_360_script.Top.Forest.{Task, Entry, is_child, nest, entry}

-- The tasks stand in their array in order, from place `n` on.
abbrev pub Placed : ℕ → List Task → Type 0
Placed n [] = Unit
Placed n (t ∷ ts) = (t.at ≡ n) × Placed (suc n) ts

-- How often the task at a place was added.
abbrev pub times : ℕ → List Entry → ℕ
times n [] = 0
times n (e ∷ tree) = (if e.task.at == n then 1 else 0) + times n tree

abbrev pub link : Task → Task → ℕ
link p t = if is_child p t then 1 else 0

-- How often the parents of `t` among `ps` were added.
abbrev pub from_parents : List Task → Task → List Entry → ℕ
from_parents [] t tree = 0
from_parents (p ∷ ps) t tree = link p t * times p.at tree + from_parents ps t tree

-- Each task of `ts` was added as often as its parents before it, but for `owed` more times to come.
abbrev pub Owing : (Task → ℕ) → List Task → List Task → List Entry → Type 0
Owing owed ps [] tree = Unit
Owing owed ps (t ∷ ts) tree =
    (times t.at tree + owed t ≡ from_parents ps t tree) × Owing owed (t ∷ ps) ts tree

-- The places of `ps` lie below `n`.
abbrev pub Before : ℕ → List Task → Type 0
Before n [] = Unit
Before n (p ∷ ps) = (p.at < n) × Before n ps

-- `forest_adds` without its guard.
pub adds : Task → ℕ → List Task → List Entry → List Entry
adds self level [] tree = tree
adds self level (t ∷ ts) tree = adds self level ts (elim (is_child self t) [
  | true ↦ adds t (nest (level + 1)) ts (entry t (level + 1) ∷ tree)
  | false ↦ tree
])

pub adds-nil : (self : Task) (level : ℕ) (tree : List Entry) → adds self level [] tree ≡ tree
unfolding adds
adds-nil self level tree = refl

pub adds-child :
    (t : Task) (ts : List Task) (self : Task) (level : ℕ) (tree : List Entry)
    → is_child self t ≡ true
    → adds self level (t ∷ ts) tree
      ≡ adds self level ts (adds t (nest (level + 1)) ts (entry t (level + 1) ∷ tree))
unfolding adds
adds-child t ts self level tree e = rw e refl

pub adds-other :
    (t : Task) (ts : List Task) (self : Task) (level : ℕ) (tree : List Entry)
    → is_child self t ≡ false
    → adds self level (t ∷ ts) tree ≡ adds self level ts tree
unfolding adds
adds-other t ts self level tree e = rw e refl

-- It adds tasks behind `self` only.
pub times-adds :
    (ts : List Task) (self : Task) (level n m : ℕ) (tree : List Entry)
    → Placed n ts
    → m < n
    → times m (adds self level ts tree) ≡ times m tree
unfolding adds
times-adds [] self level n m tree p h = refl
times-adds (t ∷ ts) self level n m tree p h = elim (Bool-cases (is_child self t)) [
  | inl yes' ↦
      let tree1 = entry t (level + 1) ∷ tree in
      let inner = adds t (nest (level + 1)) ts tree1 in
      let apart : (t.at == m) ≡ false = ground (arith, p.0) in
      ap (times m) (adds-child t ts self level tree yes')
      ∙ times-adds ts self level (suc n) m inner p.1 (omega arith)
      ∙ times-adds ts t (nest (level + 1)) (suc n) m tree1 p.1 (omega arith)
      ∙ rw (apart, zero-add) refl
  | inr no' ↦
      ap (times m) (adds-other t ts self level tree no')
      ∙ times-adds ts self level (suc n) m tree p.1 (omega arith)
]

pub from_parents-adds :
    (ps ts : List Task) (t self : Task) (level n : ℕ) (tree : List Entry)
    → Placed n ts
    → Before n ps
    → from_parents ps t (adds self level ts tree) ≡ from_parents ps t tree
from_parents-adds [] ts t self level n tree p b = refl
from_parents-adds (q ∷ ps) ts t self level n tree p b =
    rw
      (
        times-adds ts self level n q.at tree p b.0,
        from_parents-adds ps ts t self level n tree p b.1,
      )
      refl

pub Before-suc : (n : ℕ) (ps : List Task) → Before n ps → Before (suc n) ps
Before-suc n [] b = tt
Before-suc n (p ∷ ps) b = (omega arith, Before-suc n ps b.1)

-- A new entry is owed to the tasks behind its own.
pub Owing-entry :
    (ts qs : List Task) (t : Task) (level n : ℕ) (owed : Task → ℕ) (tree : List Entry)
    → Placed n ts
    → t.at < n
    → ((u : Task) → from_parents qs u (entry t level ∷ tree) ≡ from_parents qs u tree + link t u)
    → Owing owed qs ts tree
    → Owing (λ u. owed u + link t u) qs ts (entry t level ∷ tree)
Owing-entry [] qs t level n owed tree p h c o = tt
Owing-entry (u ∷ ts) qs t level n owed tree p h c o =
    let apart : (t.at == u.at) ≡ false = ground (arith, p.0) in
    (
      rw apart (omega (arith, c u, o.0)),
      Owing-entry ts (u ∷ qs) t level (suc n) owed tree p.1 (omega arith)
          (λ v. rw apart (omega (arith, c v))) o.1,
    )

pub from_parents-Before :
    (ps : List Task) (t u : Task) (level n : ℕ) (tree : List Entry)
    → Before n ps
    → t.at ≡ n
    → from_parents ps u (entry t level ∷ tree) ≡ from_parents ps u tree
from_parents-Before [] t u level n tree b e = refl
from_parents-Before (p ∷ ps) t u level n tree b e =
    let apart : (t.at == p.at) ≡ false = ground (arith, b.0) in
    rw (apart, from_parents-Before ps t u level n tree b.1 e, zero-add) refl

-- The entry's own task is the first of the tasks before.
pub from_parents-own :
    (ps : List Task) (t u : Task) (level n : ℕ) (tree : List Entry)
    → Before n ps
    → t.at ≡ n
    → from_parents (t ∷ ps) u (entry t level ∷ tree) ≡ from_parents (t ∷ ps) u tree + link t u
from_parents-own ps t u level n tree b e =
    let same : (t.at == t.at) ≡ true = ground arith in
    rw (same, from_parents-Before ps t u level n tree b e) (grind arith)

-- The loop of `forest_adds` pays what `self` owes to its children.
pub Owing-adds :
    (ts ps : List Task) (self : Task) (level n : ℕ) (owed : Task → ℕ) (tree : List Entry)
    → Placed n ts
    → Before n ps
    → Owing (λ t. owed t + link self t) ps ts tree
    → Owing owed ps ts (adds self level ts tree)
Owing-adds [] ps self level n owed tree p b o = tt
Owing-adds (t ∷ ts) ps self level n owed tree p b o =
    let later : Before (suc n) (t ∷ ps) = (omega (arith, p.0), Before-suc n ps b) in
    elim (Bool-cases (is_child self t)) [
      | inl yes' ↦
          let tree1 = entry t (level + 1) ∷ tree in
          let tree2 = adds t (nest (level + 1)) ts tree1 in
          let linked : link self t ≡ 1 = rw yes' refl in
          let same : (t.at == t.at) ≡ true = ground arith in
          let own : times t.at tree1 ≡ 1 + times t.at tree = rw same refl in
          let grown : Owing (λ u. owed u + link self u) (t ∷ ps) ts tree2 =
            Owing-adds ts (t ∷ ps) t (nest (level + 1)) (suc n) (λ u. owed u + link self u) tree1
              p.1 later
              (Owing-entry ts (t ∷ ps) t (level + 1) (suc n) (λ u. owed u + link self u) tree p.1
                (omega (arith, p.0)) (λ u. from_parents-own ps t u (level + 1) n tree b p.0) o.1) in
          rw (adds-child t ts self level tree yes') (
            omega (
              arith,
              linked,
              own,
              o.0,
              p.0,
              times-adds ts self level (suc n) t.at tree2 p.1 (omega (arith, p.0)),
              times-adds ts t (nest (level + 1)) (suc n) t.at tree1 p.1 (omega (arith, p.0)),
              from_parents-adds ps ts t self level (suc n) tree2 p.1 (Before-suc n ps b),
              from_parents-adds ps ts t t (nest (level + 1)) (suc n) tree1 p.1 (Before-suc n ps b),
              from_parents-Before ps t t (level + 1) n tree b p.0,
            ),
            Owing-adds ts (t ∷ ps) self level (suc n) owed tree2 p.1 later grown,
          )
      | inr no' ↦
          let linked : link self t ≡ 0 = rw no' refl in
          rw (adds-other t ts self level tree no') (
            omega (
              arith,
              linked,
              o.0,
              times-adds ts self level (suc n) t.at tree p.1 (omega (arith, p.0)),
              from_parents-adds ps ts t self level (suc n) tree p.1 (Before-suc n ps b),
            ),
            Owing-adds ts (t ∷ ps) self level (suc n) owed tree p.1 later o.1,
          )
    ]
