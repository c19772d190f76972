-- ===== src/Top/Forest/Parents.antt =====
-- Tasks with distinct process ids have at most one parent, and roots have level 0.
use yc_360_script.Prelude.{
  ℕ, suc, ◌+◌, ◌≤◌, ◌<◌, ◌≡◌, ◌≢◌, refl, sym, true, List, [], ◌∷◌, ◌==◌, inl, inr, ◌⊎◌, Bool-cases,
  arith,
}
use yc_360_script.Top.Forest.{Task, Entry, is_child, nest, entry, level_of}
use yc_360_script.Top.Forest.Closure.{
  times, link, from_parents, adds, adds-nil, adds-child, adds-other,
}

-- No task of the list has the process id.
abbrev pub Fresh : ℕ → List Task → Type 0
Fresh pid [] = Unit
Fresh pid (p ∷ ps) = (p.pid ≢ pid) × Fresh pid ps

abbrev pub DistinctPids : List Task → Type 0
DistinctPids [] = Unit
DistinctPids (t ∷ ts) = Fresh t.pid ts × DistinctPids ts

-- No task of `ts` has the process id of a task of `ps`.
abbrev pub Apart : List Task → List Task → Type 0
Apart ps [] = Unit
Apart ps (t ∷ ts) = Fresh t.pid ps × Apart ps ts

pub Apart-cons : (t : Task) (ps ts : List Task) → Fresh t.pid ts → Apart ps ts → Apart (t ∷ ps) ts
Apart-cons t ps [] f a = tt
Apart-cons t ps (u ∷ ts) f a = ((λ e. f.0 (sym e), a.0), Apart-cons t ps ts f.1 a.1)

-- How many of the tasks are parents of `t`.
abbrev pub parents : List Task → Task → ℕ
parents [] t = 0
parents (p ∷ ps) t = link p t + parents ps t

-- Tasks that are all different from `p` and `t` hold no second parent.
pub no_parent :
    (ps : List Task) (p t : Task)
    → Fresh p.pid ps
    → Fresh t.pid ps
    → p.pid ≢ t.pid
    → is_child p t ≡ true
    → parents ps t ≡ 0
unfolding is_child
no_parent [] p t f g d c = refl
no_parent (q ∷ ps) p t f g d c = ground (arith, no_parent ps p t f.1 g.1 d c, f.0, g.0)

pub parents-le : (ps : List Task) (t : Task) → DistinctPids ps → Fresh t.pid ps → parents ps t ≤ 1
parents-le [] t d f = omega arith
parents-le (p ∷ ps) t d f = elim (Bool-cases (is_child p t)) [
  | inl yes' ↦ let others = no_parent ps p t d.0 f.1 f.0 yes' in rw yes' (omega (arith, others))
  | inr no' ↦ rw no' (omega (arith, parents-le ps t d.1 f.1))
]

-- The tasks of `ps` were added once each.
abbrev pub Once : List Task → List Entry → Type 0
Once [] tree = Unit
Once (p ∷ ps) tree = (times p.at tree ≡ 1) × Once ps tree

pub Once-parents :
    (ps : List Task) (t : Task) (tree : List Entry)
    → Once ps tree
    → from_parents ps t tree ≡ parents ps t
Once-parents [] t tree o = refl
Once-parents (p ∷ ps) t tree o = rw (o.0, Once-parents ps t tree o.1) (omega arith)

-- Entries from place `n` on are no roots.
abbrev pub Deep : ℕ → List Entry → Type 0
Deep n [] = Unit
Deep n (e ∷ tree) = ((e.task.at < n) ⊎ (1 ≤ e.level)) × Deep n tree

pub Deep-suc : (n : ℕ) (tree : List Entry) → Deep n tree → Deep (suc n) tree
Deep-suc n [] d = tt
Deep-suc n (e ∷ tree) (inl h, d) = (inl (omega arith), Deep-suc n tree d)
Deep-suc n (e ∷ tree) (inr h, d) = (inr h, Deep-suc n tree d)

pub Deep-adds :
    (ts : List Task) (self : Task) (level n : ℕ) (tree : List Entry)
    → Deep n tree
    → Deep n (adds self level ts tree)
Deep-adds [] self level n tree d = rw (adds-nil self level tree) d
Deep-adds (t ∷ ts) self level n tree d = elim (Bool-cases (is_child self t)) [
  | inl yes' ↦ rw (adds-child t ts self level tree yes') (
      Deep-adds ts self level n _
        (Deep-adds ts t (nest (level + 1)) n (entry t (level + 1) ∷ tree) (inr (ground arith), d)))
  | inr no' ↦ rw (adds-other t ts self level tree no') (Deep-adds ts self level n tree d)
]

-- A task of the rest has level 0 exactly if it was never added.
pub level_of-times :
    (n at : ℕ) (tree : List Entry)
    → Deep n tree
    → n ≤ at
    → (level_of tree at == 0) ≡ (times at tree == 0)
unfolding level_of
level_of-times n at [] d h = refl
level_of-times n at (e ∷ tree) d h = ground (arith, level_of-times n at tree d.1 h)
