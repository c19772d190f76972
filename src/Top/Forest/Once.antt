-- ===== src/Top/Forest/Once.antt =====
-- With distinct process ids a task has at most one parent, so the closed tree holds every task once.
use yc_360_script.Prelude.{
  ℕ, suc, ◌+◌, ◌<◌, ◌≡◌, refl, sym, ◌∙◌, true, false, List, [], ◌∷◌, ◌==◌, inl, inr, Bool-cases,
  arith,
}
use native.Mathlib.Nat.{zero-add}
use yc_360_script.Top.Forest.{Task, Entry, entry, level_of}
use yc_360_script.Top.Forest.Closure.{
  Placed, times, from_parents, Owing, Before, adds, times-adds, Before-suc, Owing-entry,
  from_parents-own, Owing-adds,
}
use yc_360_script.Top.Forest.Parents.{
  DistinctPids, Apart, Apart-cons, parents-le, Once, Once-parents, Deep, Deep-suc, Deep-adds,
  level_of-times,
}

-- `plant` without its guard.
pub sow : List Task → List Entry → List Entry
sow [] tree = tree
sow (t ∷ ts) tree =
    sow ts (elim (level_of tree t.at == 0) [ true ↦ adds t 0 ts (entry t 0 ∷ tree) | false ↦ tree ])

pub sow-nil : (tree : List Entry) → sow [] tree ≡ tree
unfolding sow
sow-nil tree = refl

pub sow-root :
    (t : Task) (ts : List Task) (tree : List Entry)
    → (level_of tree t.at == 0) ≡ true
    → sow (t ∷ ts) tree ≡ sow ts (adds t 0 ts (entry t 0 ∷ tree))
unfolding sow
sow-root t ts tree e = rw e refl

pub sow-other :
    (t : Task) (ts : List Task) (tree : List Entry)
    → (level_of tree t.at == 0) ≡ false
    → sow (t ∷ ts) tree ≡ sow ts tree
unfolding sow
sow-other t ts tree e = rw e refl

-- What holds between two roots: the tasks of `ps` were tried, those of `ts` were not.
record Sown (n : ℕ) (ps ts : List Task) (tree : List Entry) : Type 0 where
  placed : Placed n ts
  before : Before n ps
  distinct : DistinctPids ps
  distinct_rest : DistinctPids ts
  apart : Apart ps ts
  once : Once ps tree
  owing : Owing (λ _. 0) ps ts tree
  deep : Deep n tree

Once-kept :
    (ps : List Task) (tree tree' : List Entry) (n : ℕ)
    → Before n ps
    → ((m : ℕ) → m < n → times m tree' ≡ times m tree)
    → Once ps tree
    → Once ps tree'
Once-kept [] tree tree' n b k o = tt
Once-kept (p ∷ ps) tree tree' n b k o = (k p.at b.0 ∙ o.0, Once-kept ps tree tree' n b.1 k o.1)

times-entry :
    (t : Task) (level m n : ℕ) (tree : List Entry)
    → t.at ≡ n
    → m < n
    → times m (entry t level ∷ tree) ≡ times m tree
times-entry t level m n tree e h =
    let apart : (t.at == m) ≡ false = ground arith in rw (apart, zero-add) refl

module _ (n : ℕ) (t : Task) (ps ts : List Task) (tree : List Entry)
    (h : Sown n ps (t ∷ ts) tree) where
  later : Before (suc n) (t ∷ ps)
  later = (omega (arith, h.placed.0), Before-suc n ps h.before)

  -- A task without a parent becomes a root.
  Sown-root :
      (level_of tree t.at == 0) ≡ true → Sown (suc n) (t ∷ ps) ts (adds t 0 ts (entry t 0 ∷ tree))
  Sown-root e =
      let tree1 = entry t 0 ∷ tree in
      let same : (t.at == t.at) ≡ true = ground arith in
      let own : times t.at tree1 ≡ 1 + times t.at tree = rw same refl in
      let absent : times t.at tree ≡ 0 =
        ground (arith, level_of-times n t.at tree h.deep (omega (arith, h.placed.0))) in
      let kept = λ (m : ℕ) (l : m < n).
        times-adds ts t 0 (suc n) m tree1 h.placed.1 (omega arith)
        ∙ times-entry t 0 m n tree h.placed.0 l in
      record {
        placed = h.placed.1;
        before = later;
        distinct = (h.apart.0, h.distinct);
        distinct_rest = h.distinct_rest.1;
        apart = Apart-cons t ps ts h.distinct_rest.0 h.apart.1;
        once = (
          times-adds ts t 0 (suc n) t.at tree1 h.placed.1 (omega (arith, h.placed.0))
              ∙ own
              ∙ rw absent (omega arith),
          Once-kept ps tree _ n h.before kept h.once,
        );
        owing =
            Owing-adds ts (t ∷ ps) t 0 (suc n) (λ _. 0) tree1 h.placed.1 later
              (Owing-entry ts (t ∷ ps) t 0 (suc n) (λ _. 0) tree h.placed.1
                (omega (arith, h.placed.0))
                (λ u. from_parents-own ps t u 0 n tree h.before h.placed.0) h.owing.1);
        deep =
            Deep-adds ts t 0 (suc n) tree1
              (inl (omega (arith, h.placed.0)), Deep-suc n tree h.deep);
      }

  -- A task that stands below its parent already is left there.
  Sown-child : (level_of tree t.at == 0) ≡ false → Sown (suc n) (t ∷ ps) ts tree
  Sown-child e =
      let present : (times t.at tree == 0) ≡ false =
        cc (level_of-times n t.at tree h.deep (omega (arith, h.placed.0))) in
      let most = parents-le ps t h.distinct h.apart.0 in
      let from = Once-parents ps t tree h.once in
      record {
        placed = h.placed.1;
        before = later;
        distinct = (h.apart.0, h.distinct);
        distinct_rest = h.distinct_rest.1;
        apart = Apart-cons t ps ts h.distinct_rest.0 h.apart.1;
        once = (ground (arith, most, from, h.owing.0), h.once);
        owing = h.owing.1;
        deep = Deep-suc n tree h.deep;
      }

-- The tasks of `ts` in front of those of `ps`, last first.
abbrev push_all : List Task → List Task → List Task
push_all [] ps = ps
push_all (t ∷ ts) ps = push_all ts (t ∷ ps)

sow-Once :
    (ts ps : List Task) (n : ℕ) (tree : List Entry)
    → Sown n ps ts tree
    → Once (push_all ts ps) (sow ts tree)
sow-Once [] ps n tree h = rw (sow-nil tree) h.once
sow-Once (t ∷ ts) ps n tree h = elim (Bool-cases (level_of tree t.at == 0)) [
  | inl root ↦
      rw (sow-root t ts tree root)
        (sow-Once ts (t ∷ ps) (suc n) _ (Sown-root n t ps ts tree h root))
  | inr child ↦
      rw (sow-other t ts tree child)
        (sow-Once ts (t ∷ ps) (suc n) tree (Sown-child n t ps ts tree h child))
]

Once-pushed :
    (ts ps : List Task) (tree : List Entry)
    → Once (push_all ts ps) tree
    → Once ps tree × Once ts tree
Once-pushed [] ps tree o = (o, tt)
Once-pushed (t ∷ ts) ps tree o = let r = Once-pushed ts (t ∷ ps) tree o in (r.0.1, (r.0.0, r.1))

from_parents_none : (ps : List Task) (t : Task) → from_parents ps t [] ≡ 0
from_parents_none [] t = refl
from_parents_none (p ∷ ps) t = omega (arith, from_parents_none ps t)

Owing-start : (ts ps : List Task) → Owing (λ _. 0) ps ts []
Owing-start [] ps = tt
Owing-start (t ∷ ts) ps = (sym (from_parents_none ps t), Owing-start ts (t ∷ ps))

Apart-none : (ts : List Task) → Apart [] ts
Apart-none [] = tt
Apart-none (t ∷ ts) = (tt, Apart-none ts)

-- The tree without guards holds every task once.
pub sow-Once_all : (ts : List Task) → Placed 0 ts → DistinctPids ts → Once ts (sow ts [])
sow-Once_all ts p d =
    (Once-pushed ts [] (sow ts []) (
      sow-Once ts [] 0 [] (record {
        placed = p;
        before = tt;
        distinct = tt;
        distinct_rest = d;
        apart = Apart-none ts;
        once = tt;
        owing = Owing-start ts [];
        deep = tt;
      }))).1
