-- ===== src/Top/Forest/Guard.antt =====
-- The tree never outgrows its array, so the guard of `forest_adds` never fires, and the forest view
-- shows what the array holds.
use yc_360_script.Prelude.{
  ℕ, ◌+◌, ◌≤◌, ◌≡◌, sym, ◌∙◌, true, List, [], ◌∷◌, ltb, ◌==◌, length, inl, inr, Bool-cases, arith,
}
use yc_360_script.Top.Forest.{
  Task, Entry, is_child, nest, entry, level_of, forest_adds, plant, forest,
}
use yc_360_script.Top.Forest.Closure.{Placed, adds, adds-nil, adds-child, adds-other}
use yc_360_script.Top.Forest.Once.{sow, sow-nil, sow-root, sow-other, sow-Once_all}
use yc_360_script.Top.Forest.Parents.{DistinctPids, Once}
use yc_360_script.Top.Forest.Sums.{
  over_tasks, over_entries, over_entries-Once, over_entries_one, over_tasks_one, sow-AllAmong,
}

length-adds-le :
    (ts : List Task) (self : Task) (level : ℕ) (tree : List Entry)
    → length tree ≤ length (adds self level ts tree)
length-adds-le [] self level tree = rw (adds-nil self level tree) (omega arith)
length-adds-le (t ∷ ts) self level tree = elim (Bool-cases (is_child self t)) [
  | inl yes' ↦
      let tree1 = entry t (level + 1) ∷ tree in
      rw (adds-child t ts self level tree yes') (
        omega (
          arith,
          length-adds-le ts t (nest (level + 1)) tree1,
          length-adds-le ts self level (adds t (nest (level + 1)) ts tree1),
        ))
  | inr no' ↦ rw (adds-other t ts self level tree no') (length-adds-le ts self level tree)
]

length-sow-le : (ts : List Task) (tree : List Entry) → length tree ≤ length (sow ts tree)
length-sow-le [] tree = rw (sow-nil tree) (omega arith)
length-sow-le (t ∷ ts) tree = elim (Bool-cases (level_of tree t.at == 0)) [
  | inl root ↦ rw (sow-root t ts tree root) (
      omega (
        arith,
        length-adds-le ts t 0 (entry t 0 ∷ tree),
        length-sow-le ts (adds t 0 ts (entry t 0 ∷ tree)),
      ))
  | inr child ↦ rw (sow-other t ts tree child) (length-sow-le ts tree)
]

-- Where the result has room, so has every step.
forest_adds-adds :
    (max : ℕ) (ts : List Task) (self : Task) (level : ℕ) (tree : List Entry)
    → length (adds self level ts tree) ≤ max
    → forest_adds max self level ts tree ≡ adds self level ts tree
unfolding forest_adds
forest_adds-adds max [] self level tree h = sym (adds-nil self level tree)
forest_adds-adds max (t ∷ ts) self level tree h = elim (Bool-cases (is_child self t)) [
  | inl yes' ↦
      let tree1 = entry t (level + 1) ∷ tree in
      let tree2 = adds t (nest (level + 1)) ts tree1 in
      let room : length (adds self level ts tree2) ≤ max =
        rw (← adds-child t ts self level tree yes') h in
      let room2 : length tree2 ≤ max = omega (arith, length-adds-le ts self level tree2, room) in
      let room1 : ltb (length tree) max ≡ true =
        ground (arith, length-adds-le ts t (nest (level + 1)) tree1, room2) in
      rw (yes', room1, forest_adds-adds max ts t (nest (level + 1)) tree1 room2)
        (forest_adds-adds max ts self level tree2 room ∙ sym (adds-child t ts self level tree yes'))
  | inr no' ↦
      let room : length (adds self level ts tree) ≤ max =
        rw (← adds-other t ts self level tree no') h in
      rw no'
        (forest_adds-adds max ts self level tree room ∙ sym (adds-other t ts self level tree no'))
]

plant-sow :
    (max : ℕ) (ts : List Task) (tree : List Entry)
    → length (sow ts tree) ≤ max
    → plant max ts tree ≡ sow ts tree
unfolding plant
plant-sow max [] tree h = sym (sow-nil tree)
plant-sow max (t ∷ ts) tree h = elim (Bool-cases (level_of tree t.at == 0)) [
  | inl root ↦
      let tree1 = entry t 0 ∷ tree in
      let tree2 = adds t 0 ts tree1 in
      let room : length (sow ts tree2) ≤ max = rw (← sow-root t ts tree root) h in
      let room2 : length tree2 ≤ max = omega (arith, length-sow-le ts tree2, room) in
      let room1 : ltb (length tree) max ≡ true =
        ground (arith, length-adds-le ts t 0 tree1, room2) in
      rw (root, room1, forest_adds-adds max ts t 0 tree1 room2)
        (plant-sow max ts tree2 room ∙ sym (sow-root t ts tree root))
  | inr child ↦
      let room : length (sow ts tree) ≤ max = rw (← sow-other t ts tree child) h in
      rw child (plant-sow max ts tree room ∙ sym (sow-other t ts tree child))
]

-- For tasks with distinct process ids the forest view shows each task of the array once and nothing
-- else: every task stands in the tree exactly once, and every quantity, such as the number of tasks
-- that pass a test, has the same sum over the tree as over the array. In particular, its guard never
-- leaves a task out.
pub forest_complete :
    (ts : List Task) (f : Task → ℕ)
    → Placed 0 ts
    → DistinctPids ts
    → Once ts (forest ts) × (over_entries f (forest ts) ≡ over_tasks f ts)
unfolding forest
forest_complete ts f p d =
    let once = sow-Once_all ts p d in
    let among = sow-AllAmong ts ts [] (λ u h. h) tt in
    let room : length (sow ts []) ≤ length ts = omega (
      arith,
      over_entries-Once (λ _. 1) ts (sow ts []) p among once,
      over_entries_one (sow ts []),
      over_tasks_one ts,
    ) in
    rw (plant-sow (length ts) ts [] room) (once, over_entries-Once f ts (sow ts []) p among once)
