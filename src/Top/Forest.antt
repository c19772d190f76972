-- ===== src/Top/Forest.antt =====
-- The forest view of top: tasks below their parents.
pub mod Closure
pub mod Parents
pub mod Once
pub mod Sums
pub mod Guard
pub mod Rows
use yc_360_script.Prelude.{
  ℕ, zero, suc, ◌+◌, ◌-◌, ◌*◌, Bool, true, false, not, ◌&&◌, ◌||◌, List, [], ◌∷◌, ◌++◌, ltb, ◌==◌,
  if◌then◌else◌, length,
}

-- A `pids_stack`, with what the forest view reads; `at` is its place in the sorted array, which stands
-- for the pointer.
pub record Task : Type 0 where
  pub at : ℕ
  pub pid : ℕ
  pub ppid : ℕ
  pub tgid : ℕ
  pub cpu : ℕ

-- An element of `Tree_ppt`, with the level that was stored in it.
pub record Entry : Type 0 where
  pub task : Task
  pub level : ℕ

-- A thread of the process `p`, or a child process of it.
unfoldable pub is_child : Task → Task → Bool
is_child p t = p.pid == t.tgid || p.pid == t.ppid && t.pid == t.tgid

-- `if (level > 100) level = 101;`
abbrev pub nest : ℕ → ℕ
nest level = if ltb 100 level then 101 else level

abbrev pub entry : Task → ℕ → Entry
entry t level = record { task = t; level = nest level }

-- The loop of `forest_adds` for `self`, whose level is clamped, over the tasks behind it. The tree has
-- its latest entry first; `max` is PIDSmaxt.
unfoldable pub forest_adds : ℕ → Task → ℕ → List Task → List Entry → List Entry
forest_adds max self level [] tree = tree
forest_adds max self level (t ∷ ts) tree =
    forest_adds max self level ts (elim (is_child self t && ltb (length tree) max) [
      | true ↦ forest_adds max t (nest (level + 1)) ts (entry t (level + 1) ∷ tree)
      | false ↦ tree
    ])

-- `PID_VAL(eu_TREE_LVL, s_int, …)`: 0 in the beginning, then what was stored last.
unfoldable pub level_of : List Entry → ℕ → ℕ
level_of [] at = 0
level_of (e ∷ tree) at = if e.task.at == at then e.level else level_of tree at

-- `forest_adds(i, 0)` for each task that still has level 0.
unfoldable pub plant : ℕ → List Task → List Entry → List Entry
plant max [] tree = tree
plant max (t ∷ ts) tree = plant max ts (elim (level_of tree t.at == 0 && ltb (length tree) max) [
  | true ↦ forest_adds max t 0 ts (entry t 0 ∷ tree)
  | false ↦ tree
])

-- `Tree_ppt` after the loops of `forest_begin`, with the last entry first.
unfoldable pub forest : List Task → List Entry
forest ts = plant (length ts) ts []
