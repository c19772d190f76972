-- ===== src/Top/Line/Recall.antt =====
-- The saved lines: at most 50 and the empty one, each once.
use yc_360_script.Prelude.{
  ℕ, ◌+◌, ◌≤◌, ◌≡◌, false, List, [], ◌∷◌, Option, none, some, ltb, if◌then◌else◌, Bytes, bytes_eq,
  length,
}
use yc_360_script.Top.Line.{without_last}

-- No saved line is this one.
abbrev pub Lacks : Bytes → List Bytes → Type 0
Lacks line [] = Unit
Lacks line (s ∷ saved) = (bytes_eq s line ≡ false) × Lacks line saved

abbrev pub AllOnce : List Bytes → Type 0
AllOnce [] = Unit
AllOnce (s ∷ saved) = Lacks s saved × AllOnce saved

-- The lines that `ioline` keeps: the empty one, and up to 50 others.
abbrev pub IsStack : List Bytes → Type 0
IsStack [] = ⊥
IsStack (anchor ∷ saved) = (anchor ≡ []) × (length saved ≤ 50) × AllOnce (anchor ∷ saved)

-- What `extract` says of the lines: the line is missing, or it is taken out once.
Extracted : Bytes → List Bytes → Option (Bytes × List Bytes) → Type 0
Extracted line saved none = Lacks line saved
Extracted line saved (some (t, others)) =
    (t ≡ line)
    × (length saved ≡ length others + 1)
    × ((x : Bytes) → Lacks x saved → Lacks x others × (bytes_eq t x ≡ false))
    × (AllOnce saved → AllOnce others × Lacks t others)

-- The place where the line stands afterwards.
abbrev pub newest : Bytes → ℕ
newest line = if bytes_eq [] line then 0 else 1

-- The lines that stay when a new one comes.
abbrev stays : List Bytes → List Bytes
stays saved = if ltb (length saved) 50 then saved else without_last saved
