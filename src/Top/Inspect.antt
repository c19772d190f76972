-- ===== src/Top/Inspect.antt =====
-- The inspection of a file: `readfile`, `insp_do_file` and `insp_cnt_nl`.
pub mod Pieces
pub mod Laws
use yc_360_script.Prelude.{
  ℕ, zero, suc, ◌+◌, ◌-◌, Bool, true, false, List, [], ◌∷◌, ◌++◌, Option, none, some, ltb, leb,
  ◌==◌, if◌then◌else◌, Bytes, length, take, drop,
}
use yc_360_script.CString.{snprintf}

-- A stream: the blocks that `fread` yields, of which an empty one is the end, and `ferror`.
pub record Stream : Type 0 where
  pub blocks : List Bytes
  pub failed : Bool

-- The buffer: the `*bread` bytes that were read, and `*bsize`.
pub record Slurp : Type 0 where
  pub text : Bytes
  pub size : ℕ

-- `READMINSZ`
abbrev pub read_min : ℕ
read_min = 2048

-- One round for a block that is not empty; `none` is a write outside of the buffer.
unfoldable pub add_block : Bytes → Slurp → Option Slurp
add_block block s =
    if leb (length s.text + length block) (length block + s.size)
    then some (record { text = s.text ++ block; size = s.size + length block })
    else none

unfoldable pub read_blocks : List Bytes → Slurp → Option Slurp
read_blocks [] s = some s
read_blocks ([] ∷ blocks) s = some s
read_blocks ((c ∷ block) ∷ blocks) s = elim (add_block (c ∷ block) s) [
  | none ↦ none
  | some s' ↦ read_blocks blocks s'
]

-- `*(*baddr + *bread) = '\0';`
abbrev pub end_text : Bool → Option Slurp → Option (Slurp × Bool)
end_text failed none = none
end_text failed (some s) = if ltb (length s.text) s.size then some (s, failed) else none

-- `readfile`, with whether its result is an error; there may be no stream.
unfoldable pub readfile : Option Stream → Option (Slurp × Bool)
readfile none = some (record { text = []; size = read_min }, true)
readfile (some f) = end_text f.failed (read_blocks f.blocks (record { text = []; size = read_min }))

-- The array `Insp_p` of the starts of rows, which ends with the end of the text, and `Insp_nl`.
pub record Rows : Type 0 where
  pub starts : List ℕ
  pub count : ℕ

-- The loop over the text behind `beg`, whose row began at `cur`: the starts of this row and of those
-- to come.
unfoldable pub row_starts : ℕ → ℕ → Bytes → List ℕ
row_starts beg cur [] = cur ∷ []
row_starts beg cur (c ∷ text) =
    if c == 10 then cur ∷ row_starts (beg + 1) (beg + 1) text else row_starts (beg + 1) cur text

abbrev pub last_or : ℕ → List ℕ → ℕ
last_or d [] = d
last_or d (x ∷ xs) = last_or x xs

-- `insp_cnt_nl`; the NUL behind the text ends no row.
unfoldable pub insp_cnt_nl : Bytes → Rows
insp_cnt_nl text =
    let starts = row_starts 0 0 text in
    let end = length text + 1 in
    record {
      starts = starts ++ end ∷ [];
      count = if end - last_or 0 starts == 1 then length starts - 1 else length starts;
    }

-- `insp_do_file`, where `message` tells of the error and fits the buffer.
unfoldable pub insp_do_file : Bytes → Option Stream → Option (Bytes × Rows)
insp_do_file message fp = elim (readfile fp) [
  | none ↦ none
  | some (s, rc) ↦
      let text = if rc then snprintf s.size message else s.text in some (text, insp_cnt_nl text)
]

-- A row, whose length is INSP_RLEN.
abbrev pub row_text : Bytes → ℕ → ℕ → Bytes
row_text text p q = take (q - p - 1) (drop p text)

-- The rows between the starts.
abbrev pub rows_between : Bytes → List ℕ → List Bytes
rows_between text [] = []
rows_between text (p ∷ []) = []
rows_between text (p ∷ q ∷ starts) = row_text text p q ∷ rows_between text (q ∷ starts)

-- The rows that are shown: the first `Insp_nl` ones.
unfoldable pub rows_of : Bytes → Rows → List Bytes
rows_of text r = take r.count (rows_between text r.starts)
