-- ===== src/Top/Inspect/Laws.antt =====
-- The rows of an inspected file are its lines, whatever the blocks in which it was read.
use yc_360_script.Prelude.{
  ◌+◌, ◌-◌, ◌≤◌, ◌≡◌, refl, sym, ap, ◌∙◌, true, false, List, [], ◌∷◌, ◌++◌, append_assoc,
  append-nil, some, ltb, leb, ◌==◌, if◌then◌else◌, Bytes, length, take, length-append, arith,
}
use yc_360_script.Top.Inspect.{
  Stream, Slurp, read_min, add_block, read_blocks, end_text, readfile, Rows, row_starts, last_or,
  insp_cnt_nl, insp_do_file, rows_between, rows_of,
}
use yc_360_script.Top.Inspect.Pieces.{
  lines, prepend-nil, count_of, rows_between-pieces, length-row_starts, last_or-row_starts,
  take-pieces,
}

-- What was read before the first empty block.
abbrev pub joined : List Bytes → Bytes
joined [] = []
joined ([] ∷ blocks) = []
joined ((c ∷ block) ∷ blocks) = (c ∷ block) ++ joined blocks

read_blocks-joined :
    (blocks : List Bytes) (s : Slurp)
    → length s.text + read_min ≤ s.size
    → (s' : Slurp) × (read_blocks blocks s ≡ some s')
      × (s'.text ≡ s.text ++ joined blocks)
      × (length s'.text + read_min ≤ s'.size)
unfolding read_blocks add_block
read_blocks-joined [] s h = (s, refl, sym (append-nil s.text), h)
read_blocks-joined ([] ∷ blocks) s h = (s, refl, sym (append-nil s.text), h)
read_blocks-joined ((c ∷ block) ∷ blocks) s h =
    let s1 : Slurp = record { text = s.text ++ c ∷ block; size = s.size + length (c ∷ block) } in
    let room : leb (length s.text + length (c ∷ block)) (length (c ∷ block) + s.size) ≡ true =
      ground arith in
    let (s', e, t, l) =
      read_blocks-joined blocks s1 (omega (arith, length-append s.text (c ∷ block))) in
    (s', simp (read_blocks, room) e, t ∙ append_assoc s.text (c ∷ block) (joined blocks), l)

-- The rows that are found in a text are its lines.
insp_cnt_nl-lines : (text : Bytes) → rows_of text (insp_cnt_nl text) ≡ lines text
unfolding rows_of insp_cnt_nl
insp_cnt_nl-lines text =
    let starts = row_starts 0 0 text in
    let rows = rows_between-pieces text [] [] text 0 0 refl refl refl in
    let size = length-row_starts 0 0 [] text in
    let last = last_or-row_starts 0 0 0 [] text refl in
    let count : (if length text + 1 - last_or 0 starts == 1
          then length starts - 1
          else length starts)
        ≡ count_of [] text =
      ground (arith, size, last) in
    ap (λ n. take n (rows_between text (starts ++ (length text + 1) ∷ []))) count
    ∙ ap (take (count_of [] text)) rows
    ∙ take-pieces [] text
    ∙ prepend-nil (lines text)

readfile-joined :
    (f : Stream)
    → f.failed ≡ false
    → (s : Slurp) × (readfile (some f) ≡ some (s, false)) × (s.text ≡ joined f.blocks)
unfolding readfile
readfile-joined f e =
    let (s, read, t, l) =
      read_blocks-joined f.blocks (record { text = []; size = read_min }) (omega arith) in
    let room : ltb (length s.text) s.size ≡ true = ground (arith, l) in
    (s, ap (end_text f.failed) read ∙ simp (room, e) refl, t)

insp_do_file-readfile :
    (message : Bytes) (f : Stream) (s : Slurp)
    → readfile (some f) ≡ some (s, false)
    → insp_do_file message (some f) ≡ some (s.text, insp_cnt_nl s.text)
unfolding insp_do_file
insp_do_file-readfile message f s e = simp (insp_do_file, e) refl

-- A stream without an error is read whole, up to its first empty block, and the rows that are shown
-- of it are the lines of what was read, in their order.
pub insp_do_file-lines :
    (message : Bytes) (f : Stream)
    → f.failed ≡ false
    → (r : Rows) × (insp_do_file message (some f) ≡ some (joined f.blocks, r))
      × (rows_of (joined f.blocks) r ≡ lines (joined f.blocks))
insp_do_file-lines message f e =
    let (s, read, t) = readfile-joined f e in
    (
      insp_cnt_nl (joined f.blocks),
      insp_do_file-readfile message f s read ∙ ap (λ b. some (b, insp_cnt_nl b)) t,
      insp_cnt_nl-lines (joined f.blocks),
    )
