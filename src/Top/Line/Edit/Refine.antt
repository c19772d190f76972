-- ===== src/Top/Line/Edit/Refine.antt =====
-- The loop over the buffer does what the editor of a text does.
use yc_360_script.Prelude.{
  ℕ, ◌+◌, ◌-◌, ◌≤◌, ◌≡◌, refl, ◌∙◌, ap, Bool, true, false, not, ◌&&◌, List, [], ◌∷◌, ltb,
  if◌then◌else◌, Bytes, length, take_all, arith,
}
use yc_360_script.Top.Line.{
  buf_max, text_of, store, expand, Key, none_left, esc, enter, ins, del, bksp, left, right, home,
  end, up, down, char, Line, is_print, type_char, shortened, recall, press, given_up, edit,
}
use yc_360_script.Top.Line.Buffer.{insert_at, replace_at}
use yc_360_script.Top.Line.Pads.{padded}
use yc_360_script.Top.Line.Edit.{Editor, typed, recalled, act, session, IsFine, line_of, AllShort}
use yc_360_script.Top.Line.Pieces.{
  text_of-padded, squeeze-padded, store-padded, length-replace_at, store-insert,
}
use yc_360_script.Top.Line.Edit.Bounds.{shortened-le, AllShort-get, NoNul-replace_at, act-IsFine}

pub text_of-line_of : (s : Editor) → IsFine s → text_of (padded s.text) ≡ s.text
text_of-line_of s f = text_of-padded s.text (omega (arith, f.short)) f.solid

pub recall-line_of :
    (cols beg place : ℕ) (str : Bytes) (s : Editor)
    → length str ≤ 254
    → recall cols beg str (record (line_of s) { plin = place })
      ≡ line_of (recalled cols beg str place s)
unfolding recall
recall-line_of cols beg place str s h =
    let whole = take_all 256 (shortened cols beg str) (omega (arith, shortened-le cols beg str)) in
    rw whole refl

-- A test is made alike on both sides.
pub line_of-if :
    (p : Bool) (l : Line) (s s' : Editor)
    → (p ≡ true → l ≡ line_of s')
    → (if p then l else line_of s) ≡ line_of (if p then s' else s)
line_of-if true l s s' h = h refl
line_of-if false l s s' h = refl

pub store_chosen :
    (b : Bool) (t : Bytes) (pos c : ℕ)
    → pos ≤ length t
    → length t ≤ 254
    → (b ≡ true → length t ≤ 253)
    → store pos c (if b then expand pos (padded t) else padded t)
      ≡ padded (if b then insert_at pos c t else replace_at pos c t)
store_chosen true t pos c h m k = store-insert t pos c h (k refl)
store_chosen false t pos c h m k = store-padded t pos c h m

pub type_char-line_of :
    (cols beg c : ℕ) (s : Editor)
    → IsFine s
    → type_char cols beg c (line_of s) ≡ line_of (typed cols beg c s)
unfolding type_char
type_char-line_of cols beg c s f =
    let room = ltb (length s.text + 1) buf_max && ltb (length s.text + beg + 1) cols in
    let stored =
      store_chosen (not s.replacing && room) s.text s.cursor c f.inside f.short
        (λ b. ground arith) in
    rw (text_of-line_of s f) (
      line_of-if (is_print c && (ltb (s.cursor + 1) buf_max && ltb (beg + s.cursor + 1) cols)) _ s _
        (λ p.
          ap
            (λ (b : Bytes). record {
              buf = b;
              pos = s.cursor + 1;
              ovt = s.replacing;
              plin = s.place;
            })
            stored))

-- Every key does to the buffer what it does to the text.
pub press-line_of :
    (cols beg : ℕ) (saved : List Bytes) (k : Key) (s : Editor)
    → AllShort saved
    → IsFine s
    → press cols beg saved k (line_of s) ≡ line_of (act cols beg saved k s)
unfolding press
press-line_of cols beg saved none_left s a f = refl
press-line_of cols beg saved esc s a f = refl
press-line_of cols beg saved enter s a f = refl
press-line_of cols beg saved ins s a f = refl
press-line_of cols beg saved del s a f = rw (squeeze-padded s.text s.cursor f.inside f.short) refl
press-line_of cols beg saved bksp s a f =
    line_of-if (ltb 0 s.cursor) _ s _
      (λ p. rw (squeeze-padded s.text (s.cursor - 1) (omega (arith, f.inside)) f.short) refl)
press-line_of cols beg saved left s a f = line_of-if (ltb 0 s.cursor) _ s _ (λ p. refl)
press-line_of cols beg saved right s a f =
    rw (text_of-line_of s f) (line_of-if (ltb s.cursor (length s.text)) _ s _ (λ p. refl))
press-line_of cols beg saved home s a f = refl
press-line_of cols beg saved end s a f = rw (text_of-line_of s f) refl
press-line_of cols beg saved up s a f =
    line_of-if (ltb (s.place + 1) (length saved)) _ s _
      (λ p. recall-line_of cols beg (s.place + 1) _ s (AllShort-get saved (s.place + 1) a).0)
press-line_of cols beg saved down s a f =
    recall-line_of cols beg (s.place - 1) _ s (AllShort-get saved (s.place - 1) a).0
press-line_of cols beg saved (char c) s a f = type_char-line_of cols beg c s f

-- `ioline`, whose moves of bytes work on a buffer of 257 bytes, is an editor of a text with a cursor:
-- for every sequence of keys it ends with the line that the editor accepts or gives up, as long as the
-- saved lines, as those that it accepted itself, have at most 254 characters and no NUL.
pub edit-session :
    (keys : List Key) (cols beg : ℕ) (saved : List Bytes) (s : Editor)
    → AllShort saved
    → IsFine s
    → edit cols beg saved keys (line_of s) ≡ session cols beg saved keys s
unfolding edit
edit-session [] cols beg saved s a f = rw (text_of-line_of s f) refl
edit-session (enter ∷ keys) cols beg saved s a f = rw (text_of-line_of s f) refl
edit-session (none_left ∷ keys) cols beg saved s a f = refl
edit-session (esc ∷ keys) cols beg saved s a f =
    let stored = store-padded s.text 0 27 (omega arith) f.short in
    ap given_up (
      ap text_of stored
      ∙ text_of-padded (replace_at 0 27 s.text)
          (omega (arith, (length-replace_at 0 27 s.text (omega arith)).0, f.short))
          (NoNul-replace_at 0 27 s.text (omega arith) f.solid))
edit-session (ins ∷ keys) cols beg saved s a f = rw (press-line_of cols beg saved ins s a f) (
    edit-session keys cols beg saved (act cols beg saved ins s) a
      (act-IsFine cols beg saved ins s a f))
edit-session (del ∷ keys) cols beg saved s a f = rw (press-line_of cols beg saved del s a f) (
    edit-session keys cols beg saved (act cols beg saved del s) a
      (act-IsFine cols beg saved del s a f))
edit-session (bksp ∷ keys) cols beg saved s a f = rw (press-line_of cols beg saved bksp s a f) (
    edit-session keys cols beg saved (act cols beg saved bksp s) a
      (act-IsFine cols beg saved bksp s a f))
edit-session (left ∷ keys) cols beg saved s a f = rw (press-line_of cols beg saved left s a f) (
    edit-session keys cols beg saved (act cols beg saved left s) a
      (act-IsFine cols beg saved left s a f))
edit-session (right ∷ keys) cols beg saved s a f = rw (press-line_of cols beg saved right s a f) (
    edit-session keys cols beg saved (act cols beg saved right s) a
      (act-IsFine cols beg saved right s a f))
edit-session (home ∷ keys) cols beg saved s a f = rw (press-line_of cols beg saved home s a f) (
    edit-session keys cols beg saved (act cols beg saved home s) a
      (act-IsFine cols beg saved home s a f))
edit-session (end ∷ keys) cols beg saved s a f = rw (press-line_of cols beg saved end s a f) (
    edit-session keys cols beg saved (act cols beg saved end s) a
      (act-IsFine cols beg saved end s a f))
edit-session (up ∷ keys) cols beg saved s a f = rw (press-line_of cols beg saved up s a f) (
    edit-session keys cols beg saved (act cols beg saved up s) a
      (act-IsFine cols beg saved up s a f))
edit-session (down ∷ keys) cols beg saved s a f = rw (press-line_of cols beg saved down s a f) (
    edit-session keys cols beg saved (act cols beg saved down s) a
      (act-IsFine cols beg saved down s a f))
edit-session (char c ∷ keys) cols beg saved s a f =
    rw (press-line_of cols beg saved (char c) s a f) (
      edit-session keys cols beg saved (act cols beg saved (char c) s) a
        (act-IsFine cols beg saved (char c) s a f))
