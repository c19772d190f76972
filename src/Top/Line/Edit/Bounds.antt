-- ===== src/Top/Line/Edit/Bounds.antt =====
-- Every key keeps the text and the cursor within the buffer.
use yc_360_script.Prelude.{
  ℕ, zero, suc, ◌+◌, ◌-◌, ◌≤◌, ◌<◌, ◌≡◌, refl, Bool, true, false, not, ◌&&◌, List, [], ◌∷◌, ltb,
  leb, if◌then◌else◌, Bytes, length, take, drop, get_or, length-append, length-take, length-drop,
  Bool-cases, inl, inr, arith,
}
use yc_360_script.Top.Line.{
  buf_max, Key, none_left, esc, enter, ins, del, bksp, left, right, home, end, up, down, char,
  is_print, shortened,
}
use yc_360_script.Top.Line.Buffer.{delete_at, insert_at, replace_at}
use yc_360_script.Top.Line.Edit.{Editor, typed, recalled, act, NoNul, IsFine, AllShort}
use yc_360_script.Top.Line.Pieces.{
  NoNul-take, NoNul-drop, NoNul-append, length-insert_at, length-replace_at,
}

-- A recalled line, cut to the screen, is a prefix.
pub shortened-le : (cols beg : ℕ) (str : Bytes) → length (shortened cols beg str) ≤ length str
shortened-le cols beg str = ground (arith, length-take (cols - beg - 1) str)

pub NoNul-shortened : (cols beg : ℕ) (str : Bytes) → NoNul str → NoNul (shortened cols beg str)
NoNul-shortened cols beg str h = elim (Bool-cases (leb (beg + 1) cols)) [
  | inl cuts ↦ rw cuts (NoNul-take (cols - beg - 1) str h)
  | inr whole ↦ rw whole h
]

pub AllShort-get :
    (saved : List Bytes) (i : ℕ)
    → AllShort saved
    → (length (get_or saved i []) ≤ 254) × NoNul (get_or saved i [])
AllShort-get [] i a = (omega arith, tt)
AllShort-get (t ∷ saved) zero a = (a.0, a.1)
AllShort-get (t ∷ saved) (suc i) a = AllShort-get saved i a.2

pub recalled-IsFine :
    (cols beg place : ℕ) (str : Bytes) (s : Editor)
    → length str ≤ 254
    → NoNul str
    → IsFine (recalled cols beg str place s)
recalled-IsFine cols beg place str s h n = record {
  inside = omega arith;
  short = omega (arith, shortened-le cols beg str);
  solid = NoNul-shortened cols beg str n;
}

pub IsFine-if :
    (p : Bool) (s s' : Editor) → (p ≡ true → IsFine s') → IsFine s → IsFine (if p then s' else s)
IsFine-if true s s' h k = h refl
IsFine-if false s s' h k = k

-- A piece of the text changes.
pub NoNul-insert_at : (pos c : ℕ) (t : Bytes) → 0 < c → NoNul t → NoNul (insert_at pos c t)
NoNul-insert_at pos c t h n =
    NoNul-append (take pos t) (c ∷ drop pos t) (NoNul-take pos t n) (h, NoNul-drop pos t n)

pub NoNul-replace_at : (pos c : ℕ) (t : Bytes) → 0 < c → NoNul t → NoNul (replace_at pos c t)
NoNul-replace_at pos c t h n =
    NoNul-append (take pos t) (c ∷ drop (pos + 1) t) (NoNul-take pos t n)
      (h, NoNul-drop (pos + 1) t n)

pub chosen-fits :
    (b : Bool) (t : Bytes) (pos c : ℕ)
    → pos ≤ length t
    → length t ≤ 254
    → pos < 254
    → 0 < c
    → NoNul t
    → (b ≡ true → length t ≤ 253)
    → (let u = if b then insert_at pos c t else replace_at pos c t in
        (pos + 1 ≤ length u) × (length u ≤ 254) × NoNul u)
chosen-fits true t pos c h m l p n k =
    let e = length-insert_at pos c t h in
    let room = k refl in (omega (arith, e), omega (arith, e), NoNul-insert_at pos c t p n)
chosen-fits false t pos c h m l p n k =
    let e = length-replace_at pos c t h in
    (omega (arith, e.1), ground (arith, e.0, e.2), NoNul-replace_at pos c t p n)

pub typed-IsFine : (cols beg c : ℕ) (s : Editor) → IsFine s → IsFine (typed cols beg c s)
typed-IsFine cols beg c s f =
    let room = ltb (length s.text + 1) buf_max && ltb (length s.text + beg + 1) cols in
    IsFine-if (is_print c && (ltb (s.cursor + 1) buf_max && ltb (beg + s.cursor + 1) cols)) s _
      (λ p.
        let fits =
          chosen-fits (not s.replacing && room) s.text s.cursor c f.inside f.short (ground arith)
            (ground arith) f.solid (λ b. ground arith) in
        record { inside = fits.0; short = fits.1; solid = fits.2 })
      f

pub delete-IsFine :
    (s : Editor) (pos : ℕ)
    → IsFine s
    → pos ≤ length s.text
    → IsFine (record s { text = delete_at pos s.text; cursor = pos })
delete-IsFine s pos f h =
    let n = length-append (take pos s.text) (drop (pos + 1) s.text) in
    let a = length-take pos s.text in
    let b = length-drop (pos + 1) s.text in
    record {
      inside = omega (arith, n, a, b);
      short = omega (arith, n, a, b, f.short);
      solid =
          NoNul-append (take pos s.text) (drop (pos + 1) s.text) (NoNul-take pos s.text f.solid)
            (NoNul-drop (pos + 1) s.text f.solid);
    }

-- Every key keeps the text and the cursor in bounds.
pub act-IsFine :
    (cols beg : ℕ) (saved : List Bytes) (k : Key) (s : Editor)
    → AllShort saved
    → IsFine s
    → IsFine (act cols beg saved k s)
act-IsFine cols beg saved none_left s a f = f
act-IsFine cols beg saved esc s a f = f
act-IsFine cols beg saved enter s a f = f
act-IsFine cols beg saved ins s a f = record { inside = f.inside; short = f.short; solid = f.solid }
act-IsFine cols beg saved del s a f = delete-IsFine s s.cursor f f.inside
act-IsFine cols beg saved bksp s a f =
    IsFine-if (ltb 0 s.cursor) s _ (λ p. delete-IsFine s (s.cursor - 1) f (omega (arith, f.inside)))
      f
act-IsFine cols beg saved left s a f =
    IsFine-if (ltb 0 s.cursor) s _
      (λ p. record { inside = omega (arith, f.inside); short = f.short; solid = f.solid }) f
act-IsFine cols beg saved right s a f =
    IsFine-if (ltb s.cursor (length s.text)) s _
      (λ p. record { inside = ground arith; short = f.short; solid = f.solid }) f
act-IsFine cols beg saved home s a f = record {
  inside = omega arith;
  short = f.short;
  solid = f.solid;
}
act-IsFine cols beg saved end s a f = record {
  inside = omega arith;
  short = f.short;
  solid = f.solid;
}
act-IsFine cols beg saved up s a f =
    let g = AllShort-get saved (s.place + 1) a in
    IsFine-if (ltb (s.place + 1) (length saved)) s _
      (λ p. recalled-IsFine cols beg (s.place + 1) _ s g.0 g.1) f
act-IsFine cols beg saved down s a f =
    let g = AllShort-get saved (s.place - 1) a in recalled-IsFine cols beg (s.place - 1) _ s g.0 g.1
act-IsFine cols beg saved (char c) s a f = typed-IsFine cols beg c s f
