-- ===== src/Top/Line.antt =====
-- `ioline`: the line editor of top, over its buffer of 257 bytes, and the lines that it recalls. The
-- prompt ends in column `beg` of a screen with `cols` columns.
pub mod Pads
pub mod Buffer
pub mod Edit
pub mod Pieces
pub mod Recall
use yc_360_script.Prelude.{
  ℕ, zero, suc, ◌+◌, ◌-◌, ◌*◌, Bool, true, false, not, ◌&&◌, ◌||◌, List, [], ◌∷◌, ◌++◌, Option,
  none, some, ltb, leb, ◌==◌, if◌then◌else◌, Bytes, length, take, drop, get_or,
}

abbrev pub buf_max : ℕ
buf_max = 255

abbrev pub zeros : ℕ → Bytes
zeros zero = []
zeros (suc n) = 0 ∷ zeros n

-- `strlen` and the text in front of the NUL.
abbrev pub text_of : Bytes → Bytes
text_of [] = []
text_of (c ∷ buf) = if c == 0 then [] else c ∷ text_of buf

-- `buf[i] = v`
abbrev pub store : ℕ → ℕ → Bytes → Bytes
store i v buf = take i buf ++ v ∷ drop (i + 1) buf

-- `sqzSTR`: `memmove(&buf[pos], &buf[pos+1], bufMAX-pos); buf[sizeof(buf)-1] = 0;`
unfoldable pub squeeze : ℕ → Bytes → Bytes
squeeze pos buf =
    store 256 0 (take pos buf ++ (take (buf_max - pos) (drop (pos + 1) buf) ++ drop buf_max buf))

-- `expSTR` behind its test: `memmove(&buf[pos+1], &buf[pos], bufMAX-pos); buf[pos] = ' ';`
unfoldable pub expand : ℕ → Bytes → Bytes
expand pos buf =
    store pos b' '
      (take (pos + 1) buf ++ (take (buf_max - pos) (drop pos buf) ++ drop (buf_max + 1) buf))

-- The keys that `iokey` reports.
pub data Key : Type 0 where
  none_left esc enter ins del bksp left right home end up down : Key
  char : ℕ → Key

-- The variables of the loop; `plin` is the index of a saved line.
pub record Line : Type 0 where
  pub buf : Bytes
  pub pos : ℕ
  pub ovt : Bool
  pub plin : ℕ

-- `isprint` in the C locale.
abbrev pub is_print : ℕ → Bool
is_print c = leb 32 c && leb c 126

-- `default:` with its tests `logCOL < bufMAX`, `phyCOL < Screen_cols` and those of `expSTR`.
unfoldable pub type_char : ℕ → ℕ → ℕ → Line → Line
type_char cols beg c l =
    let len = length (text_of l.buf) in
    let room = ltb (len + 1) buf_max && ltb (len + beg + 1) cols in
    if is_print c && (ltb (l.pos + 1) buf_max && ltb (beg + l.pos + 1) cols)
    then record l {
      buf = store l.pos c (if not l.ovt && room then expand l.pos l.buf else l.buf);
      pos = l.pos + 1;
    }
    else l

-- `memset` and `snprintf(buf, sizeof(buf), "%.*s", Screen_cols - beg - 1, str)`; a negative precision
-- is none.
abbrev pub shortened : ℕ → ℕ → Bytes → Bytes
shortened cols beg str = if leb (beg + 1) cols then take (cols - beg - 1) str else str

unfoldable pub recall : ℕ → ℕ → Bytes → Line → Line
recall cols beg str l =
    let text = take 256 (shortened cols beg str) in
    record l { buf = text ++ zeros (257 - length text); pos = length (shortened cols beg str) }

-- One key that does not end the loop; `saved` are the saved lines, newest first, the first being "".
unfoldable pub press : ℕ → ℕ → List Bytes → Key → Line → Line
press cols beg saved none_left l = l
press cols beg saved esc l = l
press cols beg saved enter l = l
press cols beg saved ins l = record l { ovt = not l.ovt }
press cols beg saved del l = record l { buf = squeeze l.pos l.buf }
press cols beg saved bksp l =
    if ltb 0 l.pos then record l { buf = squeeze (l.pos - 1) l.buf; pos = l.pos - 1 } else l
press cols beg saved left l = if ltb 0 l.pos then record l { pos = l.pos - 1 } else l
press cols beg saved right l =
    if ltb l.pos (length (text_of l.buf)) then record l { pos = l.pos + 1 } else l
press cols beg saved home l = record l { pos = 0 }
press cols beg saved end l = record l { pos = length (text_of l.buf) }
press cols beg saved up l =
    if ltb (l.plin + 1) (length saved)
    then recall cols beg (get_or saved (l.plin + 1) []) (record l { plin = l.plin + 1 })
    else l
press cols beg saved down l =
    let i = l.plin - 1 in recall cols beg (get_or saved i []) (record l { plin = i })
press cols beg saved (char c) l = type_char cols beg c l

-- The loop over the keys: the line that ENTER accepts, or the text that ESC or a failed read leave.
pub data Outcome : Type 0 where
  accepted given_up waiting : Bytes → Outcome

unfoldable pub edit : ℕ → ℕ → List Bytes → List Key → Line → Outcome
edit cols beg saved [] l = waiting (text_of l.buf)
edit cols beg saved (enter ∷ keys) l = accepted (text_of l.buf)
edit cols beg saved (none_left ∷ keys) l = given_up []
edit cols beg saved (esc ∷ keys) l = given_up (text_of (store 0 27 l.buf))
edit cols beg saved (k ∷ keys) l = edit cols beg saved keys (press cols beg saved k l)

abbrev pub keep_front : Bytes → Option (Bytes × List Bytes) → Option (Bytes × List Bytes)
keep_front s none = none
keep_front s (some (t, others)) = some (t, s ∷ others)

-- The first saved line that is the new one, and the others; `same` is STRCMP.
unfoldable pub extract : (Bytes → Bytes → Bool) → Bytes → List Bytes → Option (Bytes × List Bytes)
extract same line [] = none
extract same line (s ∷ saved) =
    let rest = keep_front s (extract same line saved) in
    if same s line then some (s, saved) else rest

-- All but the last.
abbrev pub without_last : List Bytes → List Bytes
without_last [] = []
without_last (s ∷ []) = []
without_last (s ∷ t ∷ saved) = s ∷ without_last (t ∷ saved)

-- `savMAX` is 50: the oldest line is dropped for a new one.
abbrev pub put_second : Bytes → Bytes → List Bytes → Option (Bytes × List Bytes) → List Bytes
put_second line anchor saved none =
    anchor ∷ line ∷ (if ltb (length saved) 50 then saved else without_last saved)
put_second line anchor saved (some (t, others)) = anchor ∷ t ∷ others

-- What `ioline` does with an accepted line: one that is there already becomes the newest, which
-- changes nothing if it is that, and the empty line stays on top.
unfoldable pub remember : (Bytes → Bytes → Bool) → Bytes → List Bytes → List Bytes
remember same line [] = []
remember same line (anchor ∷ saved) =
    if same anchor line
    then anchor ∷ saved
    else put_second line anchor saved (extract same line saved)
