-- ===== src/Top/Filters.antt =====
-- The other filters and the user filter of a window, and which tasks they let through.
pub mod Refill
pub mod File
use yc_360_script.Prelude.{
  ℕ, zero, suc, ◌+◌, ◌%◌, ◌^◌, Bool, true, false, not, ◌&&◌, ◌||◌, List, [], ◌∷◌, ◌++◌, Option,
  none, some, ltb, leb, ◌==◌, if◌then◌else◌, Bytes, bytes_eq, has_prefix,
}
use yc_360_script.Prelude.Int.{ℤ, pos, negsuc, eqb_ℤ}
use yc_360_script.CString.{snprintf}
use yc_360_script.Top.Text.{justify_pad, screen_max, pad_right}

-- `struct osel_s`; `rel` and `sel` are those of `typ`.
pub record Criterion : Type 0 where
  pub typ : ℤ
  pub inc : Bool
  pub enu : ℕ
  pub ops : ℕ
  pub val : Bytes
  pub raw : Bytes

-- `osel_1st` and `osel_tot`.
pub record Filters : Type 0 where
  pub criteria : List Criterion
  pub osel_tot : ℕ

-- The names of the fields, and their widths and alignments in `Fieldstab` at the time of a call: a width
-- is -1 for a variable one, and 0 for many fields before `zap_fieldstab` runs.
pub record Columns : Type 0 where
  pub names : List Bytes
  pub width : ℕ → ℤ
  pub align : ℕ → Bool

-- The messages that `osel_add` returns.
pub data Refusal : Type 0 where
  duplicate no_delimiter no_value : Refusal
  bad_field : Bytes → Refusal

pub data Result {ℓ} (A : Type ℓ) : Type ℓ where
  done : A → Result A
  refused : Refusal → Result A

abbrev pub is_delimiter : ℕ → Bool
is_delimiter c = c == b'<' || c == b'=' || c == b'>'

abbrev pub in_front : ℕ → Option (Bytes × ℕ × Bytes) → Option (Bytes × ℕ × Bytes)
in_front c none = none
in_front c (some (name, ops, pval)) = some (c ∷ name, ops, pval)

-- `strpbrk(glob, "<=>")`: the text in front of the delimiter, the delimiter, and the text behind it.
unfoldable pub split_glob : Bytes → Option (Bytes × ℕ × Bytes)
split_glob [] = none
split_glob (c ∷ s) = if is_delimiter c then some ([], c, s) else in_front c (split_glob s)

-- The first field with this title.
unfoldable pub field_of : ℕ → List Bytes → Bytes → Option ℕ
field_of i [] name = none
field_of i (t ∷ names) name = if bytes_eq t name then some i else field_of (i + 1) names name

abbrev pub has_raw : Bytes → List Criterion → Bool
has_raw raw [] = false
has_raw raw (c ∷ cs) = bytes_eq c.raw raw || has_raw raw cs

-- `justify_pad` with a width of `Fieldstab`: a negative one, in the place of both stars, stands for the
-- flag `-` and for no precision.
unfoldable pub justify_in : Bytes → ℤ → Bool → Bytes
justify_in str (pos width) justr = justify_pad str width justr
justify_in str (negsuc n) justr = snprintf screen_max (pad_right (n + 1) str ++ b' ' ∷ [])

unfoldable pub value_of : Columns → ℕ → ℕ → Bytes → Bytes
value_of cols ops enu pval =
    if ops == b'=' then pval else justify_in pval (cols.width enu) (cols.align enu)

-- The tests #4 and #5, and the criterion that passes them.
abbrev pub with_field : Columns → ℤ → Bytes → Bool → Bytes → ℕ → Bytes → Option ℕ → Result Criterion
with_field cols ch raw inc name ops pval none = refused (bad_field name)
with_field cols ch raw inc name ops [] (some enu) = refused no_value
with_field cols ch raw inc name ops (c ∷ pval) (some enu) = done (record {
  typ = ch;
  inc = inc;
  enu = enu;
  ops = ops;
  val = value_of cols ops enu (c ∷ pval);
  raw = raw;
})

-- Test #3.
abbrev pub with_split : Columns → ℤ → Bytes → Bool → Option (Bytes × ℕ × Bytes) → Result Criterion
with_split cols ch raw inc none = refused no_delimiter
with_split cols ch raw inc (some (name, ops, pval)) =
    with_field cols ch raw inc name ops pval (field_of 0 cols.names name)

-- Test #2 and what follows.
unfoldable pub build : Columns → ℤ → Bytes → Bytes → Result Criterion
build cols ch raw [] = with_split cols ch raw true (split_glob [])
build cols ch raw (c ∷ glob) =
    if c == b'!'
    then with_split cols ch raw false (split_glob glob)
    else with_split cols ch raw true (split_glob (c ∷ glob))

-- In front for the user, at the end for the configuration file.
abbrev pub insert_filter : Bool → Filters → Result Criterion → Result Filters
insert_filter push f (refused r) = refused r
insert_filter push f (done c) = done (record {
  criteria = if push then c ∷ f.criteria else f.criteria ++ c ∷ [];
  osel_tot = f.osel_tot + 1;
})

-- `osel_add`, whose text is not empty.
abbrev pub add_raw : Columns → ℤ → Bytes → Bytes → Bool → Filters → Result Filters
add_raw cols ch raw glob push f =
    if has_raw raw f.criteria
    then refused duplicate
    else insert_filter push f (build cols ch raw glob)

unfoldable pub osel_add : Columns → ℤ → Bytes → Bool → Filters → Result Filters
osel_add cols ch [] push f = done f
osel_add cols ch (c ∷ glob) push f = add_raw cols ch (snprintf 256 (c ∷ glob)) (c ∷ glob) push f

unfoldable pub osel_clear : Filters → Filters
osel_clear f = record { criteria = []; osel_tot = 0 }

-- `strcasecmp` and `strcasestr` look at small letters.
abbrev pub lower : ℕ → ℕ
lower c = if leb b'A' c && leb c b'Z' then c + 32 else c

-- `strcmp(s, t) < 0`, after a map of the characters.
abbrev pub less : (ℕ → ℕ) → Bytes → Bytes → Bool
less f [] [] = false
less f [] (y ∷ t) = true
less f (x ∷ s) [] = false
less f (x ∷ s) (y ∷ t) = ltb (f x) (f y) || f x == f y && less f s t

abbrev pub starts : (ℕ → ℕ) → Bytes → Bytes → Bool
starts f [] s = true
starts f (y ∷ t) [] = false
starts f (y ∷ t) (x ∷ s) = f x == f y && starts f t s

-- `strstr(s, t)` finds something.
abbrev pub contains : (ℕ → ℕ) → Bytes → Bytes → Bool
contains f t [] = starts f t []
contains f t (x ∷ s) = starts f t (x ∷ s) || contains f t s

abbrev pub folding : ℤ → ℕ → ℕ
folding typ c = if eqb_ℤ typ (pos b'o') then lower c else c

-- Whether a text has the relation to the value that a criterion names.
unfoldable pub relates : Criterion → Bytes → Bool
relates c str =
    if c.ops == b'<'
    then less (folding c.typ) str c.val
    else if c.ops == b'>'
    then less (folding c.typ) c.val str
    else contains (folding c.typ) c.val str

unfoldable pub osel_matched : List Criterion → ℕ → Bytes → Bool
osel_matched [] enu str = true
osel_matched (c ∷ cs) enu str =
    let rest = osel_matched cs enu str in
    if c.enu == enu && (if c.inc then not (relates c str) else relates c str) then false else rest

-- What `task_show` does with the filters: a row is empty if one of its fields does not match; a field
-- that shows nothing is not tested.
unfoldable pub row_shown : Filters → List (ℕ × Option Bytes) → Bool
row_shown f [] = true
row_shown f ((i, none) ∷ fields) = row_shown f fields
row_shown f ((i, some text) ∷ fields) =
    let rest = row_shown f fields in
    if not (f.osel_tot == 0) && not (osel_matched f.criteria i text) then false else rest

-- The user filter: 0, 'u' or 'U', the user id, and whether the user's tasks are shown.
pub record UserFilter : Type 0 where
  pub usrseltyp : ℕ
  pub usrseluid : ℕ
  pub usrselflg : Bool

-- The user ids of a task: real, saved, file system and effective.
pub record Owner : Type 0 where
  pub real : ℕ
  pub saved : ℕ
  pub fsuid : ℕ
  pub effective : ℕ

unfoldable pub wins_usrselect : UserFilter → Owner → Bool
wins_usrselect u p =
    let uid = u.usrseluid in
    let is_other = p.real == uid || p.saved == uid || p.fsuid == uid in
    if u.usrseltyp == 0
    then true
    else if u.usrseltyp == b'U' && is_other
    then u.usrselflg
    else if (u.usrseltyp == b'U' || u.usrseltyp == b'u') && p.effective == uid
    then u.usrselflg
    else not u.usrselflg

-- What the C library says of a text as a number (`strtoul` in base 0: the number and the rest of the
-- text) and of user names; `getpwuid` and `getpwnam` yield the user id of the entry.
pub record Users : Type 0 where
  pub strtoul : Bytes → ℕ × Bytes
  pub getpwuid : ℕ → Option ℕ
  pub getpwnam : Bytes → Option ℕ

-- What `user_certify` leaves: the filter of the window, and whether it takes the text.
abbrev pub certified : UserFilter → Option ℕ → ℕ → UserFilter × Bool
certified u none typ = (u, false)
certified u (some uid) typ = (record u { usrseluid = uid; usrseltyp = typ }, true)

-- Foreign users, without an entry, are allowed.
abbrev pub found_user : Users → Bytes → Option ℕ
found_user users str =
    let (num, rest) = users.strtoul str in
    let uid = num % 2 ^ 32 in
    elim rest [
      | [] ↦ elim (users.getpwuid uid) [ some pw ↦ some pw | none ↦ some uid ]
      | c ∷ s ↦ users.getpwnam str
    ]

-- `user_certify`; that it sets `Monpidsidx` to 0 too is left out.
unfoldable pub user_certify : Users → Bytes → ℕ → UserFilter → UserFilter × Bool
user_certify users [] typ u = (record u { usrseltyp = 0; usrselflg = true }, true)
user_certify users (c ∷ str) typ u =
    if c == b'!'
    then certified (record u { usrseltyp = 0; usrselflg = false }) (found_user users str) typ
    else certified (record u { usrseltyp = 0; usrselflg = true }) (found_user users (c ∷ str)) typ
