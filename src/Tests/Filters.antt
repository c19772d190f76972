-- ===== src/Tests/Filters.antt =====
-- Filters of two windows, their file, and what they let through.
use yc_360_script.Prelude.{
  arith, ◌≡◌, refl, true, false, List, [], ◌∷◌, ◌++◌, none, some, codes, map,
}
use yc_360_script.Prelude.Int.{pos, negsuc}
use yc_360_script.Top.Text.{justify_pad}
use yc_360_script.Top.Filters.{
  Criterion, Filters, Columns, done, refused, duplicate, osel_add, build, split_glob, field_of,
  value_of, justify_in, osel_matched, relates, row_shown, UserFilter, Users, user_certify,
}
use yc_360_script.Top.Filters.Refill.{Says, filters}
use yc_360_script.Top.Filters.File.{before, complete, config_osel, write_osel}
use yc_360_script.Top.Filters.File.Restore.{cleared}
use yc_360_script.Top.Filters.File.Reread.{reread, config_osel-write_osel}

abbrev columns : Columns
columns = record { names = codes "PID" ∷ codes "S" ∷ []; width = λ i. pos 3; align = λ i. true }

abbrev running : Criterion
running = record {
  typ = pos b'o';
  inc = true;
  enu = 1;
  ops = b'=';
  val = codes "R";
  raw = codes "S=R";
}

abbrev late : Criterion
late = record {
  typ = pos b'O';
  inc = false;
  enu = 0;
  ops = b'<';
  val = codes " 42 ";
  raw = codes "!PID<42";
}

adds_running :
    osel_add columns (pos b'o') (codes "S=R") true (filters []) ≡ done (filters (running ∷ []))
unfolding osel_add build split_glob field_of value_of
adds_running = refl

adds_late :
    osel_add columns (pos b'O') (codes "!PID<42") true (filters (running ∷ []))
    ≡ done (filters (late ∷ running ∷ []))
unfolding osel_add build split_glob field_of value_of justify_in justify_pad
adds_late = refl

refuses_twice :
    osel_add columns (pos b'O') (codes "S=R") true (filters (running ∷ [])) ≡ refused duplicate
unfolding osel_add
refuses_twice = refl

-- A running process with a number above 41 passes both, another does not.
shows_row :
    row_shown
      (filters (late ∷ running ∷ []))
      ((0, some (codes " 77 ")) ∷ (1, some (codes "r ")) ∷ [])
    ≡ true
unfolding row_shown osel_matched relates
shows_row = refl

hides_row :
    row_shown
      (filters (late ∷ running ∷ []))
      ((0, some (codes " 17 ")) ∷ (1, some (codes "R ")) ∷ [])
    ≡ false
unfolding row_shown osel_matched relates
hides_row = refl

-- Of the user with the id 7, or of all others.
abbrev users : Users
users = record { strtoul = λ s. (0, s); getpwuid = λ u. none; getpwnam = λ s. some 7 }

abbrev everyone : UserFilter
everyone = record { usrseltyp = 0; usrseluid = 0; usrselflg = true }

excludes_user :
    user_certify users (codes "!anna") b'u' everyone
    ≡ (record { usrseltyp = b'u'; usrseluid = 7; usrselflg = false }, true)
unfolding user_certify
excludes_user = refl

running-Says : Says columns running
unfolding build split_glob field_of value_of
running-Says = (λ e. cc e, (omega arith, (omega arith, (omega arith, (omega arith, tt)))), refl)

late-Says : Says columns late
unfolding build split_glob field_of value_of justify_in justify_pad
late-Says = (
  λ e. cc e,
  (
    omega arith,
    (
      omega arith,
      (omega arith, (omega arith, (omega arith, (omega arith, (omega arith, (omega arith, tt)))))),
    ),
  ),
  refl,
)

abbrev windows : List Filters
windows = filters [] ∷ filters (late ∷ running ∷ []) ∷ filters [] ∷ filters (running ∷ []) ∷ []

-- `zap_fieldstab` has not run.
abbrev early : Columns
early = record columns { width = λ i. pos 0 }

abbrev late_reread : Criterion
late_reread = record late { val = codes " " }

-- At the width 0 the number is lost.
rereads :
    map (reread early) windows
    ≡ filters [] ∷ filters (late_reread ∷ running ∷ []) ∷ filters [] ∷ filters (running ∷ []) ∷ []
unfolding split_glob value_of justify_in justify_pad
rereads = refl

-- A variable field keeps the text, with one blank behind it.
justifies : justify_in (codes "java") (negsuc 0) true ≡ codes "java "
unfolding justify_in
justifies = refl

config_osel-write_osel_example :
    config_osel early before (write_osel windows ++ codes "more" ∷ []) (cleared windows)
    ≡ (complete, map (reread early) windows, codes "more" ∷ [])
config_osel-write_osel_example =
    config_osel-write_osel early windows (codes "more" ∷ [])
      (
        (refl, tt, tt, tt),
        (
          (
            refl,
            (refl, (refl, tt)),
            ((columns, refl, late-Says), ((columns, refl, running-Says), tt)),
            ((b'O', refl), ((b'o', refl), tt)),
          ),
          (
            (refl, tt, tt, tt),
            ((refl, (refl, tt), ((columns, refl, running-Says), tt), ((b'o', refl), tt)), tt),
          ),
        ),
      )
      refl (omega arith)
