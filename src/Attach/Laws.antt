-- ===== src/Attach/Laws.antt =====
-- How the two halves of an attach fit together.
use yc_360_script.Prelude.{ℕ, ◌≡◌, List, Bytes, some, arith}
use yc_360_script.Prelude.Int.{ℤ}
use yc_360_script.Posix.{World, issue}
use yc_360_script.Posix.Trace.{descriptor, Balanced}
use yc_360_script.Openj9.Files.{is_openj9_process}
use yc_360_script.Openj9.Session.Balance.{jattach_openj9-Balanced}
use yc_360_script.Hotspot.Balance.{jattach_hotspot-Balanced}
use yc_360_script.Attach.{Globals, jattach2}

is_openj9_process-Balanced :
    (v : ℕ) (tmp : Bytes) (pid : ℤ) (w : World)
    → Balanced descriptor v w (is_openj9_process tmp pid w).1
unfolding is_openj9_process issue
is_openj9_process-Balanced v tmp pid w = omega arith

-- Both kinds of JVM, and the early exit after a failed `jattach1`: an attach that returns has closed
-- all descriptors that it opened.
pub jattach2-Balanced :
    (pid : ℤ) (argv : List Bytes) (g : Globals) (w : World) (result : ℤ) (v : ℕ)
    → (jattach2 pid argv g w).0 ≡ some result
    → Balanced descriptor v w (jattach2 pid argv g w).1
unfolding jattach2 issue
jattach2-Balanced pid argv g w result v e =
    let j = is_openj9_process g.tmp_path g.nspid w in
    ground (
      arith,
      is_openj9_process-Balanced v g.tmp_path g.nspid w,
      jattach_openj9-Balanced g.tmp_path g.nspid argv j.1 result v,
      jattach_hotspot-Balanced g.tmp_path pid g.nspid argv j.1 v,
    )
