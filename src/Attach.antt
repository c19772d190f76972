-- ===== src/Attach.antt =====
-- internal/capture/ycattach/posix/jattach.c: the two halves of an attach. `jattach1` runs once, when
-- the process starts, and leaves its results in globals; `jattach2` uses them.
pub mod Laws
use yc_360_script.Prelude.{
  ℕ, Bool, true, false, not, ◌&&◌, ◌||◌, List, [], ◌++◌, ◌∷◌, Option, none, some, ◌==◌,
  if◌then◌else◌, Bytes, codes,
}
use yc_360_script.Prelude.Int.{ℤ, pos, negsuc, is_neg, eqb_ℤ}
use yc_360_script.CString.Numbers.{signed_decimal}
use yc_360_script.Posix.{
  geteuid, getegid, seteuid, setegid, ignore_sigpipe, put, report, World, M, issue, call,
  then_return,
}
use yc_360_script.Process.{
  Info, InfoResult, not_found, faulted, found, get_process_info, enter_ns, get_tmp_path,
}
use yc_360_script.Openj9.Files.{is_openj9_process}
use yc_360_script.Openj9.Session.{jattach_openj9}
use yc_360_script.Hotspot.{jattach_hotspot}

-- `nspid`, `code` and `tmp_path`.
pub record Globals : Type 0 where
  pub nspid : ℤ
  pub code : ℤ
  pub tmp_path : Bytes

-- `my != target && set(target) != 0`
abbrev pub switch_group : ℕ → ℕ → M Bool
switch_group mine target w =
    if mine == target
    then (false, w)
    else (let (r, w') = call (setegid target) w in (not (eqb_ℤ r (pos 0)), w'))

abbrev pub switch_user : ℕ → ℕ → M Bool
switch_user mine target w =
    if mine == target
    then (false, w)
    else (let (r, w') = call (seteuid target) w in (not (eqb_ℤ r (pos 0)), w'))

-- The condition `(gid switch fails) || (uid switch fails)`.
unfoldable pub credentials_fail : ℕ → ℕ → Info → M Bool
credentials_fail my_uid my_gid info w =
    let (g, w1) = switch_group my_gid info.gid w in
    if g then (true, w1) else switch_user my_uid info.uid w1

-- From `enter_ns(pid, "net")` on.
unfoldable pub enter_target : ℤ → ℕ → ℕ → Info → Globals → M Globals
enter_target pid my_uid my_gid info g w =
    let w2 = (enter_ns pid (codes "ipc") (enter_ns pid (codes "net") w).1).1 in
    let (mnt_changed, w3) = enter_ns pid (codes "mnt") w2 in
    let (fails, w4) = credentials_fail my_uid my_gid info w3 in
    if fails
    then (
      record g { nspid = info.nspid; code = pos 1 },
      (issue (report (codes "Failed to change credentials to match the target process")) w4).1,
    )
    else (let (tmp, w5) =
          get_tmp_path
            (if not (is_neg mnt_changed) && not (eqb_ℤ mnt_changed (pos 0))
              then info.nspid
              else pid)
            w4 in
        then_return (issue ignore_sigpipe)
          (record g { nspid = info.nspid; code = pos 0; tmp_path = tmp }) w5)

abbrev pub with_info : ℤ → ℕ → ℕ → Globals → InfoResult → M (Option Globals)
with_info pid my_uid my_gid g faulted w = (none, w)
with_info pid my_uid my_gid g not_found w = (
  some (record g { code = pos 1 }),
  (issue (report (codes "Process " ++ (signed_decimal pid ++ codes " not found\n"))) w).1,
)
with_info pid my_uid my_gid g (found info) w =
    let (g', w') = enter_target pid my_uid my_gid info g w in (some g', w')

-- `none`: `get_process_info` faulted on a malformed status file.
unfoldable pub jattach1 : ℤ → Globals → M (Option Globals)
jattach1 pid g w =
    let (uid, w1) = issue geteuid w in
    let (gid, w2) = issue getegid w1 in
    let start : Info = record {
      uid = uid.number;
      gid = gid.number;
      nspid = g.nspid;
      nspid_found = false;
    } in
    let (r, w3) = get_process_info pid start w2 in with_info pid uid.number gid.number g r w3

unfoldable pub jattach2 : ℤ → List Bytes → Globals → M (Option ℤ)
jattach2 pid argv g w =
    if not (eqb_ℤ g.code (pos 0))
    then (
      some g.code,
      (issue (put (codes "jattach1 ret " ++ (signed_decimal g.code ++ b'\n' ∷ []))) w).1,
    )
    else (let (j9, w1) = is_openj9_process g.tmp_path g.nspid w in
        if j9
        then jattach_openj9 g.tmp_path g.nspid argv w1
        else jattach_hotspot g.tmp_path pid g.nspid argv w1)
