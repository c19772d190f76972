-- ===== src/Process/Place.antt =====
-- Bounds and outcomes of `get_tmp_path` and `enter_ns`.
use yc_360_script.Prelude.{
  ℕ, ◌<◌, ◌≤◌, ◌≡◌, refl, Bool, true, false, ◌-◌, Bool-cases, leb, ◌⊎◌, inl, inr, Option, none,
  some, ◌++◌, Bytes, codes, length, length-take, arith,
}
use yc_360_script.Prelude.Int.{ℤ, pos, negsuc}
use yc_360_script.CString.{snprintf}
use yc_360_script.CString.Numbers.{signed_decimal}
use yc_360_script.Posix.{World, issue, getenv}
use yc_360_script.Posix.Trace.{descriptor, Balanced}
use yc_360_script.Process.{
  tmp_path_size, get_tmp_path_r, get_tmp_path, compare_inodes, switch_ns, enter_ns,
}

get_tmp_path_r-length :
    (pid : ℤ) (size : ℕ) (w : World) → length (get_tmp_path_r pid size w).0.0 ≤ size - 1
unfolding get_tmp_path_r
get_tmp_path_r-length pid size w =
    let text = codes "/proc/" ++ (signed_decimal pid ++ codes "/root/tmp") in
    elim (Bool-cases (leb size (length text))) [
      | inl long ↦ rw long (omega (arith, length-take (size - 1) text))
      | inr short ↦ rw short (omega (arith, length-take (size - 1) text))
    ]

-- The path that ends up in `tmp_path` fits that buffer with its NUL, whatever JATTACH_PATH holds.
get_tmp_path-fits : (pid : ℤ) (w : World) → length (get_tmp_path pid w).0 < tmp_path_size
unfolding get_tmp_path
get_tmp_path-fits pid w =
    ground (arith, get_tmp_path_r-length pid 924 (issue (getenv (codes "JATTACH_PATH")) w).1)

compare_inodes-Balanced :
    (v : ℕ) (a b : Bytes) (w : World) → Balanced descriptor v w (compare_inodes a b w).1
unfolding compare_inodes issue
compare_inodes-Balanced v a b w = ground arith

switch_ns-outcome :
    (v : ℕ) (path : Bytes) (r : Option Bool) (w : World)
    → Balanced descriptor v w (switch_ns path r w).1
      × (((switch_ns path r w).0 ≡ pos 0)
          ⊎ (((switch_ns path r w).0 ≡ pos 1) ⊎ ((switch_ns path r w).0 ≡ negsuc 0)))
unfolding issue
switch_ns-outcome v path none w = (omega arith, inl refl)
switch_ns-outcome v path (some false) w = (omega arith, inl refl)
switch_ns-outcome v path (some true) w = ground arith

-- `enter_ns` returns 0, 1 or -1, and closes the namespace's descriptor whether or not the switch
-- succeeded.
enter_ns-outcome :
    (v : ℕ) (pid : ℤ) (type : Bytes) (w : World)
    → Balanced descriptor v w (enter_ns pid type w).1
      × (((enter_ns pid type w).0 ≡ pos 0)
          ⊎ (((enter_ns pid type w).0 ≡ pos 1) ⊎ ((enter_ns pid type w).0 ≡ negsuc 0)))
unfolding enter_ns
enter_ns-outcome v pid type w =
    let path = snprintf 64 (codes "/proc/" ++ (signed_decimal pid ++ (codes "/ns/" ++ type))) in
    let c = compare_inodes (snprintf 64 (codes "/proc/self/ns/" ++ type)) path w in
    let h = switch_ns-outcome v path c.0 c.1 in
    (
      omega (
        arith,
        compare_inodes-Balanced v (snprintf 64 (codes "/proc/self/ns/" ++ type)) path w,
        h.0,
      ),
      h.1,
    )
