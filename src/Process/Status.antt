-- ===== src/Process/Status.antt =====
-- What `get_process_info` reads out of the lines that the kernel writes to /proc/pid/status.
use yc_360_script.Prelude.{
  ℕ, ◌%◌, ◌^◌, ◌<◌, ◌≡◌, ◌≢◌, ◌∙◌, true, List, [], ◌∷◌, ◌++◌, some, Bytes, codes, arith,
}
use yc_360_script.Prelude.Int.{pos}
use yc_360_script.CString.{atoi, strchr}
use yc_360_script.CString.Numbers.{decimal}
use yc_360_script.CString.Decimal.{
  All, IsDigit, IsEnd, atoi-decimal, decimal-All, atoi_tab, strchr_digits, strrchr_last,
}
use yc_360_script.Process.{Info, process_line}

-- `tag`, a tab, the real and the effective identity, and whatever follows.
abbrev pub identity_line : Bytes → ℕ → ℕ → Bytes → Bytes
identity_line tag real effective rest =
    tag ++ (9 ∷ (decimal real ++ 9 ∷ (decimal effective ++ rest)))

second_field :
    (real effective : ℕ) (rest : Bytes)
    → strchr (decimal real ++ 9 ∷ (decimal effective ++ rest)) 9
      ≡ some (9 ∷ (decimal effective ++ rest))
second_field real effective rest = strchr_digits (decimal real) _ (decimal-All real)

second_value :
    (effective : ℕ) (rest : Bytes)
    → IsEnd rest
    → atoi (9 ∷ (decimal effective ++ rest)) ≡ pos effective
second_value effective rest h = atoi_tab _ ∙ atoi-decimal effective rest h

small_mod : (n : ℕ) → n < 2 ^ 32 → n % 2 ^ 32 ≡ n
small_mod n h = omega arith

-- Of the numbers on a "Uid:" or a "Gid:" line the second one, which is the effective identity, is
-- taken, and nothing else changes.
process_line-identity :
    (real effective : ℕ) (rest : Bytes) (info : Info)
    → effective < 2 ^ 32
    → IsEnd rest
    → (process_line (identity_line (codes "Uid:") real effective rest) info
        ≡ some (record info { uid = effective }))
      × (process_line (identity_line (codes "Gid:") real effective rest) info
          ≡ some (record info { gid = effective }))
unfolding process_line
process_line-identity real effective rest info h e = (
  rw (second_field real effective rest, second_value effective rest e, small_mod effective h),
  rw (second_field real effective rest, second_value effective rest e, small_mod effective h),
)

-- The identities of a process in nested namespaces, outermost first.
abbrev pub tabbed : List ℕ → Bytes
tabbed [] = []
tabbed (p ∷ ps) = 9 ∷ (decimal p ++ tabbed ps)

digit-ne-tab : (s t : Bytes) → All IsDigit s → All (λ c. c ≢ 9) t → All (λ c. c ≢ 9) (s ++ t)
digit-ne-tab [] t h k = k
digit-ne-tab (c ∷ s) t (hc, hs) k = (omega arith, digit-ne-tab s t hs k)

-- On an "NStgid:" line the last number, the identity in the innermost namespace, is taken, however
-- deep the namespaces are nested.
process_line-nspid :
    (outer : List ℕ) (inner : ℕ) (info : Info)
    → process_line (codes "NStgid:" ++ (tabbed outer ++ 9 ∷ (decimal inner ++ b'\n' ∷ []))) info
      ≡ some (record info { nspid = pos inner; nspid_found = true })
unfolding process_line
process_line-nspid outer inner info = rw (
  strrchr_last (codes "NStgid:" ++ tabbed outer) (decimal inner ++ b'\n' ∷ [])
      (digit-ne-tab (decimal inner) (b'\n' ∷ []) (decimal-All inner) (omega arith)),
  second_value inner (b'\n' ∷ []) (ground arith),
)
