-- ===== src/Openj9/Translate/Laws.antt =====
-- Which commands become which kind of request, and that the result fits the buffer.
use yc_360_script.Prelude.{
  ◌⊎◌, ℕ, ◌-◌, ◌≤◌, Bool, true, false, ◌&&◌, ◌||◌, List, [], ◌∷◌, ◌≡◌, refl, leb, Bytes, codes,
  bytes_eq, has_prefix, get_or, length, length-take, arith, inl, inr,
}
use yc_360_script.Openj9.Translate.{
  command_text, translate_command, attach_loadagent, attach_diagnostics,
}

-- The command fits a buffer of `bufsize` bytes with its NUL.
pub length-translate_command :
    (bufsize : ℕ) (argv : List Bytes) → length (translate_command bufsize argv) ≤ bufsize - 1
unfolding translate_command
length-translate_command bufsize argv = omega (arith, length-take (bufsize - 1) (command_text argv))

abbrev pub is_load : List Bytes → Bool
is_load argv = bytes_eq (get_or argv 0 []) (codes "load") && leb 2 (length argv)

abbrev pub is_diagnostic : List Bytes → Bool
is_diagnostic argv =
    let cmd = get_or argv 0 [] in
    bytes_eq cmd (codes "jcmd")
    || (bytes_eq cmd (codes "threaddump")
        || (bytes_eq cmd (codes "dumpheap")
            || (bytes_eq cmd (codes "inspectheap") || bytes_eq cmd (codes "datadump"))))

bytes_eq→eq : (a b : Bytes) → bytes_eq a b ≡ true → a ≡ b
bytes_eq→eq [] [] h = refl
bytes_eq→eq [] (y ∷ ys) h = cc
bytes_eq→eq (x ∷ xs) [] h = cc
bytes_eq→eq (x ∷ xs) (y ∷ ys) h = ground (arith, bytes_eq→eq xs ys)

or_cases : (a b : Bool) → (a || b) ≡ true → (a ≡ true) ⊎ (b ≡ true)
or_cases true b h = inl refl
or_cases false b h = inr h

IsLoadagent : List Bytes → Type 0
IsLoadagent argv = has_prefix attach_loadagent (translate_command 8192 argv) ≡ true

IsDiagnostics : List Bytes → Type 0
IsDiagnostics argv = has_prefix attach_diagnostics (translate_command 8192 argv) ≡ true

load_prefix : (argv : List Bytes) → is_load argv ≡ true → IsLoadagent argv
unfolding translate_command IsLoadagent
load_prefix argv h = ground arith

module _ (argv : List Bytes) where
  verb_prefix :
      (v : Bytes)
      → (get_or argv 0 [] ≡ v → IsDiagnostics argv)
      → bytes_eq (get_or argv 0 []) v ≡ true
      → IsDiagnostics argv
  verb_prefix v at h = at (bytes_eq→eq (get_or argv 0 []) v h)

  split_verb :
      (v : Bytes) (rest : Bool)
      → (get_or argv 0 [] ≡ v → IsDiagnostics argv)
      → (rest ≡ true → IsDiagnostics argv)
      → (bytes_eq (get_or argv 0 []) v || rest) ≡ true
      → IsDiagnostics argv
  split_verb v rest at later h = elim (or_cases (bytes_eq (get_or argv 0 []) v) rest h) [
    | inl p ↦ verb_prefix v at p
    | inr q ↦ later q
  ]

  diagnostic_prefix : is_diagnostic argv ≡ true → IsDiagnostics argv
  unfolding translate_command IsDiagnostics
  diagnostic_prefix =
      split_verb (codes "jcmd") _ (λ e. rw e)
        (split_verb (codes "threaddump") _ (λ e. rw e)
          (split_verb (codes "dumpheap") _ (λ e. rw e)
            (split_verb (codes "inspectheap") _ (λ e. rw e)
              (verb_prefix (codes "datadump") (λ e. rw e)))))

-- A `load` with a library becomes an ATTACH_LOADAGENT request, the prefix that `read_response`
-- tests first, and fits the buffer of `jattach_openj9` with its NUL.
translate_command_load :
    (argv : List Bytes)
    → is_load argv ≡ true
    → (has_prefix attach_loadagent (translate_command 8192 argv) ≡ true)
      × (length (translate_command 8192 argv) ≤ 8191)
unfolding IsLoadagent
translate_command_load argv h = (load_prefix argv h, length-translate_command 8192 argv)

-- Each of the five diagnostic commands becomes an ATTACH_DIAGNOSTICS request, the prefix that
-- `read_response` tests second, and fits the buffer of `jattach_openj9` with its NUL.
translate_command_diagnostic :
    (argv : List Bytes)
    → is_diagnostic argv ≡ true
    → (has_prefix attach_diagnostics (translate_command 8192 argv) ≡ true)
      × (length (translate_command 8192 argv) ≤ 8191)
unfolding IsDiagnostics
translate_command_diagnostic argv h = (diagnostic_prefix argv h, length-translate_command 8192 argv)
