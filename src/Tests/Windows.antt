-- ===== src/Tests/Windows.antt =====
-- An attach on Windows against scripted replies.
use yc_360_script.Prelude.{
  arith, ℕ, ◌+◌, ◌≤◌, ◌≡◌, ◌⊎◌, refl, if◌then◌else◌, List, [], ◌∷◌, ◌++◌, Bytes, codes, ◌==◌,
  length,
}
use yc_360_script.Prelude.Int.{pos}
use yc_360_script.CString.{atoi, digits_value, signed_value}
use yc_360_script.Windows.{Reply, World, issue, mirror, read_response, jattach, remote_thread_entry}
use yc_360_script.Windows.Balance.{opened, closed, failed_lookups, jattach-handles}
use yc_360_script.Windows.Mirror.{received, printed, read_response-mirrored}

abbrev returns : ℕ → Reply
returns n = record { ret = n; number = 0; bytes = [] }

abbrev reads : Bytes → Reply
reads b = record { ret = 1; number = 0; bytes = b }

-- The clock, the pipe 3, the process 4, its bitness, code and data, the thread 5, whose exit code is 0,
-- and an two_replies in two parts.
abbrev script : List Reply
script =
    returns 0
    ∷ returns 3
    ∷ returns 4
    ∷ returns 1
    ∷ returns 4096
    ∷ returns 1
    ∷ returns 8192
    ∷ returns 1
    ∷ returns 5
    ∷ returns 1
    ∷ returns 0
    ∷ returns 1
    ∷ returns 1
    ∷ returns 1
    ∷ returns 1
    ∷ returns 1
    ∷ returns 1
    ∷ returns 1
    ∷ reads (codes "0\n")
    ∷ returns 1
    ∷ reads (codes "done")
    ∷ returns 1
    ∷ []

abbrev world : World
world = record { replies = script; trace = [] }

abbrev two_replies : World
two_replies = record {
  replies = returns 1 ∷ reads (codes "7\n") ∷ returns 1 ∷ reads (codes "no") ∷ returns 1 ∷ [];
  trace = [];
}

first_code : (read_response 3 two_replies).0 ≡ pos 7
unfolding read_response mirror issue atoi signed_value digits_value
first_code = refl

two_chunks : printed (read_response 3 two_replies).1.trace ≡ codes "7\nno"
unfolding read_response mirror issue
two_chunks = refl

-- The JVM of a 32-bit build exports the decorated name.
decorated :
    remote_thread_entry (λ _. 1) (λ _ name. if length name == 24 then 9 else 0) (λ f args. f) [] ≡ 9
unfolding remote_thread_entry
decorated = refl

jattach-handles_example :
    (let w' = (jattach (codes "77" ∷ codes "properties" ∷ []) world).1 in
      (opened 4 w'.trace + 0 + 0 ≤ closed 4 w'.trace + 0 + failed_lookups w'.trace)
      × (closed 4 w'.trace + 0 ≤ opened 4 w'.trace + 0))
jattach-handles_example =
    jattach-handles (codes "77" ∷ codes "properties" ∷ []) world 4 (omega arith)

read_response-mirrored_example :
    (let r = read_response 3 two_replies in
      ((r.0 ≡ pos 1) × (received 3 r.1.trace ≡ []))
      ⊎ ((out : Bytes) × (received 3 r.1.trace ≡ [] ++ out) × (printed r.1.trace ≡ [] ++ out)))
read_response-mirrored_example = read_response-mirrored 3 two_replies
