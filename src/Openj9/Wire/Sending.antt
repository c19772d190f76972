-- ===== src/Openj9/Wire/Sending.antt =====
-- What `write_command` puts on the socket.
use yc_360_script.Prelude.{
  ℕ, ◌+◌, ◌≤◌, ◌<◌, ◌≡◌, refl, ap, sym, ◌∙◌, [], ◌∷◌, ◌++◌, append_assoc, append-nil, Bytes, length,
  length-drop, take, drop, take_all, inl, inr, ◌⊎◌, arith,
}
use yc_360_script.Prelude.Int.{ℤ, pos, negsuc}
use yc_360_script.Posix.{World, issue, call, write, first_reply, accepted}
use yc_360_script.Posix.Loop.{
  again, stop, forever_inv, Consumes, issue_answer, rounds, rounds-steady,
}
use yc_360_script.Posix.Trace.{sent, eqb_ℤ-self}
use yc_360_script.Openj9.Wire.{write_round, write_command}
use Prim.Native.Nat.{zero, suc}
use Prim.Native.Nat.add
use native.Mathlib.Nat.{zero-add}

take-nil : (n : ℕ) → take {A = ℕ} n [] ≡ []
take-nil zero = refl
take-nil (suc n) = refl

take-drop : (n m : ℕ) (xs : Bytes) → take n xs ++ take m (drop n xs) ≡ take (n + m) xs
take-drop zero m xs = simp zero-add
take-drop (suc n) m [] = take-nil m ∙ sym (take-nil (suc n + m))
take-drop (suc n) m (x ∷ xs) = simp (add.suc, take-drop n m xs)

module _ (fd : ℤ) (msg before : Bytes) where
  -- The first `off` bytes are out, and nothing else.
  Progress : ℕ → World → Type 0
  Progress off w = (off ≤ length msg) × (sent fd w.trace ≡ before ++ take off msg)

  Outcome : ℤ → World → Type 0
  Outcome r w =
      ((r ≡ pos 0) × (sent fd w.trace ≡ before ++ msg))
      ⊎ ((r ≡ negsuc 0) × ((k : ℕ) × (k ≤ length msg) × (sent fd w.trace ≡ before ++ take k msg)))

  -- One call of `write`, whatever it answers.
  write_sent :
      (off : ℕ) (w : World)
      → Progress off w
      → Progress
          (off + accepted (length (drop off msg)) (call (write fd (drop off msg)) w).0)
          (call (write fd (drop off msg)) w).1
  unfolding issue Progress
  write_sent off w (p, q) = (
    omega (arith, length-drop off msg),
    rw (eqb_ℤ-self fd, q, append_assoc)
        (ap (◌++◌ before)
          (take-drop off (accepted (length (drop off msg)) (first_reply w.replies).ret) msg)),
  )

  write_round_again :
      (off : ℕ) (w : World) (off' : ℕ)
      → Progress off w
      → (write_round fd msg off w).0 ≡ again off'
      → Progress off' (write_round fd msg off w).1
  unfolding write_round
  write_round_again off w off' p e = ground (arith, write_sent off w p)

  all_out : (off : ℕ) (w : World) → Progress off w → length msg ≤ off → Outcome (pos 0) w
  unfolding Progress Outcome
  all_out off w (p, q) h = inl (refl, q ∙ ap (◌++◌ before) (take_all off msg h))

  part_out : (off : ℕ) (w : World) → Progress off w → Outcome (negsuc 0) w
  unfolding Progress Outcome
  part_out off w (p, q) = inr (refl, (off, p, q))

  write_round_stop :
      (off : ℕ) (w : World) (r : ℤ)
      → Progress off w
      → (write_round fd msg off w).0 ≡ stop r
      → Outcome r (write_round fd msg off w).1
  unfolding write_round
  write_round_stop off w r p e = ground (
    arith,
    all_out off w p,
    part_out (off + accepted (length (drop off msg)) (call (write fd (drop off msg)) w).0)
        (call (write fd (drop off msg)) w).1 (write_sent off w p),
  )

write_round-Consumes : (fd : ℤ) (msg : Bytes) → Consumes (write_round fd msg)
unfolding write_round
write_round-Consumes fd msg off w off' e = elim (issue_answer (write fd (drop off msg)) w) [
  | inl fewer ↦ ground arith
  | inr silent ↦ ground arith
]

-- `write_command` returns 0 after the whole command and its NUL went out, in order and once, or -1
-- after a prefix of them, and nothing else.
pub write_command-sent :
    (fd : ℤ) (cmd : Bytes) (w : World)
    → (((write_command fd cmd w).0 ≡ pos 0)
        × (sent fd (write_command fd cmd w).1.trace ≡ sent fd w.trace ++ (cmd ++ 0 ∷ [])))
      ⊎ (((write_command fd cmd w).0 ≡ negsuc 0)
          × ((k : ℕ) × (k ≤ length (cmd ++ 0 ∷ []))
              × (sent fd (write_command fd cmd w).1.trace
                  ≡ sent fd w.trace ++ take k (cmd ++ 0 ∷ []))))
unfolding write_command Outcome Progress
write_command-sent fd cmd w =
    let msg = cmd ++ 0 ∷ [] in
    let before = sent fd w.trace in
    forever_inv (λ _. negsuc 0) (write_round fd msg) (Progress fd msg before)
      (Outcome fd msg before) (part_out fd msg before)
      (λ s w' t p. write_round_again fd msg before s w' t p)
      (λ s w' a p. write_round_stop fd msg before s w' a p) 0 w
      (omega arith, sym (append-nil before))

-- Every amount of fuel above the number of replies gives the run of `write_command`: its loop ends.
write_command_ends :
    (fd : ℤ) (cmd : Bytes) (w : World) (fuel : ℕ)
    → length w.replies < fuel
    → rounds (λ _. negsuc 0) (write_round fd (cmd ++ 0 ∷ [])) fuel 0 w ≡ write_command fd cmd w
unfolding write_command
write_command_ends fd cmd w fuel h =
    rounds-steady (λ _. negsuc 0) (write_round fd (cmd ++ 0 ∷ [])) (write_round-Consumes fd _) fuel
      (suc (length w.replies)) 0 w h (omega arith)
