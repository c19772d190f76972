-- ===== src/Hotspot/Wait.antt =====
-- How long `start_attach_mechanism` waits for the JVM's socket.
use yc_360_script.Prelude.{ℕ, zero, suc, ◌+◌, ◌*◌, ◌≤◌, ◌<◌, ◌≡◌, refl, ◌⊎◌, Bytes, arith}
use yc_360_script.Prelude.Int.{ℤ, pos, negsuc}
use yc_360_script.Posix.{World, issue, nanosleep}
use yc_360_script.Posix.Trace.{slept, naps}
use yc_360_script.Hotspot.{check_socket, poll, poll_fuel}

module _ (tmp : Bytes) (nspid : ℤ) where
  -- With `k - 1` rounds done, each 20 ms longer than the one before, and `n` to come.
  Waited : ℕ → ℕ → World → ℤ → World → Type 0
  Waited n k w r w' =
      ((r ≡ pos 0)
        × (naps w'.trace ≤ naps w.trace + n)
        × (slept w'.trace + 10000000 * (k * k) ≤ slept w.trace + 6000000000 + 10000000 * k))
      ⊎ ((r ≡ negsuc 0)
          × (naps w'.trace ≡ naps w.trace + n)
          × (slept w'.trace + 10000000 * (k * k) ≡ slept w.trace + 6000000000 + 10000000 * k))

  -- More fuel than the rounds to come changes nothing.
  poll-steady :
      (n f k ts : ℕ) (w : World)
      → k + n ≡ 25
      → 0 < n
      → n ≤ f
      → ts ≡ 20000000 * k
      → poll tmp nspid f ts w ≡ poll tmp nspid n ts w
  unfolding poll
  poll-steady zero f k ts w h p q e = absurd (omega arith)
  poll-steady (suc n) zero k ts w h p q e = absurd (omega arith)
  poll-steady (suc zero) (suc f) k ts w h p q e = ground arith
  poll-steady (suc (suc n)) (suc f) k ts w h p q e =
      let w2 = (check_socket tmp nspid (issue (nanosleep ts) w).1).1 in
      ground (
        arith,
        poll-steady (suc n) f (k + 1) (ts + 20000000) w2 (omega arith) (omega arith) (omega arith)
            (omega arith),
      )

-- The fuel of `start_attach_mechanism` is enough: with more the wait is the same.
pub poll-poll_fuel :
    (tmp : Bytes) (nspid : ℤ) (f : ℕ) (w : World)
    → poll_fuel ≤ f
    → poll tmp nspid f 20000000 w ≡ poll tmp nspid poll_fuel 20000000 w
poll-poll_fuel tmp nspid f w h = poll-steady tmp nspid 24 f 1 20000000 w refl (omega arith) h refl

-- Nothing slept between two worlds.
Awake : World → World → Type 0
Awake w w' = (naps w'.trace ≡ naps w.trace) × (slept w'.trace ≡ slept w.trace)
