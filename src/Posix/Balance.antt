-- ===== src/Posix/Balance.antt =====
-- Balanced actions compose, and a loop of balanced rounds is balanced.
use yc_360_script.Prelude.{ℕ, ◌+◌, ◌≡◌, arith}
use yc_360_script.Posix.{World, M}
use yc_360_script.Posix.Loop.{Next, forever, forever_inv}
use yc_360_script.Posix.Trace.{Kind, opened, closed, Balanced}

-- `l` times more given back than handed out.
abbrev pub Drops : Kind → ℕ → World → World → ℕ → Type 0
Drops k v w w' l =
    opened k v w'.trace + closed k v w.trace + l ≡ closed k v w'.trace + opened k v w.trace

pub forever-Balanced {ℓ κ} :
    {S : Type ℓ} {A : Type κ} (k : Kind) (v : ℕ) (out : S → A) (body : S → M (Next S A))
    → ((s : S) (w : World) → Balanced k v w (body s w).1)
    → (s : S) (w : World) → Balanced k v w (forever out body s w).1
forever-Balanced k v out body round s w =
    forever_inv out body (λ _ w'. Balanced k v w w') (λ _ w'. Balanced k v w w') (λ _ _ p. p)
      (λ s' w' _ p _. omega (arith, round s' w')) (λ s' w' _ p _. omega (arith, round s' w')) s w
      (omega arith)
