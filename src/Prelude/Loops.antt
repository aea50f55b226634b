-- ===== src/Prelude/Loops.antt =====
-- Counted loops, with their invariant rule.
use Prim.Native.Nat.{ℕ, zero, suc, ◌+◌, ◌≤◌, ◌<◌}
use mathlib.Core.Path.{◌≡◌, subst}
use native.Mathlib.Omega.{arith}

-- `rounds` rounds of a loop whose counter starts at `k`.
unfoldable pub for_range {ℓ} :
    {State : Type ℓ} (rounds k : ℕ) (round : ℕ → State → State) → State → State
for_range zero k round now = now
for_range (suc left) k round now = let next = round k now in for_range left (k + 1) round next

-- What holds at the start, and is kept by each round of a loop whose counter goes from `first` up to
-- `end`, holds behind the loop.
module _ {ℓ κ} {State : Type ℓ} (Holds : ℕ → State → Type κ) (round : ℕ → State → State)
    (first end : ℕ)
    (keep : (k : ℕ) (now : State)
      → first ≤ k
      → k < end
      → Holds k now
      → Holds (k + 1) (round k now)) where
  pub for_range_inv :
      (rounds k : ℕ) (now : State)
      → first ≤ k
      → k + rounds ≡ end
      → Holds k now
      → Holds end (for_range rounds k round now)
  unfolding for_range
  for_range_inv zero k now lo count start =
      let there : k ≡ end = omega arith in subst (λ x. Holds x now) there start
  for_range_inv (suc left) k now lo count start =
      for_range_inv left (k + 1) (round k now) (omega arith) (omega arith)
        (keep k now lo (omega arith) start)
