-- ===== src/Base/Families.antt =====
-- Families `ℕ → A`, one value for each goroutine: a change at one index, and the sum of a weight over the
-- first indices.
use Prim.Native.Nat.{ℕ, zero, suc, ◌+◌, ◌*◌, ◌≤◌, ◌<◌}
use mathlib.Core.Bool.{Bool, true, false}
use mathlib.Core.Logic.{◌⊎◌, inl, inr}
use mathlib.Core.Path.{◌≡◌, refl}
use native.Mathlib.Omega.{arith}
use wslcsession.Base.Tests.{◌==◌, if◌then◌else◌, Bool-cases}

module _ {ℓ} {A : Type ℓ} where
  abbrev pub update : (ℕ → A) → ℕ → A → ℕ → A
  update f i p j = if i == j then p else f j

  -- Among the first values, one fails the test or none does.
  pub find_failing :
      (test : A → Bool) (n : ℕ) (f : ℕ → A)
      → ((i : ℕ) × (test (f i) ≡ false)) ⊎ ((i : ℕ) → i < n → test (f i) ≡ true)
  find_failing test zero f = inr (λ i h. absurd (omega arith))
  find_failing test (suc n) f = elim (Bool-cases (test (f n))) [
    | inr fails ↦ inl (n, fails)
    | inl passes ↦ elim (find_failing test n f) [
      | inl found ↦ inl found
      | inr rest ↦ inr (λ i h. ground (arith, rest i))
    ]
  ]

  module _ (weight : A → ℕ) where
    pub total : ℕ → (ℕ → A) → ℕ
    total zero f = 0
    total (suc n) f = weight (f n) + total n f

    total_outside : (f : ℕ → A) (i : ℕ) (p : A) (n : ℕ) → n ≤ i → total n (update f i p) ≡ total n f
    unfolding total
    total_outside f i p zero h = refl
    total_outside f i p (suc n) h = ground (arith, total_outside f i p n)

    pub total-update :
        (f : ℕ → A) (i : ℕ) (p : A) (n : ℕ)
        → i < n
        → weight p + total n f ≡ weight (f i) + total n (update f i p)
    unfolding total
    total-update f i p zero h = absurd (omega arith)
    total-update f i p (suc n) h = ground (arith, total-update f i p n, total_outside f i p n)

    pub total_max : (k : ℕ) → ((p : A) → weight p ≤ k) → (n : ℕ) (f : ℕ → A) → total n f ≤ k * n
    unfolding total
    total_max k small zero f = omega arith
    total_max k small (suc n) f = grind (arith, small (f n), total_max k small n f)
