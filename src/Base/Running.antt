-- ===== src/Base/Running.antt =====
-- A program as steps between states: how many it takes, and where it comes to rest.
use Prim.Native.Nat.{ℕ, zero, suc, ◌+◌, ◌≤◌, ◌<◌}
use mathlib.Core.Logic.{◌⊎◌, inl, inr}
use native.Mathlib.Omega.{arith}

-- So many steps.
pub data Goes {S : Type 0} (Step : S → S → Type 0) (s : S) : ℕ → S → Type 0 where
  stays : Goes Step s 0 s
  goes : {k : ℕ} {t u : S} → Goes Step s k t → Step t u → Goes Step s (suc k) u

Goes-first :
    {S : Type 0} {Step : S → S → Type 0} {s t u : S} {k : ℕ}
    → Step s t
    → Goes Step t k u
    → Goes Step s (suc k) u
Goes-first r stays = goes stays r
Goes-first r (goes g x) = goes (Goes-first r g) x

-- Steps that keep a property and bring a measure down.
pub record Descends {S : Type 0} (Step : S → S → Type 0) (Ok : S → Type 0) (measure : S → ℕ)
    : Type 0 where
  pub keeps : {s t : S} → Ok s → Step s t → Ok t
  pub sinks : {s t : S} → Ok s → Step s t → measure t < measure s

module _ {S : Type 0} {Step : S → S → Type 0} {Ok : S → Type 0} {measure : S → ℕ}
    (d : Descends Step Ok measure) where
  pub Goes-Ok : {s t : S} {k : ℕ} → Goes Step s k t → Ok s → Ok t
  Goes-Ok stays h = h
  Goes-Ok (goes g r) h = d.keeps (Goes-Ok g h) r

  -- There are at most as many steps as the measure says.
  pub Goes-measure : {s t : S} {k : ℕ} → Goes Step s k t → Ok s → k + measure t ≤ measure s
  Goes-measure stays h = omega arith
  Goes-measure (goes g r) h = omega (arith, Goes-measure g h, d.sinks (Goes-Ok g h) r)

  -- If there is a step from each state that is not at rest, the program comes to rest.
  module _ (Rest : S → Type 0) (progress : (s : S) → Ok s → Rest s ⊎ ((t : S) × Step s t)) where
    rest_in : (m : ℕ) (s : S) → Ok s → measure s ≤ m → (k : ℕ) × (t : S) × Goes Step s k t × Rest t
    rest_in zero s h e = elim (progress s h) [
      | inl rest ↦ (0, s, stays, rest)
      | inr (t, r) ↦ absurd (omega (arith, d.sinks h r))
    ]
    rest_in (suc m) s h e = elim (progress s h) [
      | inl rest ↦ (0, s, stays, rest)
      | inr (t, r) ↦
          let (k, u, g, rest) = rest_in m t (d.keeps h r) (omega (arith, d.sinks h r)) in
          (suc k, u, Goes-first r g, rest)
    ]

    pub comes_to_rest : (s : S) → Ok s → (k : ℕ) × (t : S) × Goes Step s k t × Rest t
    comes_to_rest s h = rest_in (measure s) s h (omega arith)
