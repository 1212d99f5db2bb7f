-- ===== src/Base/Family.antt =====
-- Families indexed by numbers: a change at one index, and the sum of a weight over the first members.
use Prim.Native.Nat.{ℕ, zero, suc, ◌+◌, ◌≤◌, ◌<◌}
use mathlib.Core.Path.{◌≡◌, refl}
use mathlib.Core.Logic.{◌≢◌}
use native.Mathlib.Decide.{dec_lt}
use native.Mathlib.Omega.{arith}
use zinfo_tech.Base.Tests.{◌==◌, if◌then◌else◌}

abbrev pub set_at {ℓ} : {A : Type ℓ} → (ℕ → A) → ℕ → A → ℕ → A
set_at f k a j = if k == j then a else f j

module _ {ℓ} {A : Type ℓ} (weight : A → ℕ) where
  pub sum_of : ℕ → (ℕ → A) → ℕ
  sum_of zero f = 0
  sum_of (suc n) f = weight (f n) + sum_of n f

  sum_of-beyond : (n : ℕ) (f : ℕ → A) (k : ℕ) (a : A) → n ≤ k → sum_of n (set_at f k a) ≡ sum_of n f
  unfolding sum_of
  sum_of-beyond zero f k a h = refl
  sum_of-beyond (suc n) f k a h = ground (arith, sum_of-beyond n f k a)

  pub sum_of-set_at :
      (n : ℕ) (f : ℕ → A) (k : ℕ) (a : A)
      → k < n
      → sum_of n (set_at f k a) + weight (f k) ≡ sum_of n f + weight a
  unfolding sum_of
  sum_of-set_at zero f k a h = absurd (omega arith)
  sum_of-set_at (suc n) f k a h = elim (dec_lt k n) [
    | yes lower ↦ ground (arith, sum_of-set_at n f k a lower)
    | no here ↦ ground (arith, sum_of-beyond n f k a)
  ]

  pub sum_of-one : (n : ℕ) (f : ℕ → A) (k : ℕ) → k < n → weight (f k) ≤ sum_of n f
  unfolding sum_of
  sum_of-one zero f k h = absurd (omega arith)
  sum_of-one (suc n) f k h = elim (dec_lt k n) [
    | yes lower ↦ omega (arith, sum_of-one n f k lower)
    | no here ↦ ground arith
  ]

  -- Two members have their place in the sum.
  pub sum_of-two :
      (n : ℕ) (f : ℕ → A) (j k : ℕ)
      → j < n
      → k < n
      → j ≢ k
      → weight (f j) + weight (f k) ≤ sum_of n f
  unfolding sum_of
  sum_of-two zero f j k hj hk ne = absurd (omega arith)
  sum_of-two (suc n) f j k hj hk ne = elim (dec_lt j n) [
    | yes lj ↦ elim (dec_lt k n) [
      | yes lk ↦ omega (arith, sum_of-two n f j k lj lk ne)
      | no ek ↦ ground (arith, sum_of-one n f j lj)
    ]
    | no ej ↦ ground (arith, sum_of-one n f k)
  ]

  pub sum_of-zero : (n : ℕ) (f : ℕ → A) → ((k : ℕ) → k < n → weight (f k) ≡ 0) → sum_of n f ≡ 0
  unfolding sum_of
  sum_of-zero zero f h = refl
  sum_of-zero (suc n) f h =
      omega (arith, h n (omega arith), sum_of-zero n f (λ k lt. h k (omega arith)))

module _ {ℓ} {A : Type ℓ} (f : ℕ → A) (k : ℕ) (a : A) where
  pub set_at-here : (j : ℕ) → k ≡ j → set_at f k a j ≡ a
  set_at-here j h = ground arith

  pub set_at-other : (j : ℕ) → k ≢ j → set_at f k a j ≡ f j
  set_at-other j h = ground arith
