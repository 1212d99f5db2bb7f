-- ===== src/Mempool/Bits.antt =====
-- What clearing the lowest bit of a number does, for zit/memory/mem_pool.h.
use Prim.Native.Nat.{bit_and, bit_and-bitwise, digits, min}
use zinfo_tech.Base.{
  ℕ, zero, suc, ◌+◌, ◌-◌, ◌*◌, ◌/◌, ◌%◌, ◌^◌, ◌≤◌, ◌<◌, ◌≡◌, refl, sym, arith, ◌∙◌, ap, ◌⊎◌, inl,
  inr,
}
use mathlib.Core.Path.{subst}
use native.Mathlib.Nat.{pow-suc}
use native.Mathlib.Decide.{dec_lt}
use zinfo_tech.Mempool.{clear_lowest}

-- The digits of a conjunction, with a bound on how many there are.
abbrev conj : ℕ → ℕ → ℕ → ℕ
conj bound x y = digits (λ _. zero) min bound x y

conj_zero : (bound y : ℕ) → conj bound 0 y ≡ 0
conj_zero zero y = refl
conj_zero (suc bound) y = refl

conj_bound : (j k x y : ℕ) → x ≤ j → x ≤ k → conj j x y ≡ conj k x y
conj_bound j k zero y hj hk = conj_zero j y ∙ sym (conj_zero k y)
conj_bound zero k (suc x) y hj hk = absurd (omega arith)
conj_bound (suc j) zero (suc x) y hj hk = absurd (omega arith)
conj_bound (suc j) (suc k) (suc x) y hj hk =
    omega (arith, conj_bound j k (suc x / 2) (y / 2) (omega arith) (omega arith))

zero_and : (y : ℕ) → bit_and 0 y ≡ 0
zero_and y = bit_and-bitwise 0 y

conj_low : (x y : ℕ) → bit_and x y ≡ min (x % 2) (y % 2) + bit_and (x / 2) (y / 2) * 2
conj_low zero y = omega (arith, zero_and y, zero_and (y / 2))
conj_low (suc x) y =
    let half : suc x / 2 ≤ x = omega arith in
    omega (
      arith,
      bit_and-bitwise (suc x) y,
      bit_and-bitwise (suc x / 2) (y / 2),
      conj_bound (suc x / 2) x (suc x / 2) (y / 2) (omega arith) half,
    )

conj_same : (bound x : ℕ) → x ≤ bound → bit_and x x ≡ x
conj_same bound zero h = refl
conj_same zero (suc x) h = absurd (omega arith)
conj_same (suc bound) (suc x) h =
    omega (arith, conj_low (suc x) (suc x), conj_same bound (suc x / 2) (omega arith))

clear_even : (m : ℕ) → 0 < m → clear_lowest (2 * m) ≡ 2 * clear_lowest m
clear_even m h =
    let half : 2 * m / 2 ≡ m = omega arith in
    let less : (2 * m - 1) / 2 ≡ m - 1 = omega arith in
    omega (
      arith,
      conj_low (2 * m) (2 * m - 1),
      ap (λ t. bit_and t ((2 * m - 1) / 2)) half,
      ap (λ t. bit_and m t) less,
    )

clear_odd : (m : ℕ) → clear_lowest (2 * m + 1) ≡ 2 * m
clear_odd m =
    let half : (2 * m + 1) / 2 ≡ m = omega arith in
    let less : (2 * m + 1 - 1) / 2 ≡ m = omega arith in
    omega (
      arith,
      conj_low (2 * m + 1) (2 * m + 1 - 1),
      ap (λ t. bit_and t ((2 * m + 1 - 1) / 2)) half,
      ap (λ t. bit_and m t) less,
      conj_same m m (omega arith),
    )

-- The highest bit of the number is the `k`th.
abbrev pub Highest : ℕ → ℕ → Type 0
Highest k n = (2 ^ k ≤ n) × (n < 2 ^ suc k)

pub pow_suc : (k : ℕ) → 2 ^ suc k ≡ 2 * 2 ^ k
pow_suc k = omega (arith, pow-suc 2 k)

pub pow_pos : (k : ℕ) → 0 < 2 ^ k
pow_pos zero = omega arith
pow_pos (suc k) = omega (arith, pow_suc k, pow_pos k)

pub Highest-half : (k n : ℕ) → Highest (suc k) n → Highest k (n / 2)
Highest-half k n h = omega (arith, pow_suc k, pow_suc (suc k), h)

Highest-double : (k n : ℕ) → Highest k n → Highest (suc k) (2 * n)
Highest-double k n h = omega (arith, pow_suc k, pow_suc (suc k), h)

abbrev Cleared : ℕ → ℕ → Type 0
Cleared k n =
    (clear_lowest n < n) × (((clear_lowest n ≡ 0) × (n ≡ 2 ^ k)) ⊎ Highest k (clear_lowest n))

double-Cleared : (k m : ℕ) → 0 < m → Cleared k m → Cleared (suc k) (2 * m)
double-Cleared k m pos (less, inl (gone, is)) = (
  omega (arith, clear_even m pos),
  inl (omega (arith, clear_even m pos), omega (arith, pow_suc k)),
)
double-Cleared k m pos (less, inr h) = (
  omega (arith, clear_even m pos),
  inr (rw (clear_even m pos) (Highest-double k (clear_lowest m) h)),
)

-- Clearing the lowest bit of a number that is not 0 makes it smaller. What is left is 0 for a power of 2, and
-- has the same highest bit otherwise.
pub clear-Highest :
    (k n : ℕ)
    → Highest k n
    → (clear_lowest n < n) × (((clear_lowest n ≡ 0) × (n ≡ 2 ^ k)) ⊎ Highest k (clear_lowest n))
clear-Highest zero n h = let e : n ≡ 1 = omega arith in rw e (omega arith, inl (refl, refl))
clear-Highest (suc k) n h = elim (dec_lt 0 (n % 2)) [
  | yes one ↦
      let e : n ≡ 2 * (n / 2) + 1 = omega arith in
      let c : clear_lowest n ≡ 2 * (n / 2) = ap clear_lowest e ∙ clear_odd (n / 2) in
      (omega (arith, c), inr (rw c (Highest-double k (n / 2) (Highest-half k n h))))
  | no zero_bit ↦
      let e : 2 * (n / 2) ≡ n = omega arith in
      let half = Highest-half k n h in
      subst (Cleared (suc k)) e
        (double-Cleared k (n / 2) (omega (arith, half, pow_pos k)) (clear-Highest k (n / 2) half))
]
