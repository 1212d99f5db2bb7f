-- ===== src/Mempool/Power.antt =====
-- The size of the buffer that zit/memory/mem_pool.h keeps for a request.
use native.Mathlib.Decide.{dec_lt}
use zinfo_tech.Base.{
  ℕ, zero, suc, ◌*◌, ◌/◌, ◌%◌, ◌^◌, ◌≤◌, ◌<◌, ◌≡◌, refl, arith, ◌∙◌, ap, inl, inr, some, false,
  ◌==◌,
}
use zinfo_tech.Mempool.{clear_lowest, last_left, power_of2}
use zinfo_tech.Mempool.Bits.{Highest, clear-Highest, pow_suc, pow_pos}

-- One round of the loop, on a number that is not 0.
last_left_step : (f old n : ℕ) → 0 < n → last_left (suc f) old n ≡ last_left f n (clear_lowest n)
unfolding last_left
last_left_step f old n h = let more : (n == 0) ≡ false = ground arith in rw more refl

last_left_end : (f old n : ℕ) → 0 < f → n ≡ 0 → last_left f old n ≡ some old
unfolding last_left
last_left_end zero old n h e = absurd (omega arith)
last_left_end (suc f) old n h e = rw e refl

last_left-Highest : (f old k n : ℕ) → n < f → Highest k n → last_left f old n ≡ some (2 ^ k)
last_left-Highest zero old k n h top = absurd (omega arith)
last_left-Highest (suc f) old k n h top =
    let (less, rest) = clear-Highest k n top in
    let some_left : 0 < n = omega (arith, pow_pos k, top) in
    last_left_step f old n some_left ∙ elim rest [
      | inl (gone, is) ↦ last_left_end f n (clear_lowest n) (omega arith) gone ∙ ap some is
      | inr left ↦ last_left-Highest f n k (clear_lowest n) (omega arith) left
    ]

-- Every number but 0 has a highest bit.
highest : (bound n : ℕ) → n ≤ bound → 0 < n → (k : ℕ) × Highest k n
highest zero n h pos = absurd (omega arith)
highest (suc bound) n h pos = elim (dec_lt n 2) [
  | yes one ↦ (zero, (omega arith, omega arith))
  | no more ↦
      let (k, (low, high)) = highest bound (n / 2) (omega arith) (omega arith) in
      (suc k, (omega (arith, pow_suc k, low), omega (arith, pow_suc k, pow_suc (suc k), high)))
]

-- `power_of2` of a size below 2^31, and not 0, ends with a power of 2 that is greater than the size, and at most
-- twice the size.
pub power_of2_bounds :
    (fuel size : ℕ)
    → 0 < size
    → size < 2 ^ 31
    → size * 2 < fuel
    → (k : ℕ) × (power_of2 fuel size ≡ some (2 ^ k)) × (size < 2 ^ k) × (2 ^ k ≤ 2 * size)
unfolding power_of2
power_of2_bounds fuel size pos small enough =
    let e : (size * 2) % 2 ^ 32 ≡ size * 2 = omega arith in
    let (k, (low, high)) = highest (size * 2) (size * 2) (omega arith) (omega arith) in
    (
      k,
      ap (last_left fuel size) e ∙ last_left-Highest fuel size k (size * 2) enough (low, high),
      omega (arith, pow_suc k, high),
      omega (arith, low),
    )

-- From 2^31 + 1 on the doubled size loses its highest bit: `power_of2` ends with a number that is smaller than the
-- size.
pub power_of2_short :
    (fuel size : ℕ)
    → 2 ^ 31 < size
    → size < 2 ^ 32
    → 2 ^ 32 < fuel
    → (k : ℕ) × (power_of2 fuel size ≡ some (2 ^ k)) × (2 ^ k < size)
unfolding power_of2
power_of2_short fuel size large small enough =
    let d = (size * 2) % 2 ^ 32 in
    let (k, (low, high)) = highest d d (omega arith) (omega arith) in
    (k, last_left-Highest fuel size k d (omega arith) (low, high), omega (arith, low))
