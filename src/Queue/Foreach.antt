-- ===== src/Queue/Foreach.antt =====
-- `zqueue_foreach` of zit/container/queue.h.
use zinfo_tech.Base.{
  ◌>>=◌, ℕ, zero, suc, ◌+◌, ◌-◌, ◌*◌, ◌<◌, ◌≡◌, refl, ap, ◌∙◌, true, false, Option, none, some,
  List, [], ◌∷◌, ◌++◌, arith, if◌then◌else◌,
}
use native.Mathlib.Decide.{dec_lt}
use zinfo_tech.Base.Int.{ℤ, pos, pos_part, ◌+ℤ◌, ltb_ℤ, ltb_pos, add_pos}
use zinfo_tech.Queue.{Chunk, Queue}
use zinfo_tech.Queue.Slots.{vals, items, null, mul_lt, mul_le}
use zinfo_tech.Queue.Steps.{state}
use zinfo_tech.Queue.Refine.{IsQueue, valid}

module _ {A : Type 0} where
  -- The inner loop: the values from `p` up to `end` in one chunk; `none` when the fuel runs out.
  unfoldable pub walk : ℕ → (ℕ → A) → ℕ → ℤ → ℤ → Option (List A)
  walk zero f w p end = none
  walk (suc k) f w p end =
      let rest = walk k f w (p +ℤ pos w) end in
      if ltb_ℤ p end then (rest >>= λ xs. some (f (pos_part p) ∷ xs)) else some []

  -- The outer loop, along `next`. The last chunk is `end_chunk`.
  unfoldable pub walk_chunks : ℕ → Queue A → ℤ → List (Chunk A) → Option (List A)
  walk_chunks fuel q p [] = some []
  walk_chunks fuel q p (c ∷ r) =
      walk fuel c.value q.value_size p (if null r then q.end_pos else pos q.chunk_length) >>= λ xs.
      walk_chunks fuel q (pos 0) r >>= λ ys. some (xs ++ ys)

  -- The values that the operation is called with, in order.
  unfoldable pub foreach : ℕ → Queue A → Option (List A)
  unfolding walk walk_chunks
  foreach fuel q = walk_chunks fuel q q.begin_pos q.chunks

  walk-vals :
      (fuel : ℕ) (f : ℕ → A) (w i j : ℕ)
      → 0 < w
      → j - i < fuel
      → walk fuel f w (pos (i * w)) (pos (j * w)) ≡ some (vals f w i (j - i))
  unfolding walk vals
  walk-vals zero f w i j hw h = absurd (omega arith)
  walk-vals (suc k) f w i j hw h = elim (dec_lt i j) [
    | yes below ↦
        let test : ltb_ℤ (pos (i * w)) (pos (j * w)) ≡ true =
          ground (arith, ltb_pos (i * w) (j * w), mul_lt i j w hw below) in
        let e : pos (i * w) +ℤ pos w ≡ pos ((i + 1) * w) =
          add_pos (i * w) w ∙ ap pos (omega arith) in
        let d : j - i ≡ suc (j - (i + 1)) = omega arith in
        rw (test, e, walk-vals k f w (i + 1) j hw (omega arith), d) refl
    | no above ↦
        let test : ltb_ℤ (pos (i * w)) (pos (j * w)) ≡ false =
          ground (arith, ltb_pos (i * w) (j * w), mul_le j i w (omega arith)) in
        let d : j - i ≡ 0 = omega arith in rw (test, d) refl
  ]

  walk_chunks-items :
      (fuel n w : ℕ) (q : Queue A) (i j : ℕ) (cs : List (Chunk A))
      → q.value_size ≡ w
      → q.chunk_length ≡ n * w
      → q.end_pos ≡ pos (j * w)
      → 0 < w
      → n < fuel
      → j < fuel
      → walk_chunks fuel q (pos (i * w)) cs ≡ some (items n w i cs j)
  unfolding walk_chunks items
  walk_chunks-items fuel n w q i j [] ew el ee hw hn hj = refl
  walk_chunks-items fuel n w q i j (c ∷ []) ew el ee hw hn hj =
      rw (ew, ee, walk-vals fuel c.value w i j hw (omega arith)) refl
  walk_chunks-items fuel n w q i j (c ∷ d ∷ r) ew el ee hw hn hj =
      let head_is : walk fuel c.value q.value_size (pos (i * w)) (pos q.chunk_length)
          ≡ some (vals c.value w i (n - i)) =
        rw (ew, el) (walk-vals fuel c.value w i n hw (omega arith)) in
      let start : pos 0 ≡ pos (0 * w) = ap pos (omega arith) in
      ap (λ o. o >>= λ xs. walk_chunks fuel q (pos 0) (d ∷ r) >>= λ ys. some (xs ++ ys)) head_is
      ∙ ap (λ o. o >>= λ ys. some (vals c.value w i (n - i) ++ ys))
          (ap (λ p. walk_chunks fuel q p (d ∷ r)) start
            ∙ walk_chunks-items fuel n w q 0 j (d ∷ r) ew el ee hw hn hj)

  -- `zqueue_foreach` on a valid queue ends, and calls the operation with every value once, the oldest first.
  pub foreach-IsQueue :
      {n w : ℕ} {q : Queue A} {xs : List A} (fuel : ℕ)
      → IsQueue n w q xs
      → n < fuel
      → foreach fuel q ≡ some xs
  unfolding foreach
  foreach-IsQueue {n} {w} fuel (valid cs spare s i j hw hi hj sp e se sb) enough =
      walk_chunks-items fuel n w (state n w cs spare s i j) i j cs refl refl refl hw enough
        (omega arith)
      ∙ ap some e
