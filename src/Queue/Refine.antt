-- ===== src/Queue/Refine.antt =====
-- The chunk queue as a double-ended queue of values.
use zinfo_tech.Base.{
  ℕ, ◌+◌, ◌*◌, ◌^◌, ◌<◌, ◌≡◌, ◌≢◌, sym, ap, ◌∙◌, false, Option, none, some, List, [], ◌∷◌, ◌++◌,
  arith, ok, mem_insufficient, inc32, Option-cases, inl, inr,
}
use native.Mathlib.Decide.{dec_lt}
use zinfo_tech.Base.Lists.{length, length-append}
use zinfo_tech.Queue.{Chunk, Queue, push, take_chunk, write_end, store_end}
use zinfo_tech.Queue.Slots.{items, Spans}
use zinfo_tech.Queue.Items.{items-write_end, items-snoc, Spans-write_end, Spans-snoc}
use zinfo_tech.Queue.Steps.{
  state, store_end-slot, advance_end-room, advance_end-full, advance_end-fail, slot_low,
}
use zinfo_tech.Base.Int.{pos, leb_ℤ, ◌+ℤ◌}

-- `q` holds the values `xs`, in order from `begin_pos` to `end_pos`. Both positions lie at a slot
-- inside a chunk, and the end is never left at the end of a chunk.
pub data IsQueue {A : Type 0} (n w : ℕ) : Queue A → List A → Type 0 where
  valid :
      (cs : List (Chunk A)) (spare : Option (Chunk A)) (s i j : ℕ) {xs : List A}
      → 0 < w
      → i < n
      → j < n
      → Spans i cs j
      → items n w i cs j ≡ xs
      → s ≡ length xs
      → s < 2 ^ 31
      → IsQueue n w (state n w cs spare s i j) xs

inc32-snoc :
    {A : Type 0} (xs : List A) (v : A) (s : ℕ)
    → s ≡ length xs
    → length xs + 1 < 2 ^ 31
    → (inc32 s ≡ length (xs ++ (v ∷ []))) × (inc32 s < 2 ^ 31)
inc32-snoc xs v s e h = omega (arith, length-append xs (v ∷ []))

module _ {A : Type 0} (n w i j : ℕ) (cs : List (Chunk A)) (v : A) (hw : 0 < w)
    (sp : Spans i cs j) where
  written-Spans : Spans i (write_end cs (j * w) v) (j + 1)
  written-Spans = Spans-write_end cs i j (j + 1) (j * w) v (omega arith) sp

  module _ {xs : List A} (e : items n w i cs j ≡ xs) where
    items-written : items n w i (write_end cs (j * w) v) (j + 1) ≡ xs ++ (v ∷ [])
    items-written = items-write_end n w hw cs i j v sp ∙ ap (λ t. t ++ (v ∷ [])) e

    items-linked :
        (c : Chunk A)
        → j + 1 ≡ n
        → items n w i (write_end cs (j * w) v ++ (c ∷ [])) 0 ≡ xs ++ (v ∷ [])
    items-linked c h =
        items-snoc n w hw (write_end cs (j * w) v) c i (j + 1) written-Spans
        ∙ ap (λ t. items n w i (write_end cs (j * w) v) t) (sym h)
        ∙ items-written

module _ {A : Type 0} (zeros : A) (n w : ℕ) (cs : List (Chunk A)) (spare : Option (Chunk A))
    (s i j : ℕ) (mem : Option ℕ) (v : A) (hw : 0 < w) (hj : j < n) where
  push-room :
      j + 1 < n
      → push zeros mem (state n w cs spare s i j) v
        ≡ some (ok, state n w (write_end cs (j * w) v) spare (inc32 s) i (j + 1))
  unfolding push
  push-room h = rw (
    store_end-slot n w cs spare s i j v hj,
    advance_end-room n w (write_end cs (j * w) v) spare s zeros mem i j hw h,
  )

  push-full :
      {c : Chunk A}
      → j + 1 ≡ n
      → take_chunk zeros mem (state n w cs spare s i j) ≡ some c
      → push zeros mem (state n w cs spare s i j) v
        ≡ some (ok, state n w (write_end cs (j * w) v ++ (c ∷ [])) none (inc32 s) i 0)
  unfolding push take_chunk
  push-full {c} h t = rw (
    store_end-slot n w cs spare s i j v hj,
    advance_end-full n w (write_end cs (j * w) v) spare s zeros mem i j {c = c} h t,
  )

  push-fail :
      j + 1 ≡ n
      → take_chunk zeros mem (state n w cs spare s i j) ≡ none
      → push zeros mem (state n w cs spare s i j) v
        ≡ some (mem_insufficient, state n w (write_end cs (j * w) v) none s i (j + 1))
  unfolding push take_chunk
  push-fail h t = rw (
    store_end-slot n w cs spare s i j v hj,
    advance_end-fail n w (write_end cs (j * w) v) spare s zeros mem i j h t,
  )

module _ {A : Type 0} (zeros : A) where
  -- With a chunk to be had should the last one fill up, a push succeeds and appends the value.
  pub push-snoc :
      {n w : ℕ} {q : Queue A} {xs : List A} (mem : Option ℕ) (v : A)
      → IsQueue n w q xs
      → take_chunk zeros mem q ≢ none
      → length xs + 1 < 2 ^ 31
      → (q' : Queue A) × (push zeros mem q v ≡ some (ok, q')) × IsQueue n w q' (xs ++ (v ∷ []))
  push-snoc {n} {w} mem v (valid cs spare s i j {xs} hw hi hj sp e se sb) grows small =
      let cs' : List (Chunk A) = write_end cs (j * w) v in
      let size = inc32-snoc xs v s se small in
      elim (dec_lt (j + 1) n) [
        | yes h ↦ (
          state n w cs' spare (inc32 s) i (j + 1),
          push-room zeros n w cs spare s i j mem v hw hj h,
          valid cs' spare (inc32 s) i (j + 1) hw hi h (written-Spans n w i j cs v hw sp)
              (items-written n w i j cs v hw sp e) size.0 size.1,
        )
        | no h ↦ elim (Option-cases (take_chunk zeros mem (state n w cs spare s i j))) [
          | inl t ↦ absurd (grows t)
          | inr (c, t) ↦ (
            state n w (cs' ++ (c ∷ [])) none (inc32 s) i 0,
            push-full zeros n w cs spare s i j mem v hw hj {c = c} (omega arith) t,
            valid (cs' ++ (c ∷ [])) none (inc32 s) i 0 hw hi (omega arith)
                (Spans-snoc cs' c i 0 (j + 1) (written-Spans n w i j cs v hw sp))
                (items-linked n w i j cs v hw sp e c (omega arith)) size.0 size.1,
          )
        ]
      ]

  -- Beyond the last slot of a chunk there is no room for a value.
  push_outside :
      (n w : ℕ) (cs : List (Chunk A)) (spare : Option (Chunk A)) (s i j : ℕ) (mem : Option ℕ)
      (v : A)
      → 0 < w
      → j ≡ n
      → push zeros mem (state n w cs spare s i j) v ≡ none
  unfolding push store_end
  push_outside n w cs spare s i j mem v hw h =
      let t : leb_ℤ (pos (j * w) +ℤ pos w) (pos (n * w)) ≡ false = rw h (ground arith) in
      rw (slot_low j w, t)

  -- A push that reports that there is no memory leaves `end_pos` behind the last slot of the chunk:
  -- whatever is pushed next is copied outside the chunk.
  pub push-push_failed :
      {n w : ℕ} {q q' : Queue A} {xs : List A} (mem mem' : Option ℕ) (v u : A)
      → IsQueue n w q xs
      → push zeros mem q v ≡ some (mem_insufficient, q')
      → push zeros mem' q' u ≡ none
  push-push_failed {n} {w} {q' = q'} mem mem' v u (valid cs spare s i j hw hi hj sp e se sb)
        failed =
      elim (dec_lt (j + 1) n) [
        | yes h ↦ cc (push-room zeros n w cs spare s i j mem v hw hj h)
        | no h ↦ elim (Option-cases (take_chunk zeros mem (state n w cs spare s i j))) [
          | inr (c, t) ↦ cc (push-full zeros n w cs spare s i j mem v hw hj {c = c} (omega arith) t)
          | inl t ↦
              let left : state n w (write_end cs (j * w) v) none s i (j + 1) ≡ q' =
                cc (push-fail zeros n w cs spare s i j mem v hw hj (omega arith) t) in
              rw (← left)
                (push_outside n w (write_end cs (j * w) v) none s i (j + 1) mem' u hw (omega arith))
        ]
      ]
