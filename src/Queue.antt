-- ===== src/Queue.antt =====
-- The chunk queue of zit/container/queue.h.
-- The chunks from `begin_chunk` along `next` are a list, whose last is `end_chunk`. A chunk's
-- memory holds at each byte offset the value that was copied there. An access outside the chunk, or
-- through a NULL chunk pointer, is a fault, `none`. `mem` is what the allocator returns, a fresh
-- address or NULL; a fresh chunk is zeroed.
pub mod Back
pub mod Created
pub mod Deque
pub mod Foreach
pub mod Front
pub mod Items
pub mod Locked
pub mod Refine
pub mod Slots
pub mod Steps
pub mod Threads
mod Tests
use zinfo_tech.Base.{
  ◌>>=◌, ℕ, ◌+◌, ◌-◌, ◌*◌, ◌<◌, Bool, true, false, ◌&&◌, Option, none, some, List, [], ◌∷◌, ◌++◌,
  leb, ltb, ◌==◌, if◌then◌else◌, Err, ok, mem_insufficient, not_exist, inc32, dec32,
}
use zinfo_tech.Base.Int.{ℤ, pos, negsuc, pos_part, ◌+ℤ◌, ◌-ℤ◌, ltb_ℤ, leb_ℤ, eqb_ℤ}

-- `zchk_t`: an address, and the memory behind the header.
pub record Chunk (A : Type 0) : Type 0 where
  pub addr : ℕ
  pub value : ℕ → A

-- `zqueue_t`; positions and sizes are counted in bytes.
pub record Queue (A : Type 0) : Type 0 where
  pub chunks : List (Chunk A)
  pub spare_chunk : Option (Chunk A)
  pub size : ℕ
  pub begin_pos : ℤ
  pub end_pos : ℤ
  pub chunk_size : ℕ
  pub value_size : ℕ
  pub chunk_length : ℕ

module _ {A : Type 0} where
  -- A value that starts at byte `p` lies within the chunk.
  abbrev pub in_chunk : Queue A → ℤ → Bool
  in_chunk q p = leb_ℤ (pos 0) p && leb_ℤ (p +ℤ pos q.value_size) (pos q.chunk_length)

  unfoldable pub write : Chunk A → ℕ → A → Chunk A
  write c p v = record c { value = λ k. if p == k then v else c.value k }

  unfoldable pub write_end : List (Chunk A) → ℕ → A → List (Chunk A)
  write_end [] p v = []
  write_end (c ∷ []) p v = write c p v ∷ []
  write_end (c ∷ d ∷ r) p v = c ∷ write_end (d ∷ r) p v

  unfoldable pub write_begin : List (Chunk A) → ℕ → A → List (Chunk A)
  write_begin [] p v = []
  write_begin (c ∷ r) p v = write c p v ∷ r

  -- `end_chunk`, and the chunks before it.
  unfoldable pub last_chunk : List (Chunk A) → Option (Chunk A)
  last_chunk [] = none
  last_chunk (c ∷ []) = some c
  last_chunk (c ∷ d ∷ r) = last_chunk (d ∷ r)

  unfoldable pub drop_last : List (Chunk A) → List (Chunk A)
  drop_last [] = []
  drop_last (c ∷ []) = []
  drop_last (c ∷ d ∷ r) = c ∷ drop_last (d ∷ r)

  unfoldable pub first_chunk : List (Chunk A) → Option (Chunk A)
  first_chunk [] = none
  first_chunk (c ∷ r) = some c

  -- `*pval = chunk->value + p`, read at once.
  unfoldable pub read : Queue A → Option (Chunk A) → ℤ → Option A
  read q none p = none
  read q (some c) p = if in_chunk q p then some (c.value (pos_part p)) else none

  -- `memcpy(que->end_chunk->value + que->end_pos, value, que->value_size)`
  unfoldable pub store_end : Queue A → A → Option (Queue A)
  store_end q v =
      if in_chunk q q.end_pos
      then some (record q { chunks = write_end q.chunks (pos_part q.end_pos) v })
      else none

  unfoldable pub store_begin : Queue A → A → Option (Queue A)
  store_begin q v =
      if in_chunk q q.begin_pos
      then some (record q { chunks = write_begin q.chunks (pos_part q.begin_pos) v })
      else none

  -- `begin_chunk = begin_chunk->next; begin_chunk->prev = NULL`, and the old one becomes the spare.
  unfoldable pub drop_begin_chunk : Queue A → Option (Queue A)
  drop_begin_chunk q = elim q.chunks [
    | [] ↦ none
    | c ∷ r ↦ elim r [
      | [] ↦ none
      | d ∷ s ↦ some (record q { chunks = d ∷ s; begin_pos = pos 0; spare_chunk = some c })
    ]
  ]

module _ {A : Type 0} (zeros : A) where
  -- `zatm_xchg_ptr(&spare_chunk, NULL)`, then `ZCHUNK_ALLOCX` if there was no spare.
  unfoldable pub take_chunk : Option ℕ → Queue A → Option (Chunk A)
  take_chunk mem q = elim q.spare_chunk [
    | some c ↦ some c
    | none ↦ elim mem [ none ↦ none | some a ↦ some (record { addr = a; value = λ _. zeros }) ]
  ]

  unfoldable pub create : Option ℕ → Option ℕ → Option ℕ → ℕ → ℕ → Err × Option (Queue A)
  create chunk que size chunk_size value_size = elim chunk [
    | none ↦ (mem_insufficient, none)
    | some a ↦ elim que [
      | none ↦ (mem_insufficient, none)
      | some _ ↦ elim size [
        | none ↦ (mem_insufficient, none)
        | some _ ↦ (
          ok,
          some (record {
            chunks = record { addr = a; value = λ _. zeros } ∷ [];
            spare_chunk = none;
            size = 0;
            begin_pos = pos 0;
            end_pos = pos 0;
            chunk_size = chunk_size;
            value_size = value_size;
            chunk_length = chunk_size * value_size;
          }),
        )
      ]
    ]
  ]

  -- The part of a push behind the copy: count the value, and link a chunk if this one is full.
  unfoldable pub advance_end : Option ℕ → Queue A → Err × Queue A
  advance_end mem q =
      let p = q.end_pos +ℤ pos q.value_size in
      if ltb_ℤ p (pos q.chunk_length)
      then (ok, record q { end_pos = p; size = inc32 q.size })
      else elim (take_chunk mem q) [
        | none ↦ (mem_insufficient, record q { end_pos = p; spare_chunk = none })
        | some c ↦ (
          ok,
          record q {
            chunks = q.chunks ++ (c ∷ []);
            spare_chunk = none;
            end_pos = pos 0;
            size = inc32 q.size;
          },
        )
      ]

  unfoldable pub push : Option ℕ → Queue A → A → Option (Err × Queue A)
  unfolding store_end advance_end take_chunk
  push mem q v = store_end q v >>= λ q'. some (advance_end mem q')

  -- The queue after the step back of `zqueue_push_front`; `none` when a chunk is wanting.
  unfoldable pub retreat_begin : Option ℕ → Queue A → Err × Queue A
  retreat_begin mem q =
      let p = q.begin_pos -ℤ pos q.value_size in
      if ltb_ℤ p (pos 0)
      then elim (take_chunk mem q) [
        | none ↦ (mem_insufficient, record q { begin_pos = p; spare_chunk = none })
        | some c ↦ (
          ok,
          record q {
            chunks = c ∷ q.chunks;
            spare_chunk = none;
            begin_pos = pos q.chunk_length -ℤ pos q.value_size;
          },
        )
      ]
      else (ok, record q { begin_pos = p })

  -- `answer` is what the function returns behind the copy.
  unfoldable pub fill_front : Err → A → Err × Queue A → Option (Err × Queue A)
  unfolding store_begin
  fill_front answer v (ok, q) =
      store_begin q v >>= λ q'. some (answer, record q' { size = inc32 q'.size })
  fill_front answer v (e, q) = some (e, q)

  -- `zqueue_push_front` ends without a `return`: what a caller sees then is undefined, and comes as
  -- an argument.
  unfoldable pub push_front : Err → Option ℕ → Queue A → A → Option (Err × Queue A)
  unfolding fill_front retreat_begin take_chunk
  push_front undefined mem q v = fill_front undefined v (retreat_begin mem q)

module _ {A : Type 0} where
  -- `begin_pos += value_size`, and on to the next chunk at the end of this one.
  unfoldable pub step_begin : Queue A → Option (Queue A)
  unfolding drop_begin_chunk
  step_begin q =
      let p = q.begin_pos +ℤ pos q.value_size in
      if eqb_ℤ p (pos q.chunk_length)
      then drop_begin_chunk (record q { begin_pos = p })
      else some (record q { begin_pos = p })

  -- The value goes out through `pval`.
  unfoldable pub pop : Queue A → Option (Err × Option A × Queue A)
  unfolding read first_chunk step_begin
  pop q =
      if q.size == 0
      then some (not_exist, none, q)
      else (read q (first_chunk q.chunks) q.begin_pos >>= λ v.
          step_begin (record q { size = dec32 q.size }) >>= λ q'. some (ok, some v, q'))

  -- `end_chunk = end_chunk->prev; end_chunk->next = NULL`, and the old one becomes the spare.
  unfoldable pub drop_end_chunk : Queue A → Option (Queue A)
  unfolding last_chunk drop_last
  drop_end_chunk q = last_chunk (drop_last q.chunks) >>= λ _. some (record q {
    chunks = drop_last q.chunks;
    spare_chunk = last_chunk q.chunks;
    end_pos = pos q.chunk_length -ℤ pos q.value_size;
  })

  unfoldable pub retreat_end : Queue A → Option (Queue A)
  unfolding drop_end_chunk
  retreat_end q =
      let p = q.end_pos -ℤ pos q.value_size in
      if ltb_ℤ p (pos 0) then drop_end_chunk q else some (record q { end_pos = p })

  unfoldable pub pop_back : Queue A → Option (Err × Option A × Queue A)
  unfolding read retreat_end last_chunk
  pop_back q =
      if q.size == 0
      then some (not_exist, none, q)
      else retreat_end (record q { size = dec32 q.size }) >>= λ q'.
          read q' (last_chunk q'.chunks) q'.end_pos >>= λ v. some (ok, some v, q')

  unfoldable pub front : Queue A → Option (Err × Option A)
  unfolding read first_chunk
  front q =
      if q.size == 0
      then some (not_exist, none)
      else read q (first_chunk q.chunks) q.begin_pos >>= λ v. some (ok, some v)

  unfoldable pub back : Queue A → Option (Err × Option A)
  unfolding read last_chunk drop_last
  back q =
      if q.size == 0
      then some (not_exist, none)
      else if eqb_ℤ q.end_pos (pos 0)
      then (read q (last_chunk (drop_last q.chunks)) (pos q.chunk_length -ℤ pos q.value_size)
          >>= λ v. some (ok, some v))
      else (read q (last_chunk q.chunks) (q.end_pos -ℤ pos q.value_size) >>= λ v. some (ok, some v))

  unfoldable pub size_of : Queue A → ℕ
  size_of q = q.size
