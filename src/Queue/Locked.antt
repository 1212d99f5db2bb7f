-- ===== src/Queue/Locked.antt =====
-- The variants of zit/container/queue.h for several threads, which hold a spin lock meanwhile.
use zinfo_tech.Base.{
  ◌>>=◌, ℕ, ◌-◌, Bool, true, false, Option, none, some, [], ◌∷◌, ◌++◌, Err, ok, mem_insufficient,
  not_exist, inc32, dec32, if◌then◌else◌, ◌==◌,
}
use zinfo_tech.Base.Lists.{length}
use zinfo_tech.Base.Int.{ℤ, pos, ◌+ℤ◌, ltb_ℤ}
use zinfo_tech.Queue.{
  Chunk, Queue, store_end, advance_end, retreat_begin, fill_front, read, first_chunk, last_chunk,
  step_begin, retreat_end, take_chunk,
}

-- A pointer into the queue: the number of the chunk, and the byte in it.
pub record Place : Type 0 where
  pub chunk : ℕ
  pub byte : ℤ

-- A pointer to a value, `chunk->value + byte`, with the chunk as it is when the lock is given back: a
-- later call may write there, or free the chunk, before the caller reads the value.
pub record Pointer (A : Type 0) : Type 0 where
  pub chunk : Chunk A
  pub byte : ℤ

-- A queue and its lock.
pub record Shared (A : Type 0) : Type 0 where
  pub held : Bool
  pub que : Queue A

module _ {A : Type 0} where
  -- `zspin_lock`, where nobody else runs: on a lock that is held it never returns, `none`.
  abbrev pub acquire : Shared A → Option (Queue A)
  acquire s = if s.held then none else some s.que

  abbrev pub holding : Queue A → Shared A
  holding q = record { held = true; que = q }

  abbrev pub released : Queue A → Shared A
  released q = record { held = false; que = q }

  unfoldable pub lock_pop : Shared A → Option (Err × Option (Pointer A) × Shared A)
  unfolding first_chunk step_begin
  lock_pop s = acquire s >>= λ q.
      if q.size == 0
      then some (not_exist, none, released q)
      else (first_chunk q.chunks >>= λ c. step_begin (record q { size = dec32 q.size }) >>= λ q'.
          some (ok, some (record { chunk = c; byte = q.begin_pos }), released q'))

  unfoldable pub lock_pop_back : Shared A → Option (Err × Option (Pointer A) × Shared A)
  unfolding retreat_end last_chunk
  lock_pop_back s = acquire s >>= λ q.
      if q.size == 0
      then some (not_exist, none, released q)
      else (retreat_end (record q { size = dec32 q.size }) >>= λ q'. last_chunk q'.chunks >>= λ c.
          some (ok, some (record { chunk = c; byte = q'.end_pos }), released q'))

  -- The value is read where it lies, with the lock still held, and let go by `unlock_front`.
  unfoldable pub lock_front : Shared A → Option (Err × Option A × Shared A)
  unfolding read first_chunk
  lock_front s = acquire s >>= λ q.
      if q.size == 0
      then some (not_exist, none, released q)
      else (read q (first_chunk q.chunks) q.begin_pos >>= λ v. some (ok, some v, holding q))

  unfoldable pub unlock_front : Shared A → Option (Shared A)
  unfolding step_begin
  unlock_front s =
      step_begin (record s.que { size = dec32 s.que.size }) >>= λ q'. some (released q')

  unfoldable pub unlock_back_pos : Shared A → Shared A
  unlock_back_pos s = released (record s.que { size = inc32 s.que.size })

module _ {A : Type 0} (zeros : A) (mem : Option ℕ) where
  unfoldable pub lock_push : Shared A → A → Option (Err × Shared A)
  unfolding store_end advance_end
  lock_push s v = acquire s >>= λ q.
      store_end q v >>= λ q'. let (e, q'') = advance_end zeros mem q' in some (e, released q'')

  unfoldable pub lock_push_front : Shared A → A → Option (Err × Shared A)
  unfolding fill_front retreat_begin
  lock_push_front s v = acquire s >>= λ q.
      fill_front zeros ok v (retreat_begin zeros mem q) >>= λ r. some (r.0, released r.1)

  -- The place for a value. The lock is held on `ok`, until `unlock_back_pos`.
  unfoldable pub lock_back_pos : Shared A → Option (Err × Place × Shared A)
  unfolding take_chunk
  lock_back_pos s = acquire s >>= λ q.
      let place : Place = record { chunk = length q.chunks - 1; byte = q.end_pos } in
      let p = q.end_pos +ℤ pos q.value_size in
      if ltb_ℤ p (pos q.chunk_length)
      then some (ok, place, holding (record q { end_pos = p }))
      else elim (take_chunk zeros mem q) [
        | none ↦
            some (mem_insufficient, place, released (record q { end_pos = p; spare_chunk = none }))
        | some c ↦ some (
          ok,
          place,
          holding (record q { chunks = q.chunks ++ (c ∷ []); spare_chunk = none; end_pos = pos 0 }),
        )
      ]
