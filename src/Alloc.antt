-- ===== src/Alloc.antt =====
-- The allocator of blocks of one size, of zit/memory/alloc.h and src/memory.c.
-- A block is the address of its chunk and its byte offset in it. `chunks` are the chunks of the
-- memory queue, newest first; of that queue the allocator uses only the end. `mem` is what the
-- system's allocator returns, a fresh address or NULL. A pointer in front of the chunk's memory is a
-- fault, `none`, and so is a lock that is never free.
pub mod Valid
pub mod Carve
pub mod Pop
pub mod Push
pub mod Created
pub mod Uses
mod Tests
use zinfo_tech.Base.{
  ◌>>=◌, ℕ, ◌+◌, ◌-◌, ◌*◌, ◌%◌, ◌^◌, Bool, true, false, ◌&&◌, Option, none, some, List, [], ◌∷◌,
  ◌++◌, Err, ok, mem_insufficient, mem_outofbounds, inc32, ltb, leb, ◌==◌, if◌then◌else◌,
}
use zinfo_tech.Base.Int.{ℤ, pos, pos_part, ltb_ℤ, leb_ℤ}
use zinfo_tech.Queue.{Chunk, Queue, create}
use zinfo_tech.Queue.Locked.{Shared, lock_push}
use zinfo_tech.Queue.Threads.{take_front}

pub record Block : Type 0 where
  pub chunk : ℕ
  pub byte : ℕ

abbrev pub same : Block → Block → Bool
same b c = (b.chunk == c.chunk) && (b.byte == c.byte)

abbrev pub null_block : Block
null_block = record { chunk = 0; byte = 0 }

-- `zalloc_t`, with the fields of `mem_que` that it uses, and what lies in each block.
pub record Alloc (A : Type 0) : Type 0 where
  pub chunks : List ℕ
  pub end_pos : ℕ
  pub chunk_size : ℕ
  pub value_size : ℕ
  pub chunk_length : ℕ
  pub rec_que : Queue Block
  pub spin_mo : Bool
  pub spin_ri : Bool
  pub spin_ro : Bool
  pub chk_cnt : ℕ
  pub max_mem : ℕ
  pub content : Block → A

-- More than 1 MB and at most 512 MB, or 32 MB.
unfoldable pub limit : ℤ → ℕ
limit l =
    if ltb_ℤ (pos (1024 * 1024)) l && leb_ℤ l (pos (512 * 1024 * 1024))
    then pos_part l
    else 32 * 1024 * 1024

abbrev pub addresses : List (Chunk Block) → List ℕ
addresses [] = []
addresses (c ∷ cs) = addresses cs ++ (c.addr ∷ [])

-- What the system's allocator returns for the three pieces of a queue.
abbrev pub Pieces : Type 0
Pieces = Option ℕ × Option ℕ × Option ℕ

module _ {A : Type 0} where
  -- `end_pos -= value_size`, and the block there.
  abbrev pub carve_at : List ℕ → Alloc A → Option (Err × Option Block × Alloc A)
  carve_at [] a = none
  carve_at (c ∷ cs) a =
      let p = a.end_pos - a.value_size in
      if ltb a.end_pos a.value_size
      then none
      else some (ok, some (record { chunk = c; byte = p }), record a { end_pos = p })

  abbrev pub carve : Alloc A → Option (Err × Option Block × Alloc A)
  carve a = carve_at a.chunks a

  abbrev pub over_limit : Alloc A → Bool
  over_limit a = ltb a.max_mem ((a.chunk_size * a.value_size * a.chk_cnt) % 2 ^ 32)

module _ {A : Type 0} (zeros : A) where
  -- A chunk, zeroed, behind `end_chunk`.
  abbrev pub grown : ℕ → Alloc A → Alloc A
  grown c a = record a {
    chk_cnt = inc32 a.chk_cnt;
    chunks = c ∷ a.chunks;
    end_pos = a.chunk_length;
    content = λ b. if b.chunk == c then zeros else a.content b;
  }

  abbrev pub link : Option ℕ → Alloc A → Option (Err × Option Block × Alloc A)
  link none a = some (mem_insufficient, none, a)
  link (some c) a = carve (grown c a)

  unfoldable pub from_memory : Option ℕ → Alloc A → Option (Err × Option Block × Alloc A)
  from_memory mem a =
      if a.spin_mo
      then none
      else (if a.end_pos == 0
          then (if over_limit a then some (mem_outofbounds, none, a) else link mem a)
          else carve a)

  -- From the recycle queue, and if that has no block from the memory queue.
  unfoldable pub popped :
      Option ℕ → Err → Option Block → Alloc A → Option (Err × Option Block × Alloc A)
  unfolding from_memory
  popped mem ok b a = some (ok, b, a)
  popped mem e b a = from_memory mem a

  unfoldable pub pop : Option ℕ → Alloc A → Option (Err × Option Block × Alloc A)
  unfolding popped
  pop mem a = take_front (record { held = a.spin_ro; que = a.rec_que }) >>= λ r.
      popped mem r.0 r.1 (record a { rec_que = r.2.que; spin_ro = r.2.held })

  abbrev pub cleared : Block → Alloc A → Alloc A
  cleared b a = record a { content = λ c. if same b c then zeros else a.content c }

  unfoldable pub push : Option ℕ → Block → Alloc A → Option (Err × Alloc A)
  push mem b a = lock_push null_block mem (record { held = a.spin_ri; que = a.rec_que }) b >>= λ r.
      some (r.0, record (cleared b a) { rec_que = r.1.que; spin_ri = r.1.held })

  abbrev pub assemble :
      ℤ → Option ℕ → Option (Queue Block) → Option (Queue Block) → Err × Option (Alloc A)
  assemble l (some _) (some mque) (some rque) = (
    ok,
    some (record {
      chunks = addresses mque.chunks;
      end_pos = mque.chunk_length;
      chunk_size = mque.chunk_size;
      value_size = mque.value_size;
      chunk_length = mque.chunk_length;
      rec_que = rque;
      spin_mo = false;
      spin_ri = false;
      spin_ro = false;
      chk_cnt = 0;
      max_mem = limit l;
      content = λ _. zeros;
    }),
  )
  assemble l _ _ _ = (mem_insufficient, none)

  unfoldable pub create_alloc : Option ℕ → Pieces → Pieces → ℕ → ℕ → ℤ → Err × Option (Alloc A)
  unfolding limit
  create_alloc alc m r block_size capacity l =
      assemble l alc (create null_block m.0 m.1 m.2 capacity block_size).1
        (create null_block r.0 r.1 r.2 512 8).1
