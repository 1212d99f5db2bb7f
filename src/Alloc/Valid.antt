-- ===== src/Alloc/Valid.antt =====
-- What holds of an allocator of zit/memory/alloc.h whose users have some of its blocks.
use zinfo_tech.Base.{
  ℕ, ◌+◌, ◌*◌, ◌^◌, ◌≤◌, ◌<◌, ◌≡◌, false, List, [], ◌∷◌, if◌then◌else◌, ◌==◌, leb,
}
use zinfo_tech.Base.Lists.{length}
use zinfo_tech.Queue.Refine.{IsQueue}
use zinfo_tech.Alloc.{Alloc, Block, same}

-- How often the block is in the list.
abbrev pub count : Block → List Block → ℕ
count b [] = 0
count b (x ∷ xs) = (if same x b then 1 else 0) + count b xs

-- 1 if the chunk is one of these.
abbrev pub within : List ℕ → ℕ → ℕ
within [] k = 0
within (c ∷ cs) k = if k == c then 1 else within cs k

-- 1 if the block was cut off: behind `p` in the newest chunk, or anywhere in another.
abbrev pub carved : List ℕ → ℕ → Block → ℕ
carved [] p b = 0
carved (c ∷ cs) p b = if b.chunk == c then (if leb p b.byte then 1 else 0) else within cs b.chunk

-- The block is one of the slots of a chunk.
abbrev pub IsSlot : {A : Type 0} → Alloc A → Block → Type 0
IsSlot a b = (slot : ℕ) × (b.byte ≡ slot * a.value_size) × (slot < a.chunk_size)

-- Its users have the blocks `given`, and `xs` wait to be used again. No block is in two places, none
-- of them is among those still to be cut off, all are slots of chunks, and a block that no user has
-- is zeroed.
pub record IsAlloc {A : Type 0} (zeros : A) (a : Alloc A) (given xs : List Block) : Type 0 where
  pub free_mo : a.spin_mo ≡ false
  pub free_ri : a.spin_ri ≡ false
  pub free_ro : a.spin_ro ≡ false
  pub waiting : IsQueue 512 8 a.rec_que xs
  pub positive : 0 < a.value_size
  pub filled : 0 < a.chunk_size
  pub lengths : a.chunk_length ≡ a.chunk_size * a.value_size
  pub small : a.chunk_length < 2 ^ 31
  pub limited : a.max_mem ≤ 2 ^ 29
  pub left : ℕ
  pub left_is : a.end_pos ≡ left * a.value_size
  pub left_le : left ≤ a.chunk_size
  pub counted : length a.chunks ≡ a.chk_cnt + 1
  pub bounded : a.chunk_length * a.chk_cnt ≤ a.max_mem + a.chunk_length
  pub apart : (b : Block) → count b given + count b xs ≤ carved a.chunks a.end_pos b
  pub slots : (b : Block) → 0 < count b given + count b xs → IsSlot a b
  pub blank : (b : Block) → within a.chunks b.chunk ≡ 1 → count b given ≡ 0 → a.content b ≡ zeros
