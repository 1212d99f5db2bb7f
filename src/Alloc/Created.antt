-- ===== src/Alloc/Created.antt =====
-- `zalloc_create` of src/memory.c.
use zinfo_tech.Base.{ℕ, ◌*◌, ◌^◌, ◌≤◌, ◌<◌, ◌≡◌, refl, some, [], ◌∷◌, arith, ok}
use zinfo_tech.Base.Int.{ℤ, pos, negsuc}
use zinfo_tech.Queue.Created.{created-IsQueue, created}
use zinfo_tech.Queue.{create}
use zinfo_tech.Alloc.{Alloc, null_block, create_alloc, limit}
use zinfo_tech.Alloc.Valid.{IsAlloc}

limit-le : (l : ℤ) → limit l ≤ 2 ^ 29
unfolding limit
limit-le (pos n) = ground arith
limit-le (negsuc n) = ground arith

module _ {A : Type 0} (zeros : A) where
  -- `zalloc_create`, when all its pieces of memory can be had, makes an allocator in order that has given no block
  -- away. Blocks and chunks are not empty, and a chunk's length fits in an int.
  pub create-IsAlloc :
      (c a b d e f g block_size capacity : ℕ) (l : ℤ)
      → 0 < block_size
      → 0 < capacity
      → capacity * block_size < 2 ^ 31
      → (al : Alloc A) × (create_alloc zeros
            (some c)
            (some a, some b, some d)
            (some e, some f, some g)
            block_size
            capacity
            l
          ≡ (ok, some al))
        × IsAlloc zeros al [] []
        × (al.chk_cnt ≡ 0)
        × (al.chunks ≡ a ∷ [])
  unfolding create_alloc create created
  create-IsAlloc c a b d e f g w n l hw hn small = (
    _,
    refl,
    record {
      free_mo = refl;
      free_ri = refl;
      free_ro = refl;
      waiting = created-IsQueue null_block e 512 8 (omega arith) (omega arith);
      positive = hw;
      filled = hn;
      lengths = refl;
      small = small;
      limited = limit-le l;
      left = n;
      left_is = refl;
      left_le = omega arith;
      counted = refl;
      bounded = omega arith;
      apart = λ k. omega arith;
      slots = λ k h. absurd (omega arith);
      blank = λ k h nobody. refl;
    },
    refl,
    refl,
  )
