-- ===== src/Alloc/Tests.antt =====
-- The theorems on the allocator of zit/memory/alloc.h at a new allocator.
use zinfo_tech.Base.{ℕ, ◌+◌, ◌*◌, ◌≤◌, refl, ==_iff, none, [], ◌∷◌, arith, false, if◌then◌else◌}
use zinfo_tech.Base.Lists.{length}
use zinfo_tech.Queue.{read, first_chunk}
use zinfo_tech.Queue.Locked.{lock_front, unlock_front}
use zinfo_tech.Queue.Threads.{take_front, let_go}
use zinfo_tech.Queue.Created.{created, created-IsQueue}
use zinfo_tech.Alloc.{Alloc, Block, same, pop, null_block}
use zinfo_tech.Alloc.Valid.{IsAlloc}
use zinfo_tech.Alloc.Uses.{
  Pool, takes, writes, Uses, unused, next, InOrder, Uses-InOrder, Uses-memory,
}

-- Two blocks of 16 bytes to a chunk, the first chunk at 1000.
abbrev new_alloc : Alloc ℕ
unfolding created
new_alloc = record {
  chunks = 1000 ∷ [];
  end_pos = 32;
  chunk_size = 2;
  value_size = 16;
  chunk_length = 32;
  rec_que = created null_block 1004 512 8;
  spin_mo = false;
  spin_ri = false;
  spin_ro = false;
  chk_cnt = 0;
  max_mem = 32 * 1024 * 1024;
  content = λ _. 0;
}

abbrev second_block : Block
second_block = record { chunk = 1000; byte = 16 }

-- The block at 16 is with a user.
abbrev one_given : Alloc ℕ
unfolding created
one_given = record new_alloc { end_pos = 16; content = λ b. if same second_block b then 7 else 0 }

new_alloc-IsAlloc : IsAlloc 0 new_alloc [] []
unfolding created
new_alloc-IsAlloc = record {
  free_mo = refl;
  free_ri = refl;
  free_ro = refl;
  waiting = created-IsQueue null_block 1004 512 8 (omega arith) (omega arith);
  positive = omega arith;
  filled = omega arith;
  lengths = refl;
  small = omega arith;
  limited = omega arith;
  left = 2;
  left_is = refl;
  left_le = omega arith;
  counted = refl;
  bounded = omega arith;
  apart = λ b. omega arith;
  slots = λ b h. absurd (omega arith);
  blank = λ b h nobody. refl;
}

abbrev new_pool : Pool ℕ
new_pool = record { alloc = new_alloc; given = []; starved = false }

abbrev used_pool : Pool ℕ
used_pool = record { alloc = one_given; given = second_block ∷ []; starved = false }

used : Uses 0 new_pool 2 used_pool
unfolding pop take_front lock_front let_go unlock_front read first_chunk created
used = next (next unused (takes none tt refl)) (writes second_block 7 (omega arith))

Uses-InOrder_example : InOrder 0 2 used_pool
Uses-InOrder_example = Uses-InOrder 0 used refl (omega arith) new_alloc-IsAlloc

Uses-memory_example :
    used_pool.alloc.chunk_length * length used_pool.alloc.chunks
    ≤ used_pool.alloc.max_mem + 2 * used_pool.alloc.chunk_length
Uses-memory_example = Uses-memory 0 used refl (omega arith) new_alloc-IsAlloc

one_given-IsAlloc : IsAlloc 0 one_given (second_block ∷ []) []
unfolding created
one_given-IsAlloc = record {
  free_mo = refl;
  free_ri = refl;
  free_ro = refl;
  waiting = created-IsQueue null_block 1004 512 8 (omega arith) (omega arith);
  positive = omega arith;
  filled = omega arith;
  lengths = refl;
  small = omega arith;
  limited = omega arith;
  left = 1;
  left_is = refl;
  left_le = omega arith;
  counted = refl;
  bounded = omega arith;
  apart = λ b. ground arith;
  slots = λ b h. (1, ground (arith, ==_iff b.byte 16), omega arith);
  blank = λ b h nobody. ground arith;
}
