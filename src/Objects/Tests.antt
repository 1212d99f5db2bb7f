-- ===== src/Objects/Tests.antt =====
-- Two users of an object pool, and the theorems there.
use zinfo_tech.Base.{ℕ, ◌*◌, ◌≡◌, refl, some, none, [], ◌∷◌, arith, ok, false}
use zinfo_tech.Queue.{read, first_chunk}
use zinfo_tech.Queue.Locked.{lock_front, unlock_front}
use zinfo_tech.Queue.Threads.{take_front, let_go}
use zinfo_tech.Queue.Created.{created, created-IsQueue}
use zinfo_tech.Alloc.{Alloc, Block, pop, null_block}
use zinfo_tech.Alloc.Valid.{IsAlloc}
use zinfo_tech.Objects.{
  by_ref, Object, zeros, pool_pop, clone, release, Users, makes, clones, releases,
}
use zinfo_tech.Objects.Lives.{Lives}
use zinfo_tech.Objects.Runs.{Runs, begin, step, Runs-Lives, release-Ends}

-- Two blocks of 16 bytes to a chunk, the first chunk at 1000.
abbrev start : Alloc (Object ℕ)
unfolding created
start = record {
  chunks = 1000 ∷ [];
  end_pos = 32;
  chunk_size = 2;
  value_size = 16;
  chunk_length = 32;
  rec_que = created null_block 1004 512 8;
  spin_mo = false;
  spin_ri = false;
  spin_ro = false;
  chk_cnt = 0;
  max_mem = 32 * 1024 * 1024;
  content = λ _. zeros 0;
}

start-IsAlloc : IsAlloc (zeros 0) start [] []
unfolding created
start-IsAlloc = record {
  free_mo = refl;
  free_ri = refl;
  free_ro = refl;
  waiting = created-IsQueue null_block 1004 512 8 (omega arith) (omega arith);
  positive = omega arith;
  filled = omega arith;
  lengths = refl;
  small = omega arith;
  limited = omega arith;
  left = 2;
  left_is = refl;
  left_le = omega arith;
  counted = refl;
  bounded = omega arith;
  apart = λ b. omega arith;
  slots = λ b h. absurd (omega arith);
  blank = λ b h nobody. refl;
}

abbrev first : Block
first = record { chunk = 1000; byte = 16 }

record Run (k : ℕ) : Type 0 where
  last : Users ℕ
  reach : Runs 0 start k last

-- An object is made, cloned by reference, and released once.
abbrev shared : Run 3
unfolding pool_pop clone release pop take_front lock_front let_go unlock_front read first_chunk
    created
shared = record {
  last = _;
  reach =
      step
        (step (step begin (makes by_ref 16 none tt refl))
          (clones first none tt (omega arith) (omega arith) refl))
        (releases first none (omega arith) refl);
}

Runs-Lives_example : Lives 0 start 3 shared.last
unfolding pool_pop clone release pop take_front lock_front let_go unlock_front read first_chunk
    created
Runs-Lives_example = Runs-Lives 0 start start-IsAlloc shared.reach (omega arith)

release-Ends_example :
    (a : Alloc (Object ℕ)) × (release 0 (some 3000) first shared.last.alloc ≡ some (ok, a))
unfolding pool_pop clone release pop take_front lock_front let_go unlock_front read first_chunk
    created
release-Ends_example =
    release-Ends 0 start start-IsAlloc shared.reach (omega arith) first 3000 (omega arith)
