-- ===== src/Queue/Created.antt =====
-- `zqueue_create` of zit/container/queue.h: what a new queue can be used for.
use zinfo_tech.Base.{Err, ℕ, ◌*◌, ◌^◌, ◌<◌, ◌≡◌, refl, none, some, List, [], ◌∷◌, arith, ok}
use zinfo_tech.Base.Lists.{length}
use zinfo_tech.Queue.{Queue, create}
use zinfo_tech.Queue.Steps.{state}
use zinfo_tech.Queue.Slots.{items, vals}
use zinfo_tech.Queue.Refine.{IsQueue, valid}
use zinfo_tech.Queue.Deque.{Op, run, spec_run, run_refines}

module _ {A : Type 0} (zeros : A) where
  unfoldable pub created : ℕ → ℕ → ℕ → Queue A
  created a n w = state n w (record { addr = a; value = λ _. zeros } ∷ []) none 0 0 0

  pub created-IsQueue : (a n w : ℕ) → 0 < n → 0 < w → IsQueue n w (created a n w) []
  unfolding created items vals
  created-IsQueue a n w hn hw =
      valid (record { addr = a; value = λ _. zeros } ∷ []) none 0 0 0 hw hn hn (omega arith) refl
        refl (omega arith)

  zero_slot : (w : ℕ) → 0 * w ≡ 0
  zero_slot w = omega arith

  -- When its three pieces of memory can be had, and chunks and values are not empty,
  -- `zqueue_create` makes a queue that answers every sequence of calls as an empty list does, while
  -- the allocator has memory and the counter has room.
  pub create_refines :
      (undefined : Err) (a b c n w : ℕ) (ops : List (Op A))
      → 0 < n
      → 0 < w
      → length ops < 2 ^ 31
      → (q : Queue A) × (create zeros (some a) (some b) (some c) n w ≡ (ok, some q))
        × (run zeros undefined q ops ≡ some (spec_run undefined [] ops))
  unfolding create created
  create_refines undefined a b c n w ops hn hw small = (
    created a n w,
    rw (zero_slot w) refl,
    run_refines zeros undefined ops (created-IsQueue a n w hn hw) (omega arith),
  )
