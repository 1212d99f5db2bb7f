-- ===== src/Queue/Tests.antt =====
-- Runs of the chunk queue, and its theorems at concrete queues.
use zinfo_tech.Base.{
  fail, ℕ, ◌≡◌, refl, none, some, List, [], ◌∷◌, arith, if◌then◌else◌, ◌==◌, ok, not_exist,
}
use zinfo_tech.Queue.{Chunk, Queue, push, push_front, pop, pop_back, write_begin, write_end, write}
use zinfo_tech.Queue.Slots.{items, vals}
use zinfo_tech.Queue.Steps.{state}
use zinfo_tech.Queue.Refine.{IsQueue, valid, push-push_failed}
use zinfo_tech.Queue.Deque.{
  Op, push_op, push_front_op, pop_op, pop_back_op, Reply, step, run, spec_run, run_refines,
}
use zinfo_tech.Queue.Locked.{released}
use zinfo_tech.Queue.Foreach.{foreach, foreach-IsQueue}
use zinfo_tech.Queue.Threads.{lock_run, lock_run_refines}

abbrev zeroed : ℕ → Chunk ℕ
zeroed a = record { addr = a; value = λ _. 0 }

-- A fresh queue of chunks with two slots of four bytes.
abbrev fresh : Queue ℕ
fresh = state 2 4 (zeroed 100 ∷ []) none 0 0 0

fresh-IsQueue : IsQueue 2 4 fresh []
unfolding items vals
fresh-IsQueue =
    valid (zeroed 100 ∷ []) none 0 0 0 (omega arith) (omega arith) (omega arith) (omega arith) refl
      refl (omega arith)

-- 7 in the first slot.
abbrev one : Queue ℕ
one = state 2 4 (record { addr = 100; value = λ p. if p == 0 then 7 else 0 } ∷ []) none 1 0 1

one-IsQueue : IsQueue 2 4 one (7 ∷ [])
unfolding items vals
one-IsQueue =
    valid (record { addr = 100; value = λ p. if p == 0 then 7 else 0 } ∷ []) none 1 0 1
      (omega arith) (omega arith) (omega arith) (omega arith) refl refl (omega arith)

abbrev script : List (Op ℕ)
script =
    push_op 200 1
    ∷ push_op 200 2
    ∷ push_op 300 3
    ∷ push_front_op 400 9
    ∷ pop_op
    ∷ pop_back_op
    ∷ pop_back_op
    ∷ pop_op
    ∷ pop_op
    ∷ []

abbrev replies : List (Reply ℕ)
replies =
    (ok, none)
    ∷ (ok, none)
    ∷ (ok, none)
    ∷ (ok, none)
    ∷ (ok, some 9)
    ∷ (ok, some 3)
    ∷ (ok, some 2)
    ∷ (ok, some 1)
    ∷ (not_exist, none)
    ∷ []

script_runs : run 0 ok fresh script ≡ some replies
unfolding run step push push_front pop pop_back write_begin write_end write
script_runs = refl

run_refines_example : run 0 fail fresh script ≡ some (spec_run fail [] script)
run_refines_example = run_refines 0 fail script fresh-IsQueue (omega arith)

-- The queue after 7 was pushed, 8 copied to the second slot, and no chunk was to be had.
abbrev starved : Queue ℕ
starved =
    state 2 4
      (record { addr = 100; value = λ p. if 4 == p then 8 else (if p == 0 then 7 else 0) } ∷ [])
      none 1 0 2

push-push_failed_example : push 0 (some 500) starved 9 ≡ none
unfolding push write_end write
push-push_failed_example = push-push_failed 0 {q' = starved} none (some 500) 8 9 one-IsQueue refl

lock_run_refines_example : lock_run 0 (released fresh) script ≡ some (spec_run ok [] script)
lock_run_refines_example = lock_run_refines 0 script fresh-IsQueue (omega arith)

foreach-IsQueue_example : foreach 3 one ≡ some (7 ∷ [])
foreach-IsQueue_example = foreach-IsQueue 3 one-IsQueue (omega arith)
