-- ===== src/Task/Tests.antt =====
-- A run of two threads of the task server, and its theorems there.
use zinfo_tech.Base.{◌≢◌, ℕ, zero, suc, ◌<◌, ◌≡◌, refl, inl, [], ◌++◌, arith}
use zinfo_tech.Task.{
  Mode, serial, idle, System, Step, pick, Reach, start, next, put, wake, push, signal, wait,
  pop_ready, read_ready, start_serial, serve,
}
use zinfo_tech.Base.Count.{occurrences}
use zinfo_tech.Task.Safety.{mission_exclusion, woken_finds, tasks_in_order, no_lost_wakeup}

abbrev modes : ℕ → Mode
modes m = serial

-- A state that two threads reach.
record Run : Type 0 where
  last : System
  reach : Reach modes 2 last

abbrev grow : (r : Run) (i : ℕ) {y : System} → i < 2 → Step modes 2 r.last y → Run
grow r i lt st = record { last = _; reach = next r.reach st }

-- Thread 0 posts the task 7 to the mission 5.
abbrev posted_7 : Run
posted_7 = record {
  last = _;
  reach =
      next
        (next
          (next (next start (pick 0 (omega arith) (put 5 7))) (pick 0 (omega arith) (wake refl)))
          (pick 0 (omega arith) push))
        (pick 0 (omega arith) signal);
}

-- Thread 1 is woken, and then operates on it.
abbrev woken_1 : Run
woken_1 = record {
  last = _;
  reach = next posted_7.reach (pick 1 (omega arith) (wait (omega arith)));
}

abbrev running_1 : Run
running_1 = record {
  last = _;
  reach =
      next
        (next
          (next (next woken_1.reach (pick 1 (omega arith) (pop_ready 5 [] refl)))
            (pick 1 (omega arith) read_ready))
          (pick 1 (omega arith) (start_serial refl)))
        (pick 1 (omega arith) (serve 7 [] (omega arith) refl));
}

mission_exclusion_example : ◌≡◌ {A = ℕ} 1 1
mission_exclusion_example =
    mission_exclusion running_1.reach refl 5 1 1 (omega arith) (omega arith) refl refl

woken_finds_example : woken_1.last.server.mis_ready ≢ []
woken_finds_example = woken_finds woken_1.reach refl 1 (omega arith) refl

tasks_in_order_example :
    posted_7.last.server.posted 5 ≡ posted_7.last.server.taken 5 ++ posted_7.last.server.tasks 5
tasks_in_order_example = tasks_in_order posted_7.reach refl 5

all_idle : (i : ℕ) → posted_7.last.pc i ≡ idle
all_idle zero = refl
all_idle (suc i) = ground arith

no_lost_wakeup_example :
    (occurrences 5 posted_7.last.server.mis_ready ≡ 1) × (0 < posted_7.last.server.sem_ready)
no_lost_wakeup_example =
    no_lost_wakeup posted_7.reach refl (λ i lt. inl (all_idle i)) 5 (omega arith)
