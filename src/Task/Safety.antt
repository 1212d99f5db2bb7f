-- ===== src/Task/Safety.antt =====
-- What holds in every state that the threads of the task server can reach.
use zinfo_tech.Base.{false, ℕ, ◌+◌, ◌<◌, ◌≡◌, refl, ◌≢◌, ◌⊎◌, inl, inr, [], ◌++◌, arith}
use native.Mathlib.Decide.{ℕ_discrete}
use zinfo_tech.Base.Lists.{length}
use zinfo_tech.Base.Family.{sum_of, sum_of-one, sum_of-two, sum_of-zero}
use zinfo_tech.Task.{Mode, Pc, idle, woken, running, operating, max_serial, System, Reach}
use zinfo_tech.Base.Count.{bit, bit_cases, occurrences, occurrences-le}
use zinfo_tech.Task.Invariant.{claims, checks, in_flight, IsFresh, Inv}
use zinfo_tech.Task.Kept.{Reach-Inv}

module _ {mode : ℕ → Mode} {n : ℕ} {y : System} (r : Reach mode n y)
    (sound : y.server.strayed ≡ false) where
  abbrev inv : Inv n y.server y.pc
  inv = Reach-Inv r sound

  -- As long as each worker has read the place that a pop of the ready queue gave it before the
  -- place was written again or freed, and no allocation for a queue has failed, two threads never
  -- have the same mission: from the pop off the ready queue up to the change of its status one
  -- worker alone touches the tasks of a mission and operates on those of a serial one.
  pub mission_exclusion :
      (m i j : ℕ) → i < n → j < n → claims m (y.pc i) ≡ 1 → claims m (y.pc j) ≡ 1 → i ≡ j
  mission_exclusion m i j li lj hi hj = elim (ℕ_discrete i j) [
    | yes e ↦ e
    | no ne ↦ absurd (ground (arith, sum_of-two (claims m) n y.pc i j li lj ne, inv.claimed m))
  ]

  -- A mission that is ready stands on the ready queue once, or one thread has it, and not both; a
  -- mission that is idle does neither.
  pub ready_once :
      (m : ℕ)
      → sum_of (claims m) n y.pc + occurrences m y.server.mis_ready ≡ bit (y.server.status m)
  ready_once m = inv.claimed m

  -- As long as each worker has read the place that a pop of the ready queue gave it before the
  -- place was written again or freed, and no allocation for a queue has failed, a worker that the
  -- semaphore has woken finds a mission on the ready queue, so that its pop never answers ZNOT_EXIST.
  pub woken_finds : (i : ℕ) → i < n → y.pc i ≡ woken → y.server.mis_ready ≢ []
  woken_finds i li h e = absurd (ground (arith, sum_of-one in_flight n y.pc i li, inv.signalled))

  -- As long as each worker has read the place that a pop of the ready queue gave it before the
  -- place was written again or freed, and no allocation for a queue has failed, the tasks that a
  -- mission was given are those that were taken from it and those that it has left, in the same
  -- order: none is lost, and none is taken twice.
  pub tasks_in_order : (m : ℕ) → y.server.posted m ≡ y.server.taken m ++ y.server.tasks m
  tasks_in_order m = inv.ordered m

  -- Between two changes of its status a worker operates on at most 128 tasks of a serial mission.
  pub serial_budget : (i m t c : ℕ) → i < n → y.pc i ≡ running m t c → c < max_serial
  serial_budget i m t c li h =
      let b : IsFresh y.server.tasks (running m t c) = rw h at (inv.fresh i li) in b.1

  -- As long as each worker has read the place that a pop of the ready queue gave it before the
  -- place was written again or freed, and no allocation for a queue has failed, no wake-up is lost:
  -- when each thread is idle or operates on a task that it has taken, every mission with tasks
  -- stands on the ready queue, and the semaphore lets a worker go for it.
  pub no_lost_wakeup :
      ((i : ℕ) → i < n → (y.pc i ≡ idle) ⊎ ((t : ℕ) × (y.pc i ≡ operating t)))
      → (m : ℕ) → 0 < length (y.server.tasks m)
      → (occurrences m y.server.mis_ready ≡ 1) × (0 < y.server.sem_ready)
  no_lost_wakeup quiet m some_left = omega (
    arith,
    silent (claims m) refl (λ t. refl),
    silent (checks m) refl (λ t. refl),
    silent in_flight refl (λ t. refl),
    inv.claimed m,
    inv.signalled,
    inv.noticed m some_left,
    bit_cases (y.server.status m),
    occurrences-le m y.server.mis_ready,
  )
    where
      silent : (w : Pc → ℕ) → w idle ≡ 0 → ((t : ℕ) → w (operating t) ≡ 0) → sum_of w n y.pc ≡ 0
      silent w z zt =
          sum_of-zero w n y.pc
            (λ k lt. elim (quiet k lt) [ inl e ↦ rw e z | inr (t, e) ↦ rw e (zt t) ])
