-- ===== src/Net/Sessions/Safety.antt =====
-- What holds in every state that the threads that serve sessions can reach.
use zinfo_tech.Base.{false, ℕ, ◌+◌, ◌<◌, ◌≡◌, refl, arith}
use native.Mathlib.Decide.{ℕ_discrete}
use zinfo_tech.Base.Count.{bit_cases, occurrences, occurrences-le}
use zinfo_tech.Base.Family.{sum_of, sum_of-one, sum_of-two, sum_of-zero}
use zinfo_tech.Net.Sessions.{Pc, polling, idle, System, Reach}
use zinfo_tech.Net.Sessions.Kept.{brings, has, finds, posts, looks, Inv, Reach-Inv}

module _ {n : ℕ} {y : System} (r : Reach n y) (sound : y.server.strayed ≡ false) where
  abbrev inv : Inv n y.server y.poll y.pc
  inv = Reach-Inv r sound

  -- As long as each worker has read the place that a pop gave it before the place was written again
  -- or freed, no push has failed, `zepoll_out` was not called, no session was closed, and fewer
  -- than 2^32 reports came between two reads of a session's counter: two workers never have the
  -- same session, so that `do_work` runs once at a time for each, and while a worker has it, it is
  -- not on the queue.
  pub session_exclusion :
      (m i j : ℕ)
      → i < n
      → j < n
      → has m (y.pc i) ≡ 1
      → has m (y.pc j) ≡ 1
      → (i ≡ j) × (occurrences m y.server.emq ≡ 0)
  session_exclusion m i j li lj hi hj = (
    elim (ℕ_discrete i j) [
      | yes e ↦ e
      | no ne ↦ absurd (
          ground (
            arith,
            sum_of-two (has m) n y.pc i j li lj ne,
            inv.claimed m,
            bit_cases (y.server.status m),
          ))
    ],
    omega (arith, sum_of-one (has m) n y.pc i li, inv.claimed m, bit_cases (y.server.status m), hi),
  )

  module _ (at_wait : y.poll ≡ polling) (m : ℕ) (some_left : 0 < y.server.since m) where
    -- As long as each worker has read the place that a pop gave it before the place was written
    -- again or freed, no push has failed, `zepoll_out` was not called, no session was closed, and
    -- fewer than 2^32 reports came between two reads of a session's counter: no report of input is
    -- lost: when the epoll thread is back at its wait, a session with reports that came after a
    -- worker last read the counter is on the queue or with a worker, once.
    pub report_once : sum_of (has m) n y.pc + occurrences m y.server.emq ≡ 1
    report_once =
        let b : brings m y.poll ≡ 0 = rw at_wait refl in
        let f : finds m y.poll ≡ 0 = rw at_wait refl in
        omega (arith, b, f, inv.claimed m, inv.noticed m some_left, bit_cases (y.server.status m))

    -- As long as each worker has read the place that a pop gave it before the place was written
    -- again or freed, no push has failed, `zepoll_out` was not called, no session was closed, and
    -- fewer than 2^32 reports came between two reads of a session's counter: no wake-up is lost:
    -- when the epoll thread is back at its wait and all workers are idle, a session with reports
    -- that came after a worker last read the counter is on the queue, once, and the semaphore lets
    -- a worker go for it.
    pub no_lost_report :
        ((i : ℕ) → i < n → y.pc i ≡ idle)
        → (occurrences m y.server.emq ≡ 1) × (0 < y.server.sem_emq)
    no_lost_report quiet =
        let p : posts y.poll ≡ 0 = rw at_wait refl in
        omega (
          arith,
          p,
          report_once,
          silent (has m) refl,
          silent looks refl,
          inv.signalled,
          occurrences-le m y.server.emq,
        )
      where
        silent : (w : Pc → ℕ) → w idle ≡ 0 → sum_of w n y.pc ≡ 0
        silent w z = sum_of-zero w n y.pc (λ k lt. rw (quiet k lt) z)
