-- ===== src/Net/Sessions/Tests.antt =====
-- A run of the epoll thread and two workers, and the theorems there.
use zinfo_tech.Base.{ℕ, ◌+◌, ◌<◌, ◌≡◌, refl, [], arith}
use zinfo_tech.Base.Count.{occurrences}
use zinfo_tech.Base.Family.{sum_of}
use zinfo_tech.Net.Sessions.{
  hit_idle, hit_ready, set_ready, push, post, wait, pop, read_ssn, read_hits, System, report, work,
  Reach, start, next,
}
use zinfo_tech.Net.Sessions.Kept.{has}
use zinfo_tech.Net.Sessions.Safety.{session_exclusion, report_once, no_lost_report}

-- A state that two workers reach.
record Run : Type 0 where
  last : System
  reach : Reach 2 last

-- Input is reported for the session 5, which is pushed on the queue.
abbrev reported : Run
reported = record {
  last = _;
  reach =
      next
        (next (next (next start (report (hit_idle 5 (omega arith) refl))) (report set_ready))
          (report push))
        (report post);
}

-- A worker has it, and input is reported again.
abbrev served : Run
served = record {
  last = _;
  reach =
      next
        (next
          (next
            (next (next reported.reach (work 0 (omega arith) (wait (omega arith))))
              (work 0 (omega arith) (pop 5 [] refl)))
            (work 0 (omega arith) read_ssn))
          (work 0 (omega arith) read_hits))
        (report (hit_ready 5 (omega arith) refl));
}

session_exclusion_example : ◌≡◌ {A = ℕ} 0 0 × (occurrences 5 served.last.server.emq ≡ 0)
session_exclusion_example =
    session_exclusion served.reach refl 5 0 0 (omega arith) (omega arith) refl refl

report_once_example : sum_of (has 5) 2 served.last.pc + occurrences 5 served.last.server.emq ≡ 1
report_once_example = report_once served.reach refl refl 5 (omega arith)

no_lost_report_example :
    (occurrences 5 reported.last.server.emq ≡ 1) × (0 < reported.last.server.sem_emq)
no_lost_report_example = no_lost_report reported.reach refl refl 5 (omega arith) (λ i lt. refl)
