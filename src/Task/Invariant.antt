-- ===== src/Task/Invariant.antt =====
-- What holds between the moves of the threads of the task server.
use zinfo_tech.Base.{
  ℕ, ◌+◌, ◌≤◌, ◌<◌, ◌≡◌, Option, none, some, List, [], ◌∷◌, ◌++◌, if◌then◌else◌, ◌==◌,
}
use zinfo_tech.Base.Count.{bit, occurrences}
use zinfo_tech.Base.Lists.{length}
use zinfo_tech.Base.Family.{sum_of}
use zinfo_tech.Task.{
  Server, Pc, checking, pushing, posting, woken, popped, holding, fronted, switching, serving,
  running, max_serial,
}

-- A thread that has the mission: it alone may touch its tasks, or is about to push it.
abbrev pub claims : ℕ → Pc → ℕ
claims m (pushing k _) = if m == k then 1 else 0
claims m (popped k) = if m == k then 1 else 0
claims m (holding k) = if m == k then 1 else 0
claims m (fronted k _) = if m == k then 1 else 0
claims m (switching k _) = if m == k then 1 else 0
claims m (serving k _) = if m == k then 1 else 0
claims m (running k _ _) = if m == k then 1 else 0
claims m _ = 0

-- A thread that is about to look at the status of the mission.
abbrev pub checks : ℕ → Pc → ℕ
checks m (checking k) = if m == k then 1 else 0
checks m _ = 0

-- A semaphore count on its way: between the push and `zsem_post`, or from `zsem_wait` to the pop.
abbrev pub in_flight : Pc → ℕ
in_flight (posting _) = 1
in_flight woken = 1
in_flight _ = 0

abbrev pub first : List ℕ → Option ℕ
first [] = none
first (t ∷ ts) = some t

-- What a thread knows of the mission that it has.
abbrev pub IsFresh : (ℕ → List ℕ) → Pc → Type 0
IsFresh tasks (fronted m t) = first (tasks m) ≡ some t
IsFresh tasks (running m t c) = (first (tasks m) ≡ some t) × (c < max_serial)
IsFresh tasks (serving m c) = c ≤ max_serial
IsFresh tasks _ = Unit {0}

pub record Inv (n : ℕ) (s : Server) (pc : ℕ → Pc) : Type 0 where
  pub claimed : (m : ℕ) → sum_of (claims m) n pc + occurrences m s.mis_ready ≡ bit (s.status m)
  pub signalled : s.sem_ready + sum_of in_flight n pc ≡ length s.mis_ready
  pub noticed : (m : ℕ) → 0 < length (s.tasks m) → 0 < bit (s.status m) + sum_of (checks m) n pc
  pub ordered : (m : ℕ) → s.posted m ≡ s.taken m ++ s.tasks m
  pub fresh : (i : ℕ) → i < n → IsFresh s.tasks (pc i)
