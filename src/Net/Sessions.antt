-- ===== src/Net/Sessions.antt =====
-- The threads of src/epoll.c that bring sessions to the workers and work them off: `zepoll_in` of
-- the one thread in `zproc_emq`, and the workers in `zproc_worker`. A shared access, or a region of
-- code under one spin lock, is one move. The queue `emq` is a list, by what its calls on a lock
-- answer. A worker reads the place that a pop gave it after the lock is free, in a move of its own.
-- When the place has been written again or freed by then, when a push found no memory, or when
-- `zepoll_out` has pushed, whatever the status and not the session's address, the list no longer
-- stands for the queue: `strayed` says that this has happened. No session is closed, and the
-- workers go on.
pub mod Kept
pub mod Safety
mod Tests
use zinfo_tech.Base.{ℕ, ◌+◌, ◌-◌, ◌^◌, ◌<◌, ◌≡◌, ◌≢◌, Bool, true, false, List, [], ◌∷◌, ◌++◌, inc32}
use zinfo_tech.Base.Family.{set_at}

-- Sessions by number. `status` is true for `ZSSN_STAT_READY`. `since` is no part of the program:
-- how many reports of input have come since a worker last read the counter `pin_hits`. Nor is
-- `strayed`: it is true once a worker has read a place after it was written again or freed, a push
-- has failed, or `zepoll_out` was called.
pub record Server : Type 0 where
  pub status : ℕ → Bool
  pub pin_hits : ℕ → ℕ
  pub emq : List ℕ
  pub sem_emq : ℕ
  pub since : ℕ → ℕ
  pub strayed : Bool

-- Where the thread of `zproc_emq` stands.
pub data Poll : Type 0 where
  polling : Poll  -- before the next report
  found : (m : ℕ) → Poll  -- has seen the session idle, before it sets the status
  pushing : (m : ℕ) → Poll  -- status set, before the push
  posting : Poll  -- before `zsem_post`

-- Where a worker stands.
pub data Pc : Type 0 where
  idle : Pc
  woken : Pc  -- before a pop
  popped : (m : ℕ) → Pc  -- behind the pop, before the read of the place, where `m` stood
  taken : (m : ℕ) → Pc  -- head of the loop on a session
  working : (m hits_pin : ℕ) → Pc  -- in `do_work`, and up to the lock

abbrev pub hit : ℕ → Server → Server
hit m s = record s {
  pin_hits = set_at s.pin_hits m (inc32 (s.pin_hits m));
  since = set_at s.since m (s.since m + 1);
}

abbrev pub set_status : ℕ → Bool → Server → Server
set_status m b s = record s { status = set_at s.status m b }

abbrev pub stray : Server → Server
stray s = record s { strayed = true }

module _ (s : Server) where
  pub data PollMove : Poll → Server → Poll → Type 0 where
    -- `zepoll_in`, for fewer than 2^32 reports while a worker is at it.
    hit_idle :
        (m : ℕ) → s.since m + 1 < 2 ^ 32 → s.status m ≡ false → PollMove polling (hit m s) (found m)
    hit_ready :
        (m : ℕ) → s.since m + 1 < 2 ^ 32 → s.status m ≡ true → PollMove polling (hit m s) polling
    set_ready : {m : ℕ} → PollMove (found m) (set_status m true s) (pushing m)
    push : {m : ℕ} → PollMove (pushing m) (record s { emq = s.emq ++ (m ∷ []) }) posting
    -- The semaphore is raised whatever the push returned.
    push_failed : {m : ℕ} → PollMove (pushing m) (stray s) posting
    -- `zepoll_out` sets the status, and pushes the first bytes of the session, `k`.
    report_out : (m k : ℕ) → PollMove polling (stray (set_status m true s)) (pushing k)
    post : PollMove posting (record s { sem_emq = s.sem_emq + 1 }) polling

  pub data Move : Pc → Server → Pc → Type 0 where
    timeout : Move idle s idle
    wait : 0 < s.sem_emq → Move idle (record s { sem_emq = s.sem_emq - 1 }) woken
    pop : (m : ℕ) (r : List ℕ) → s.emq ≡ m ∷ r → Move woken (record s { emq = r }) (popped m)
    -- `ssn = *ppssn`, before the place is written again or freed, and behind that, when anything
    -- may stand there
    read_ssn : {m : ℕ} → Move (popped m) s (taken m)
    read_other : {m : ℕ} (k : ℕ) → Move (popped m) (stray s) (taken k)
    pop_none : s.emq ≡ [] → Move woken s idle
    read_hits :
        {m : ℕ}
        → Move (taken m) (record s { since = set_at s.since m 0 }) (working m (s.pin_hits m))
    no_more_hits : {m h : ℕ} → s.pin_hits m ≡ h → Move (working m h) (set_status m false s) woken
    more_hits : {m h : ℕ} → s.pin_hits m ≢ h → Move (working m h) s (taken m)

-- The epoll thread and `n` workers, interleaved in any order.
pub record System : Type 0 where
  pub server : Server
  pub poll : Poll
  pub pc : ℕ → Pc

pub data Step (n : ℕ) (y : System) : System → Type 0 where
  report :
      {s : Server} {p : Poll}
      → PollMove y.server y.poll s p
      → Step n y (record y { server = s; poll = p })
  work :
      (i : ℕ) {s : Server} {p : Pc}
      → i < n
      → Move y.server (y.pc i) s p
      → Step n y (record y { server = s; pc = set_at y.pc i p })

abbrev pub initial : System
initial = record {
  server = record {
    status = λ _. false;
    pin_hits = λ _. 0;
    emq = [];
    sem_emq = 0;
    since = λ _. 0;
    strayed = false;
  };
  poll = polling;
  pc = λ _. idle;
}

pub data Reach (n : ℕ) : System → Type 0 where
  start : Reach n initial
  next : {y z : System} → Reach n y → Step n y z → Reach n z
