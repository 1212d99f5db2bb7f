-- ===== src/Task.antt =====
-- The task server of src/task.c: missions, and the threads that post tasks to them and work them
-- off. A shared access, or a region of code under one spin lock, is one move of a thread. A
-- mission's task queue and the queue of ready missions are lists, by what their calls on a lock
-- answer. A worker reads the place that a pop of the ready queue gave it after the lock is free, in
-- a move of its own. When the place has been written again or freed by then, or when there was no
-- memory for a queue, the lists no longer stand for the queues: `strayed` says that this has
-- happened.
pub mod Delivery
pub mod Invariant
pub mod Kept
pub mod Post
mod PostTests
pub mod Safety
pub mod Subscribe
mod Tests
use zinfo_tech.Base.{
  ℕ, zero, suc, ◌+◌, ◌-◌, ◌<◌, ◌≡◌, ◌⊎◌, Bool, true, false, Option, none, some, List, [], ◌∷◌, ◌++◌,
}
use zinfo_tech.Base.Family.{set_at}

-- `ZMIS_MODE_SERIAL` and `ZMIS_MODE_CONCURRENT`
pub data Mode : Type 0 where
  serial concurrent : Mode

-- Tasks and missions by number. `status` is true for `ZMIS_STAT_READY`. `posted` and `taken` are no
-- part of the program: the tasks that came to a mission and that left it, in order. Nor is
-- `strayed`: it is true once a worker has read a place after it was written again or freed, or an
-- allocation has failed.
pub record Server : Type 0 where
  pub tasks : ℕ → List ℕ
  pub status : ℕ → Bool
  pub mis_ready : List ℕ
  pub sem_ready : ℕ
  pub posted : ℕ → List ℕ
  pub taken : ℕ → List ℕ
  pub strayed : Bool

-- Where a thread stands: a client in `ztsk_post`, or a worker in `zproc_tsk_svr`.
pub data Pc : Type 0 where
  idle : Pc
  checking : (m : ℕ) → Pc  -- before it looks at the mission's status
  pushing : (m : ℕ) → (later : Option ℕ) → Pc  -- status set, before the push on `mis_ready`
  posting : (later : Option ℕ) → Pc  -- before `zsem_post`
  woken : Pc  -- behind `zsem_wait`
  popped : (m : ℕ) → Pc  -- behind `zqueue_lock_pop`, before the read of the place, where `m` stood
  holding : (m : ℕ) → Pc  -- has got the ready mission
  fronted : (m t : ℕ) → Pc  -- concurrent mode: read the first task, before the pop
  switching : (m : ℕ) → (later : Option ℕ) → Pc  -- `ztsk_switch_mis_status`
  serving : (m cnt : ℕ) → Pc  -- head of the loop in serial mode
  running : (m t cnt : ℕ) → Pc  -- operates on the first task, before the pop
  operating : (t : ℕ) → Pc  -- concurrent mode: operates on a task it has taken

abbrev pub max_serial : ℕ
max_serial = 128

-- A worker goes on with the task that it has taken, if there is one.
abbrev pub resume : Option ℕ → Pc
resume none = idle
resume (some t) = operating t

-- `zqueue_pop(tasks, NULL)`
abbrev pub tail : List ℕ → List ℕ
tail [] = []
tail (t ∷ ts) = ts

abbrev pub put_task : ℕ → ℕ → Server → Server
put_task m t s = record s {
  tasks = set_at s.tasks m (s.tasks m ++ (t ∷ []));
  posted = set_at s.posted m (s.posted m ++ (t ∷ []));
}

abbrev pub drop_task : ℕ → ℕ → Server → Server
drop_task m t s = record s {
  tasks = set_at s.tasks m (tail (s.tasks m));
  taken = set_at s.taken m (s.taken m ++ (t ∷ []));
}

abbrev pub set_status : ℕ → Bool → Server → Server
set_status m b s = record s { status = set_at s.status m b }

abbrev pub stray : Server → Server
stray s = record s { strayed = true }

module _ (mode : ℕ → Mode) (s : Server) where
  pub data Move : Pc → Server → Pc → Type 0 where
    -- `ztsk_post`: the task into the mission's queue. When there is no memory, it is not there, and the
    -- queue is unsound from there on.
    put : (m t : ℕ) → Move idle (put_task m t s) (checking m)
    put_failed : (m : ℕ) → Move idle (stray s) (checking m)
    wake : {m : ℕ} → s.status m ≡ false → Move (checking m) (set_status m true s) (pushing m none)
    is_ready : {m : ℕ} → s.status m ≡ true → Move (checking m) s idle
    push :
        {m : ℕ} {k : Option ℕ}
        → Move (pushing m k) (record s { mis_ready = s.mis_ready ++ (m ∷ []) }) (posting k)
    -- The result of the push is not looked at.
    push_failed : {m : ℕ} {k : Option ℕ} → Move (pushing m k) (stray s) (posting k)
    signal : {k : Option ℕ} → Move (posting k) (record s { sem_ready = s.sem_ready + 1 }) (resume k)
    -- `zproc_tsk_svr`
    timeout : Move idle s idle
    wait : 0 < s.sem_ready → Move idle (record s { sem_ready = s.sem_ready - 1 }) woken
    pop_ready :
        (m : ℕ) (r : List ℕ)
        → s.mis_ready ≡ m ∷ r
        → Move woken (record s { mis_ready = r }) (popped m)
    -- `mis = *ppmis`, before the place is written again or freed, and behind that, when anything
    -- may stand there
    read_ready : {m : ℕ} → Move (popped m) s (holding m)
    read_other : {m : ℕ} (k : ℕ) → Move (popped m) (stray s) (holding k)
    none_ready : s.mis_ready ≡ [] → Move woken s idle
    front :
        {m : ℕ} (t : ℕ) (r : List ℕ)
        → mode m ≡ concurrent
        → s.tasks m ≡ t ∷ r
        → Move (holding m) s (fronted m t)
    front_none :
        {m : ℕ} → mode m ≡ concurrent → s.tasks m ≡ [] → Move (holding m) s (switching m none)
    pop : {m t : ℕ} → Move (fronted m t) (drop_task m t s) (switching m (some t))
    start_serial : {m : ℕ} → mode m ≡ serial → Move (holding m) s (serving m 0)
    serve :
        {m c : ℕ} (t : ℕ) (r : List ℕ)
        → c < max_serial
        → s.tasks m ≡ t ∷ r
        → Move (serving m c) s (running m t c)
    serve_end :
        {m c : ℕ} → (c ≡ max_serial) ⊎ (s.tasks m ≡ []) → Move (serving m c) s (switching m none)
    finish : {m t c : ℕ} → Move (running m t c) (drop_task m t s) (serving m (c + 1))
    -- `ztsk_switch_mis_status`
    more :
        {m : ℕ} {k : Option ℕ} (t : ℕ) (r : List ℕ)
        → s.tasks m ≡ t ∷ r
        → Move (switching m k) (set_status m true s) (pushing m k)
    no_more :
        {m : ℕ} {k : Option ℕ}
        → s.tasks m ≡ []
        → Move (switching m k) (set_status m false s) (resume k)
    operate : {t : ℕ} → Move (operating t) s idle

-- `n` threads, interleaved in any order.
pub record System : Type 0 where
  pub server : Server
  pub pc : ℕ → Pc

pub data Step (mode : ℕ → Mode) (n : ℕ) (y : System) : System → Type 0 where
  pick :
      (i : ℕ) {s : Server} {p : Pc}
      → i < n
      → Move mode y.server (y.pc i) s p
      → Step mode n y (record { server = s; pc = set_at y.pc i p })

abbrev pub initial : System
initial = record {
  server = record {
    tasks = λ _. [];
    status = λ _. false;
    mis_ready = [];
    sem_ready = 0;
    posted = λ _. [];
    taken = λ _. [];
    strayed = false;
  };
  pc = λ _. idle;
}

pub data Reach (mode : ℕ → Mode) (n : ℕ) : System → Type 0 where
  start : Reach mode n initial
  next : {y z : System} → Reach mode n y → Step mode n y z → Reach mode n z
