-- ===== src/Task/Kept.antt =====
-- The invariant of the task server holds at the start, and every move keeps it.
use zinfo_tech.Base.{
  ℕ, ◌+◌, ◌≤◌, ◌<◌, ◌≡◌, refl, ◌≢◌, false, Option, none, some, List, [], ◌∷◌, ◌++◌, append_assoc,
  arith,
}
use zinfo_tech.Base.Lists.{length, length-append}
use zinfo_tech.Base.Family.{
  set_at, sum_of, sum_of-set_at, sum_of-one, sum_of-two, sum_of-zero, set_at-here, set_at-other,
}
use native.Mathlib.Decide.{ℕ_discrete}
use zinfo_tech.Task.{
  Mode, Server, Pc, idle, fronted, serving, running, resume, tail, put_task, drop_task, Move, put,
  wake, is_ready, push, put_failed, push_failed, read_other, signal, wait, pop_ready, none_ready,
  front, pop, start_serial, serve, finish, more, no_more, System, pick, initial, Reach, start, next,
}
use zinfo_tech.Base.Count.{bit, occurrences, occurrences-append}
use zinfo_tech.Task.Invariant.{claims, checks, in_flight, first, IsFresh, Inv}

length-tail : (l : List ℕ) → length (tail l) ≤ length l
length-tail [] = omega arith
length-tail (t ∷ ts) = omega arith

first-tail : (l : List ℕ) (t : ℕ) → first l ≡ some t → l ≡ t ∷ tail l
first-tail [] t h = cc (h)
first-tail (x ∷ xs) t h = cc (h)

first-append : (l ys : List ℕ) (t : ℕ) → first l ≡ some t → first (l ++ ys) ≡ some t
first-append [] ys t h = cc (h)
first-append (x ∷ xs) ys t h = h

module _ {n : ℕ} {s : Server} {pc : ℕ → Pc} (inv : Inv n s pc) (i : ℕ) where
  -- Thread `i` goes from `p` to `p'`.
  record Mover (p p' : Pc) : Type 0 where
    here : pc i ≡ p
    own : IsFresh s.tasks p
    claims_of :
        (m : ℕ)
        → sum_of (claims m) n (set_at pc i p') + claims m p ≡ sum_of (claims m) n pc + claims m p'
    checks_of :
        (m : ℕ)
        → sum_of (checks m) n (set_at pc i p') + checks m p ≡ sum_of (checks m) n pc + checks m p'
    least : (m : ℕ) → claims m p ≤ sum_of (claims m) n pc
    flight :
        sum_of in_flight n (set_at pc i p') + in_flight p ≡ sum_of in_flight n pc + in_flight p'

  mover : i < n → (p' : Pc) → Mover (pc i) p'
  mover lt p' = record {
    here = refl;
    own = inv.fresh i lt;
    claims_of = λ m. sum_of-set_at (claims m) n pc i p' lt;
    checks_of = λ m. sum_of-set_at (checks m) n pc i p' lt;
    least = λ m. sum_of-one (claims m) n pc i lt;
    flight = sum_of-set_at in_flight n pc i p' lt;
  }

  claims-resume : (m : ℕ) (k : Option ℕ) → claims m (resume k) ≡ 0
  claims-resume m none = refl
  claims-resume m (some t) = refl

  checks-resume : (m : ℕ) (k : Option ℕ) → checks m (resume k) ≡ 0
  checks-resume m none = refl
  checks-resume m (some t) = refl

  flight_resume : (k : Option ℕ) → in_flight (resume k) ≡ 0
  flight_resume none = refl
  flight_resume (some t) = refl

  Move-claimed :
      {mode : ℕ → Mode} {p p' : Pc} {s' : Server}
      → Move mode s p s' p'
      → Mover p p'
      → s'.strayed ≡ false
      → (m : ℕ)
      → sum_of (claims m) n (set_at pc i p') + occurrences m s'.mis_ready ≡ bit (s'.status m)
  Move-claimed push_failed f h m = cc (h)
  Move-claimed (read_other k) f h m = cc (h)
  Move-claimed (push {m = k}) f h m =
      ground (arith, inv.claimed m, f.claims_of m, occurrences-append m s.mis_ready (k ∷ []))
  Move-claimed (signal {k}) f h m = ground (arith, inv.claimed m, f.claims_of m, claims-resume m k)
  Move-claimed (no_more {k = k} e) f h m =
      ground (arith, inv.claimed m, f.claims_of m, claims-resume m k)
  Move-claimed (wake e) f h m = ground (arith, e, inv.claimed m, f.claims_of m)
  Move-claimed (pop_ready k r e) f h m = ground (arith, e, inv.claimed m, f.claims_of m)
  Move-claimed (more {k = j} t r e) f h m = ground (arith, inv.claimed m, f.claims_of m, f.least m)
  Move-claimed mv f h m = ground (arith, inv.claimed m, f.claims_of m)

  Move-signalled :
      {mode : ℕ → Mode} {p p' : Pc} {s' : Server}
      → Move mode s p s' p'
      → Mover p p'
      → s'.strayed ≡ false
      → s'.sem_ready + sum_of in_flight n (set_at pc i p') ≡ length s'.mis_ready
  Move-signalled push_failed f h = cc (h)
  Move-signalled (push {m}) f h =
      ground (arith, inv.signalled, f.flight, length-append s.mis_ready (m ∷ []))
  Move-signalled (signal {k}) f h = ground (arith, inv.signalled, f.flight, flight_resume k)
  Move-signalled (no_more {k = k} e) f h = ground (arith, inv.signalled, f.flight, flight_resume k)
  Move-signalled (wait g) f h = ground (arith, inv.signalled, f.flight)
  Move-signalled (pop_ready k r e) f h = ground (arith, e, inv.signalled, f.flight)
  Move-signalled (none_ready e) f h = ground (arith, e, inv.signalled, f.flight)
  Move-signalled mv f h = ground (arith, inv.signalled, f.flight)

  Move-noticed :
      {mode : ℕ → Mode} {p p' : Pc} {s' : Server}
      → Move mode s p s' p'
      → Mover p p'
      → (m : ℕ) → 0 < length (s'.tasks m)
      → 0 < bit (s'.status m) + sum_of (checks m) n (set_at pc i p')
  Move-noticed (put k t) f m ne = ground (arith, inv.noticed m, f.checks_of m)
  Move-noticed (signal {k}) f m ne =
      ground (arith, inv.noticed m ne, f.checks_of m, checks-resume m k)
  Move-noticed (no_more {k = j} e) f m ne =
      ground (arith, e, inv.noticed m, f.checks_of m, checks-resume m j)
  Move-noticed (wake e) f m ne = ground (arith, e, inv.noticed m, f.checks_of m)
  Move-noticed (is_ready e) f m ne = ground (arith, e, inv.noticed m, f.checks_of m)
  Move-noticed (pop {m = k}) f m ne =
      ground (arith, inv.noticed m, f.checks_of m, length-tail (s.tasks k))
  Move-noticed (finish {m = k}) f m ne =
      ground (arith, inv.noticed m, f.checks_of m, length-tail (s.tasks k))
  Move-noticed mv f m ne = ground (arith, inv.noticed m, f.checks_of m)

  Move-ordered :
      {mode : ℕ → Mode} {p p' : Pc} {s' : Server}
      → Move mode s p s' p'
      → Mover p p'
      → (m : ℕ) → s'.posted m ≡ s'.taken m ++ s'.tasks m
  Move-ordered (put k t) f m =
      ground (arith, inv.ordered m, append_assoc (s.taken k) (s.tasks k) (t ∷ []))
  Move-ordered (pop {m = k} {t = t}) f m = ground (
    arith,
    inv.ordered m,
    first-tail (s.tasks k) t f.own,
    append_assoc (s.taken k) (t ∷ []) (tail (s.tasks k)),
  )
  Move-ordered (finish {m = k} {t = t}) f m = ground (
    arith,
    inv.ordered m,
    first-tail (s.tasks k) t f.own.0,
    append_assoc (s.taken k) (t ∷ []) (tail (s.tasks k)),
  )
  Move-ordered mv f m = inv.ordered m

  alone : (j k : ℕ) → i < n → j < n → i ≢ j → claims k (pc i) ≡ 1 → claims k (pc j) ≡ 0
  alone j k li lj ne h = ground (arith, sum_of-two (claims k) n pc i j li lj ne, inv.claimed k)

resume-IsFresh : (tasks : ℕ → List ℕ) (k : Option ℕ) → IsFresh tasks (resume k)
resume-IsFresh tasks none = tt
resume-IsFresh tasks (some t) = tt

-- A move that strays has strayed for good.
strayed-back :
    {mode : ℕ → Mode} {s s' : Server} {p p' : Pc}
    → Move mode s p s' p'
    → s'.strayed ≡ false
    → s.strayed ≡ false
strayed-back (put_failed m) h = cc (h)
strayed-back push_failed h = cc (h)
strayed-back (read_other k) h = cc (h)
strayed-back mv h = h

-- The thread that moves.
own-IsFresh :
    {mode : ℕ → Mode} {s s' : Server} {p p' : Pc}
    → Move mode s p s' p'
    → IsFresh s.tasks p
    → IsFresh s'.tasks p'
own-IsFresh (front t r c e) h = rw e refl
own-IsFresh (serve t r lt e) h = (rw e refl, lt)
own-IsFresh (start_serial e) h = omega arith
own-IsFresh finish h = omega (arith, h.1)
own-IsFresh {s = s} (signal {k = k}) h = resume-IsFresh s.tasks k
own-IsFresh {s = s} (no_more {k = k} e) h = resume-IsFresh s.tasks k
own-IsFresh mv h = tt

-- The others, when a task comes to a mission, and when one leaves a mission that they do not have.
put-IsFresh : (s : Server) (m t : ℕ) (q : Pc) → IsFresh s.tasks q → IsFresh (put_task m t s).tasks q
put-IsFresh s m t (fronted k u) h = ground (arith, first-append (s.tasks k) (t ∷ []) u)
put-IsFresh s m t (running k u c) h = (ground (arith, first-append (s.tasks k) (t ∷ []) u), h.1)
put-IsFresh s m t (serving k c) h = h
put-IsFresh s m t q h = tt

drop-IsFresh :
    (s : Server) (m t : ℕ) (q : Pc)
    → claims m q ≡ 0
    → IsFresh s.tasks q
    → IsFresh (drop_task m t s).tasks q
drop-IsFresh s m t (fronted k u) z h = ground arith
drop-IsFresh s m t (running k u c) z h = (ground arith, h.1)
drop-IsFresh s m t (serving k c) z h = h
drop-IsFresh s m t q z h = tt

module _ {n : ℕ} {s : Server} {pc : ℕ → Pc} (inv : Inv n s pc) (i : ℕ) where
  other-IsFresh :
      {mode : ℕ → Mode} {p p' : Pc} {s' : Server} (j : ℕ)
      → Move mode s p s' p'
      → pc i ≡ p
      → i < n
      → j < n
      → i ≢ j
      → IsFresh s'.tasks (pc j)
  other-IsFresh j (put m t) e li lj ne = put-IsFresh s m t (pc j) (inv.fresh j lj)
  other-IsFresh j (pop {m = m} {t = t}) e li lj ne =
      drop-IsFresh s m t (pc j) (alone inv i j m li lj ne (rw e (ground arith))) (inv.fresh j lj)
  other-IsFresh j (finish {m = m} {t = t}) e li lj ne =
      drop-IsFresh s m t (pc j) (alone inv i j m li lj ne (rw e (ground arith))) (inv.fresh j lj)
  other-IsFresh j mv e li lj ne = inv.fresh j lj

  Move-fresh :
      {mode : ℕ → Mode} {p' : Pc} {s' : Server}
      → i < n
      → Move mode s (pc i) s' p'
      → (j : ℕ) → j < n
      → IsFresh s'.tasks (set_at pc i p' j)
  Move-fresh {p' = p'} lt mv j lj = elim (ℕ_discrete i j) [
    | yes e ↦ rw (set_at-here pc i p' j e) (own-IsFresh mv (inv.fresh i lt))
    | no ne ↦ rw (set_at-other pc i p' j ne) (other-IsFresh j mv refl lt lj ne)
  ]

  pub Move-Inv :
      {mode : ℕ → Mode} {p' : Pc} {s' : Server}
      → i < n
      → Move mode s (pc i) s' p'
      → s'.strayed ≡ false
      → Inv n s' (set_at pc i p')
  Move-Inv {p' = p'} lt mv h =
      let f = mover inv i lt p' in
      record {
        claimed = Move-claimed inv i mv f h;
        signalled = Move-signalled inv i mv f h;
        noticed = Move-noticed inv i mv f;
        ordered = Move-ordered inv i mv f;
        fresh = Move-fresh lt mv;
      }

initial-Inv : (n : ℕ) → Inv n initial.server initial.pc
initial-Inv n = record {
  claimed = λ m. omega (arith, sum_of-zero (claims m) n (λ _. idle) (λ _ _. refl));
  signalled = omega (arith, sum_of-zero in_flight n (λ _. idle) (λ _ _. refl));
  noticed = λ m h. absurd (omega arith);
  ordered = λ m. refl;
  fresh = λ i h. tt;
}

pub Reach-Inv :
    {mode : ℕ → Mode} {n : ℕ} {y : System}
    → Reach mode n y
    → y.server.strayed ≡ false
    → Inv n y.server y.pc
Reach-Inv {n = n} start h = initial-Inv n
Reach-Inv (next r (pick i lt mv)) h = Move-Inv (Reach-Inv r (strayed-back mv h)) i lt mv h
