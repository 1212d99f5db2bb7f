-- ===== src/Net/Sessions/Kept.antt =====
-- What holds between the moves of the threads that serve sessions.
use zinfo_tech.Base.{
  false, ℕ, ◌+◌, ◌%◌, ◌^◌, ◌≤◌, ◌<◌, ◌≡◌, refl, ◌≢◌, [], ◌∷◌, arith, if◌then◌else◌, ◌==◌,
}
use zinfo_tech.Base.Lists.{length, length-append}
use zinfo_tech.Base.Count.{bit, occurrences, occurrences-append}
use zinfo_tech.Base.Family.{
  set_at, sum_of, sum_of-set_at, sum_of-one, sum_of-two, sum_of-zero, set_at-here, set_at-other,
}
use native.Mathlib.Decide.{ℕ_discrete}
use zinfo_tech.Net.Sessions.{
  Server, Poll, found, pushing, posting, Pc, idle, popped, taken, working, hit, PollMove, hit_idle,
  hit_ready, set_ready, push, push_failed, report_out, read_other, Move, wait, pop, pop_none,
  read_hits, no_more_hits, System, report, work, initial, Reach, start, next,
}

-- A thread that is about to push the session, or has taken it off the queue.
abbrev pub brings : ℕ → Poll → ℕ
brings m (pushing k) = if m == k then 1 else 0
brings m p = 0

abbrev pub has : ℕ → Pc → ℕ
has m (popped k) = if m == k then 1 else 0
has m (taken k) = if m == k then 1 else 0
has m (working k h) = if m == k then 1 else 0
has m p = 0

abbrev pub finds : ℕ → Poll → ℕ
finds m (found k) = if m == k then 1 else 0
finds m p = 0

-- A thread that will raise the semaphore, or will look at the queue again.
abbrev pub posts : Poll → ℕ
posts posting = 1
posts p = 0

abbrev pub looks : Pc → ℕ
looks idle = 0
looks p = 1

-- What a worker knows of the counter that it has read.
abbrev pub IsRead : Server → Pc → Type 0
IsRead s (working m h) = (s.pin_hits m ≡ (h + s.since m) % 2 ^ 32) × (h < 2 ^ 32)
IsRead s p = Unit {0}

pub record Inv (n : ℕ) (s : Server) (e : Poll) (pc : ℕ → Pc) : Type 0 where
  pub claimed : (m : ℕ) → brings m e + sum_of (has m) n pc + occurrences m s.emq ≡ bit (s.status m)
  pub unset : (m : ℕ) → finds m e + bit (s.status m) ≤ 1
  pub noticed : (m : ℕ) → 0 < s.since m → 0 < finds m e + bit (s.status m)
  pub signalled : length s.emq ≤ s.sem_emq + posts e + sum_of looks n pc
  pub counted : (m : ℕ) → (s.since m < 2 ^ 32) × (s.pin_hits m < 2 ^ 32)
  pub known : (i : ℕ) → i < n → IsRead s (pc i)

hit-IsRead : (s : Server) (m : ℕ) (q : Pc) → IsRead s q → IsRead (hit m s) q
hit-IsRead s m (working k h) r = (ground (arith, r.0), r.1)
hit-IsRead s m q r = tt

module _ {n : ℕ} {s : Server} {pc : ℕ → Pc} where
  poll-claimed :
      {s' : Server} {e e' : Poll}
      → PollMove s e s' e'
      → Inv n s e pc
      → s'.strayed ≡ false
      → (m : ℕ) → brings m e' + sum_of (has m) n pc + occurrences m s'.emq ≡ bit (s'.status m)
  poll-claimed push_failed inv h m = cc (h)
  poll-claimed (report_out j k) inv h m = cc (h)
  poll-claimed (push {m = k}) inv h m =
      ground (arith, inv.claimed m, occurrences-append m s.emq (k ∷ []))
  poll-claimed (set_ready {m = k}) inv h m = ground (arith, inv.claimed m, inv.unset m)
  poll-claimed mv inv h m = ground (arith, inv.claimed m)

  poll-unset :
      {s' : Server} {e e' : Poll}
      → PollMove s e s' e'
      → Inv n s e pc
      → s'.strayed ≡ false
      → (m : ℕ) → finds m e' + bit (s'.status m) ≤ 1
  poll-unset (report_out j k) inv h m = cc (h)
  poll-unset (hit_idle k lt z) inv h m = ground (arith, inv.unset m)
  poll-unset mv inv h m = ground (arith, inv.unset m)

  poll-noticed :
      {s' : Server} {e e' : Poll}
      → PollMove s e s' e'
      → Inv n s e pc
      → s'.strayed ≡ false
      → (m : ℕ) → 0 < s'.since m
      → 0 < finds m e' + bit (s'.status m)
  poll-noticed (report_out j k) inv q m h = cc (q)
  poll-noticed (hit_idle k lt z) inv q m h = ground (arith, inv.noticed m)
  poll-noticed (hit_ready k lt z) inv q m h = ground (arith, inv.noticed m)
  poll-noticed mv inv q m h = ground (arith, inv.noticed m)

  poll-signalled :
      {s' : Server} {e e' : Poll}
      → PollMove s e s' e'
      → Inv n s e pc
      → length s'.emq ≤ s'.sem_emq + posts e' + sum_of looks n pc
  poll-signalled (push {m}) inv = ground (arith, inv.signalled, length-append s.emq (m ∷ []))
  poll-signalled mv inv = ground (arith, inv.signalled)

  poll-counted :
      {s' : Server} {e e' : Poll}
      → PollMove s e s' e'
      → Inv n s e pc
      → (m : ℕ) → (s'.since m < 2 ^ 32) × (s'.pin_hits m < 2 ^ 32)
  poll-counted (hit_idle k lt z) inv m = ground (arith, inv.counted m)
  poll-counted (hit_ready k lt z) inv m = ground (arith, inv.counted m)
  poll-counted mv inv m = inv.counted m

  poll-known :
      {s' : Server} {e e' : Poll}
      → PollMove s e s' e'
      → Inv n s e pc
      → (i : ℕ) → i < n
      → IsRead s' (pc i)
  poll-known (hit_idle m lt z) inv i li = hit-IsRead s m (pc i) (inv.known i li)
  poll-known (hit_ready m lt z) inv i li = hit-IsRead s m (pc i) (inv.known i li)
  poll-known mv inv i li = inv.known i li

  PollMove-Inv :
      {s' : Server} {e e' : Poll}
      → PollMove s e s' e'
      → Inv n s e pc
      → s'.strayed ≡ false
      → Inv n s' e' pc
  PollMove-Inv mv inv h = record {
    claimed = poll-claimed mv inv h;
    unset = poll-unset mv inv h;
    noticed = poll-noticed mv inv h;
    signalled = poll-signalled mv inv;
    counted = poll-counted mv inv;
    known = poll-known mv inv;
  }

module _ {n : ℕ} {s : Server} {e : Poll} {pc : ℕ → Pc} (inv : Inv n s e pc) (i : ℕ) where
  -- Worker `i` goes from `p` to `p'`.
  record Mover (p p' : Pc) : Type 0 where
    own : IsRead s p
    has_of : (m : ℕ) → sum_of (has m) n (set_at pc i p') + has m p ≡ sum_of (has m) n pc + has m p'
    least : (m : ℕ) → has m p ≤ sum_of (has m) n pc
    looks_of : sum_of looks n (set_at pc i p') + looks p ≡ sum_of looks n pc + looks p'

  mover : i < n → (p' : Pc) → Mover (pc i) p'
  mover lt p' = record {
    own = inv.known i lt;
    has_of = λ m. sum_of-set_at (has m) n pc i p' lt;
    least = λ m. sum_of-one (has m) n pc i lt;
    looks_of = sum_of-set_at looks n pc i p' lt;
  }

  work-claimed :
      {p p' : Pc} {s' : Server}
      → Move s p s' p'
      → Mover p p'
      → s'.strayed ≡ false
      → (m : ℕ)
      → brings m e + sum_of (has m) n (set_at pc i p') + occurrences m s'.emq ≡ bit (s'.status m)
  work-claimed (read_other k) f h m = cc (h)
  work-claimed (pop k r q) f h m = ground (arith, q, inv.claimed m, f.has_of m)
  work-claimed (no_more_hits {m = k} q) f h m = ground (arith, inv.claimed m, f.has_of m, f.least m)
  work-claimed mv f h m = ground (arith, inv.claimed m, f.has_of m)

  work-unset :
      {p p' : Pc} {s' : Server}
      → Move s p s' p'
      → Mover p p'
      → (m : ℕ) → finds m e + bit (s'.status m) ≤ 1
  work-unset (no_more_hits {m = k} q) f m = ground (arith, inv.unset m)
  work-unset mv f m = inv.unset m

  work-noticed :
      {p p' : Pc} {s' : Server}
      → Move s p s' p'
      → Mover p p'
      → (m : ℕ) → 0 < s'.since m
      → 0 < finds m e + bit (s'.status m)
  work-noticed (no_more_hits {m = k} q) f m h = ground (arith, inv.noticed m, f.own, inv.counted m)
  work-noticed (read_hits {m = k}) f m h = ground (arith, inv.noticed m)
  work-noticed mv f m h = inv.noticed m h

  work-signalled :
      {p p' : Pc} {s' : Server}
      → Move s p s' p'
      → Mover p p'
      → length s'.emq ≤ s'.sem_emq + posts e + sum_of looks n (set_at pc i p')
  work-signalled (wait g) f = ground (arith, inv.signalled, f.looks_of)
  work-signalled (pop k r q) f = ground (arith, q, inv.signalled, f.looks_of)
  work-signalled (pop_none q) f = ground (arith, q, inv.signalled, f.looks_of)
  work-signalled mv f = ground (arith, inv.signalled, f.looks_of)

  work-counted :
      {p p' : Pc} {s' : Server}
      → Move s p s' p'
      → (m : ℕ) → (s'.since m < 2 ^ 32) × (s'.pin_hits m < 2 ^ 32)
  work-counted (read_hits {m = k}) m = ground (arith, inv.counted m)
  work-counted mv m = inv.counted m

  alone : (j k : ℕ) → i < n → j < n → i ≢ j → has k (pc i) ≡ 1 → has k (pc j) ≡ 0
  alone j k li lj ne h = ground (arith, sum_of-two (has k) n pc i j li lj ne, inv.claimed k)

-- What has strayed has strayed for good.
poll-strayed :
    {s s' : Server} {e e' : Poll} → PollMove s e s' e' → s'.strayed ≡ false → s.strayed ≡ false
poll-strayed push_failed h = cc (h)
poll-strayed (report_out m k) h = cc (h)
poll-strayed mv h = h

work-strayed : {s s' : Server} {p p' : Pc} → Move s p s' p' → s'.strayed ≡ false → s.strayed ≡ false
work-strayed (read_other k) h = cc (h)
work-strayed mv h = h

-- The worker that moves, and another one when a counter is read.
own-IsRead :
    {s s' : Server} {p p' : Pc} → Move s p s' p' → ((m : ℕ) → s.pin_hits m < 2 ^ 32) → IsRead s' p'
own-IsRead (read_hits {m = k}) small = (ground (arith, small k), small k)
own-IsRead mv small = tt

other-IsRead :
    (s : Server) (m : ℕ) (q : Pc)
    → has m q ≡ 0
    → IsRead s q
    → IsRead (record s { since = set_at s.since m 0 }) q
other-IsRead s m (working k h) z r = (ground (arith, r.0), r.1)
other-IsRead s m q z r = tt

module _ {n : ℕ} {s : Server} {e : Poll} {pc : ℕ → Pc} (inv : Inv n s e pc) (i : ℕ) where
  others_known :
      {p p' : Pc} {s' : Server} (j : ℕ)
      → Move s p s' p'
      → pc i ≡ p
      → i < n
      → j < n
      → i ≢ j
      → IsRead s' (pc j)
  others_known j (read_hits {m = m}) q li lj ne =
      other-IsRead s m (pc j) (alone inv i j m li lj ne (rw q (ground arith))) (inv.known j lj)
  others_known j mv q li lj ne = inv.known j lj

  work-known :
      {p' : Pc} {s' : Server}
      → i < n
      → Move s (pc i) s' p'
      → (j : ℕ) → j < n
      → IsRead s' (set_at pc i p' j)
  work-known {p' = p'} lt mv j lj = elim (ℕ_discrete i j) [
    | yes q ↦ rw (set_at-here pc i p' j q) (own-IsRead mv (λ m. (inv.counted m).1))
    | no ne ↦ rw (set_at-other pc i p' j ne) (others_known j mv refl lt lj ne)
  ]

  Move-Inv :
      {p' : Pc} {s' : Server}
      → i < n
      → Move s (pc i) s' p'
      → s'.strayed ≡ false
      → Inv n s' e (set_at pc i p')
  Move-Inv {p' = p'} lt mv h =
      let f = mover inv i lt p' in
      record {
        claimed = work-claimed inv i mv f h;
        unset = work-unset inv i mv f;
        noticed = work-noticed inv i mv f;
        signalled = work-signalled inv i mv f;
        counted = work-counted inv i mv;
        known = work-known lt mv;
      }

initial-Inv : (n : ℕ) → Inv n initial.server initial.poll initial.pc
initial-Inv n = record {
  claimed = λ m. omega (arith, sum_of-zero (has m) n (λ _. idle) (λ _ _. refl));
  unset = λ m. omega arith;
  noticed = λ m h. absurd (omega arith);
  signalled = omega arith;
  counted = λ m. omega arith;
  known = λ i h. tt;
}

pub Reach-Inv :
    {n : ℕ} {y : System} → Reach n y → y.server.strayed ≡ false → Inv n y.server y.poll y.pc
Reach-Inv {n = n} start h = initial-Inv n
Reach-Inv (next r (report mv)) h = PollMove-Inv mv (Reach-Inv r (poll-strayed mv h)) h
Reach-Inv (next r (work i lt mv)) h = Move-Inv (Reach-Inv r (work-strayed mv h)) i lt mv h
