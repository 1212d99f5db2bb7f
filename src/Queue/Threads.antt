-- ===== src/Queue/Threads.antt =====
-- The calls that hold the lock, against those that do not.
use zinfo_tech.Base.{
  ◌∙◌, mem_insufficient, inc32, ◌-◌, ◌++◌, ◌>>=◌, ℕ, ◌+◌, ◌^◌, ◌<◌, ◌≡◌, refl, ap, sym, Bool, true,
  false, Option, none, some, List, [], ◌∷◌, arith, Err, ok, Bool-cases, Option-cases, inl, inr,
  not_exist, dec32, if◌then◌else◌, ◌==◌,
}
use zinfo_tech.Base.Lists.{length}
use zinfo_tech.Base.Int.{pos, ◌+ℤ◌, ltb_ℤ}
use zinfo_tech.Queue.{
  in_chunk, take_chunk, Queue, push, push_front, pop, pop_back, store_end, advance_end, read,
  first_chunk, last_chunk, step_begin, retreat_end,
}
use zinfo_tech.Queue.Refine.{IsQueue}
use zinfo_tech.Queue.Deque.{
  Op, push_op, push_front_op, pop_op, pop_back_op, Reply, spec, spec_run, step, step_refines,
  length-spec,
}
use zinfo_tech.Queue.Locked.{
  Pointer, Shared, released, holding, lock_push, lock_push_front, lock_pop, lock_pop_back,
  lock_front, unlock_front, lock_back_pos, unlock_back_pos, Place,
}

module _ {A : Type 0} where
  -- `zqueue_lock_front`, and `zqueue_unlock_front` behind it if there was a value.
  unfoldable pub let_go : Err × Option A × Shared A → Option (Err × Option A × Shared A)
  unfolding unlock_front
  let_go (ok, x, s) = unlock_front s >>= λ s'. some (ok, x, s')
  let_go (e, x, s) = some (e, x, s)

  unfoldable pub take_front : Shared A → Option (Err × Option A × Shared A)
  unfolding lock_front let_go
  take_front s = lock_front s >>= let_go

  -- What a pointer points to when the lock is given back; the sizes are those of the queue.
  unfoldable pub look :
      Queue A → Err × Option (Pointer A) × Shared A → Option (Err × Option A × Shared A)
  unfolding read
  look q (e, none, s) = some (e, none, s)
  look q (e, some p, s) = read q (some p.chunk) p.byte >>= λ v. some (e, some v, s)

  release_front :
      (q : Queue A) (x : A) (y : Option (Queue A))
      → y ≡ step_begin (record q { size = dec32 q.size })
      → let_go (ok, some x, holding q) ≡ (y >>= λ q'. some (ok, some x, released q'))
  unfolding let_go unlock_front
  release_front q x none h = rw (sym h) refl
  release_front q x (some q') h = rw (sym h) refl

  -- To pop, and to read with the lock still held.
  abbrev at_once : Queue A → Option (Err × Option A × Shared A)
  at_once q =
      if q.size == 0
      then some (not_exist, none, released q)
      else (read q (first_chunk q.chunks) q.begin_pos >>= λ v.
          step_begin (record q { size = dec32 q.size }) >>= λ q'. some (ok, some v, released q'))

  abbrev at_once_back : Queue A → Option (Err × Option A × Shared A)
  at_once_back q =
      if q.size == 0
      then some (not_exist, none, released q)
      else (retreat_end (record q { size = dec32 q.size }) >>= λ q'.
          read q' (last_chunk q'.chunks) q'.end_pos >>= λ v. some (ok, some v, released q'))

  lock_pop-at_once : (q : Queue A) → (lock_pop (released q) >>= look q) ≡ at_once q
  unfolding lock_pop look read
  lock_pop-at_once q = elim (Bool-cases (q.size == 0)) [
    | inl z ↦ rw z refl
    | inr z ↦ elim (Option-cases (first_chunk q.chunks)) [
      | inl n ↦ rw (z, n) refl
      | inr (c, n) ↦ elim (Bool-cases (in_chunk q q.begin_pos)) [
        | inl t ↦ elim (Option-cases (step_begin (record q { size = dec32 q.size }))) [
          | inl m ↦ rw (z, n, t, m) refl
          | inr (q', m) ↦ rw (z, n, m, t) refl
        ]
        | inr t ↦ elim (Option-cases (step_begin (record q { size = dec32 q.size }))) [
          | inl m ↦ rw (z, n, t, m) refl
          | inr (q', m) ↦ rw (z, n, m, t) refl
        ]
      ]
    ]
  ]

  lock_pop_back-at_once :
      (q : Queue A) → (lock_pop_back (released q) >>= λ r. look r.2.que r) ≡ at_once_back q
  unfolding lock_pop_back look read
  lock_pop_back-at_once q = elim (Bool-cases (q.size == 0)) [
    | inl z ↦ rw z refl
    | inr z ↦ elim (Option-cases (retreat_end (record q { size = dec32 q.size }))) [
      | inl n ↦ rw (z, n) refl
      | inr (q', n) ↦ elim (Option-cases (last_chunk q'.chunks)) [
        | inl m ↦ rw (z, n, m) refl
        | inr (c, m) ↦ rw (z, n, m) refl
      ]
    ]
  ]

  take_front-at_once : (q : Queue A) → take_front (released q) ≡ at_once q
  unfolding take_front lock_front
  take_front-at_once q = elim (Bool-cases (q.size == 0)) [
    | inl z ↦ rw z refl
    | inr z ↦ elim (Option-cases (read q (first_chunk q.chunks) q.begin_pos)) [
      | inl n ↦ rw (z, n) refl
      | inr (x, n) ↦ rw (z, n) (release_front q x _ refl)
    ]
  ]

module _ {A : Type 0} where
  -- To read the first value where it lies, and then let it go, is to pop it and to read what the
  -- pointer points to when the lock is given back.
  pub take_front-lock_pop :
      (q : Queue A) → take_front (released q) ≡ (lock_pop (released q) >>= look q)
  take_front-lock_pop q = take_front-at_once q ∙ sym (lock_pop-at_once q)

-- A call that holds the lock of the queue, and a look at what a popped pointer points to.
module _ {A : Type 0} (zeros : A) where
  unfoldable pub lock_step : Shared A → Op A → Option (Reply A × Shared A)
  lock_step s (push_op a v) = lock_push zeros (some a) s v >>= λ r. some ((r.0, none), r.1)
  lock_step s (push_front_op a v) =
      lock_push_front zeros (some a) s v >>= λ r. some ((r.0, none), r.1)
  lock_step s pop_op = (lock_pop s >>= look s.que) >>= λ r. some ((r.0, r.1), r.2)
  lock_step s pop_back_op =
      (lock_pop_back s >>= λ r. look r.2.que r) >>= λ r. some ((r.0, r.1), r.2)

  unfoldable pub lock_run : Shared A → List (Op A) → Option (List (Reply A))
  lock_run s [] = some []
  lock_run s (op ∷ ops) = lock_step s op >>= λ r. lock_run r.1 ops >>= λ rs. some (r.0 ∷ rs)

  bind_some :
      {B C D : Type 0} (x : Option B) (f : B → Option C) (g : C → D)
      → (x >>= λ b. f b >>= λ c. some (g c)) ≡ ((x >>= f) >>= λ c. some (g c))
  bind_some none f g = refl
  bind_some (some b) f g = refl

  lock_push-push :
      (mem : Option ℕ) (q : Queue A) (v : A)
      → lock_push zeros mem (released q) v ≡ (push zeros mem q v >>= λ r. some (r.0, released r.1))
  unfolding lock_push push
  lock_push-push mem q v =
      bind_some (store_end q v) (λ q'. some (advance_end zeros mem q')) (λ r. (r.0, released r.1))

  -- A guarded chain of two steps, mapped at its ends or as a whole.
  guarded :
      {B C R S : Type 0} (b : Bool) (n : R) (x : Option B) (f : B → Option C) (r : B → C → R)
      (g : R → S)
      → (if b then some (g n) else (x >>= λ v. f v >>= λ c. some (g (r v c))))
        ≡ ((if b then some n else (x >>= λ v. f v >>= λ c. some (r v c))) >>= λ z. some (g z))
  guarded true n x f r g = refl
  guarded false n none f r g = refl
  guarded {C = C} false n (some v) f r g = bind_last (f v)
    where
      bind_last :
          (y : Option C)
          → (y >>= λ c. some (g (r v c))) ≡ ((y >>= λ c. some (r v c)) >>= λ z. some (g z))
      bind_last none = refl
      bind_last (some c) = refl

  -- On a free lock each call that takes it does what the call without a lock does, errors included, a
  -- popped value being what the pointer points to when the lock is given back, with ZEOK for the missing answer of `zqueue_push_front`, and gives the lock back.
  pub locked_calls :
      (mem : Option ℕ) (q : Queue A) (v : A)
      → (lock_push zeros mem (released q) v
          ≡ (push zeros mem q v >>= λ r. some (r.0, released r.1)))
        × (lock_push_front zeros mem (released q) v
            ≡ (push_front zeros ok mem q v >>= λ r. some (r.0, released r.1)))
        × ((lock_pop (released q) >>= look q) ≡ (pop q >>= λ r. some (r.0, r.1, released r.2)))
        × ((lock_pop_back (released q) >>= λ r. look r.2.que r)
            ≡ (pop_back q >>= λ r. some (r.0, r.1, released r.2)))
  unfolding lock_push_front push_front pop pop_back
  locked_calls mem q v =
      let free : Err × Option A × Queue A → Err × Option A × Shared A =
        λ r. (r.0, r.1, released r.2) in
      (
        lock_push-push mem q v,
        refl,
        lock_pop-at_once q
            ∙ guarded (q.size == 0) (not_exist, none, q) (read q (first_chunk q.chunks) q.begin_pos)
                (λ _. step_begin (record q { size = dec32 q.size })) (λ x q'. (ok, some x, q'))
                free,
        lock_pop_back-at_once q
            ∙ guarded (q.size == 0) (not_exist, none, q)
                (retreat_end (record q { size = dec32 q.size }))
                (λ q'. read q' (last_chunk q'.chunks) q'.end_pos) (λ q' x. (ok, some x, q')) free,
      )

  abbrev free_reply : Option (Reply A × Queue A) → Option (Reply A × Shared A)
  free_reply none = none
  free_reply (some (r, q)) = some (r, released q)

  locked_put :
      (x : Option (Err × Queue A)) {y : Option (Err × Shared A)}
      → y ≡ (x >>= λ r. some (r.0, released r.1))
      → (out : Reply A × Queue A)
      → ◌>>=◌ {B = Reply A × Queue A} x (λ r. some ((r.0, none), r.1)) ≡ some out
      → ◌>>=◌ {B = Reply A × Shared A} y (λ r. some ((r.0, none), r.1))
        ≡ some (out.0, released out.1)
  locked_put none h out is = cc (is)
  locked_put (some (e, q)) h out is = rw h (ap free_reply is)

  locked_get :
      (x : Option (Err × Option A × Queue A)) {y : Option (Err × Option A × Shared A)}
      → y ≡ (x >>= λ r. some (r.0, r.1, released r.2))
      → (out : Reply A × Queue A)
      → ◌>>=◌ {B = Reply A × Queue A} x (λ r. some ((r.0, r.1), r.2)) ≡ some out
      → ◌>>=◌ {B = Reply A × Shared A} y (λ r. some ((r.0, r.1), r.2))
        ≡ some (out.0, released out.1)
  locked_get none h out is = cc (is)
  locked_get (some (e, v, q)) h out is = rw h (ap free_reply is)

  lock_step-step :
      (q : Queue A) (op : Op A) (out : Reply A × Queue A)
      → step zeros ok q op ≡ some out
      → lock_step (released q) op ≡ some (out.0, released out.1)
  unfolding lock_step step
  lock_step-step q (push_op a v) out is =
      locked_put (push zeros (some a) q v) (locked_calls (some a) q v).0 out is
  lock_step-step q (push_front_op a v) out is =
      locked_put (push_front zeros ok (some a) q v) (locked_calls (some a) q v).1 out is
  lock_step-step q pop_op out is = locked_get (pop q) (locked_calls none q zeros).2 out is
  lock_step-step q pop_back_op out is = locked_get (pop_back q) (locked_calls none q zeros).3 out is

  -- While the allocator has memory and the counter has room: of the calls that threads make on a shared
  -- queue, in the order in which they take its lock, each finds the lock free and answers as the list
  -- of its values does, and no access lies outside a chunk. A pop answers a pointer, and its value is
  -- what that points to when the lock is given back; what a thread finds there later is not said.
  pub lock_run_refines :
      (ops : List (Op A)) {n w : ℕ} {q : Queue A} {xs : List A}
      → IsQueue n w q xs
      → length xs + length ops < 2 ^ 31
      → lock_run (released q) ops ≡ some (spec_run ok xs ops)
  unfolding lock_run spec_run
  lock_run_refines [] is small = refl
  lock_run_refines (op ∷ ops) {q = q} {xs = xs} is small =
      let (q', stepped, is') = step_refines zeros ok op is (omega arith) in
      let r : lock_step (released q) op ≡ some ((spec ok xs op).0, released q') =
        lock_step-step q op ((spec ok xs op).0, q') stepped in
      rw (r, lock_run_refines ops is' (omega (arith, length-spec zeros ok xs op)))

abbrev pub is_ok : Err → Bool
is_ok ok = true
is_ok _ = false

module _ {A : Type 0} (zeros : A) (mem : Option ℕ) where
  -- Who asks for a place at the end of a queue whose lock is free gets an answer, holds the lock
  -- exactly when the answer is `ok`, and the count of the queue stays as it is until the place is
  -- given back by `zqueue_unlock_back_pos`, which counts the value and frees the lock.
  pub lock_back_pos-held :
      (q : Queue A)
      → (e : Err) × (place : Place) × (s : Shared A) × (lock_back_pos zeros mem (released q)
          ≡ some (e, place, s))
        × (s.held ≡ is_ok e)
        × (s.que.size ≡ q.size)
        × (unlock_back_pos s ≡ released (record s.que { size = inc32 q.size }))
  unfolding lock_back_pos unlock_back_pos
  lock_back_pos-held q =
      let place : Place = record { chunk = length q.chunks - 1; byte = q.end_pos } in
      let p = q.end_pos +ℤ pos q.value_size in
      elim (Bool-cases (ltb_ℤ p (pos q.chunk_length))) [
        | inl fits ↦ (
          ok,
          place,
          holding (record q { end_pos = p }),
          rw (fits, lock_back_pos),
          refl,
          refl,
          refl,
        )
        | inr full ↦ elim (Option-cases (take_chunk zeros mem q)) [
          | inl n ↦ (
            mem_insufficient,
            place,
            released (record q { end_pos = p; spare_chunk = none }),
            rw (full, n, lock_back_pos),
            refl,
            refl,
            refl,
          )
          | inr (c, n) ↦ (
            ok,
            place,
            holding
                (record q { chunks = q.chunks ++ (c ∷ []); spare_chunk = none; end_pos = pos 0 }),
            rw (full, n, lock_back_pos),
            refl,
            refl,
            refl,
          )
        ]
      ]
