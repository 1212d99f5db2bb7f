-- ===== src/Queue/Deque.antt =====
-- What a client may do with a chunk queue, and a double-ended queue of values that answers the same.
use zinfo_tech.Base.{
  ◌>>=◌, ℕ, ◌+◌, ◌^◌, ◌≤◌, ◌<◌, ◌≡◌, refl, Option, none, some, List, [], ◌∷◌, ◌++◌, arith, Err, ok,
  not_exist,
}
use zinfo_tech.Base.Lists.{length, length-append, Back, none_left, snoc, back_view}
use zinfo_tech.Queue.{Queue, push, push_front, pop, pop_back, take_chunk}
use zinfo_tech.Queue.Refine.{IsQueue, push-snoc}
use zinfo_tech.Queue.Front.{pop-cons, pop-nil, push_front-cons}
use zinfo_tech.Queue.Back.{pop_back-snoc, pop_back-nil}

-- A call; a push comes with the address that the allocator would give for a new chunk.
pub data Op (A : Type 0) : Type 0 where
  push_op : ℕ → A → Op A
  push_front_op : ℕ → A → Op A
  pop_op : Op A
  pop_back_op : Op A

abbrev pub Reply : Type 0 → Type 0
Reply A = Err × Option A

module _ {A : Type 0} where
  -- The values but the last, and the last.
  unfoldable pub unsnoc : List A → Option (List A × A)
  unsnoc [] = none
  unsnoc (x ∷ []) = some ([], x)
  unsnoc (x ∷ y ∷ r) = unsnoc (y ∷ r) >>= λ p. some (x ∷ p.0, p.1)

  unsnoc-snoc : (xs : List A) (x : A) → unsnoc (xs ++ (x ∷ [])) ≡ some (xs, x)
  unfolding unsnoc
  unsnoc-snoc [] x = refl
  unsnoc-snoc (a ∷ []) x = refl
  unsnoc-snoc (a ∷ b ∷ r) x = rw (unsnoc-snoc (b ∷ r) x)

  pop_reply : Option (List A × A) → Reply A × List A
  pop_reply none = ((not_exist, none), [])
  pop_reply (some (xs, x)) = ((ok, some x), xs)

  pop_first : List A → Reply A × List A
  pop_first [] = ((not_exist, none), [])
  pop_first (x ∷ xs) = ((ok, some x), xs)

  -- The abstract queue: a list, oldest value first. The answer of a push to the front comes as an
  -- argument.
  unfoldable pub spec : Err → List A → Op A → Reply A × List A
  unfolding pop_first pop_reply unsnoc
  spec answer xs (push_op a v) = ((ok, none), xs ++ (v ∷ []))
  spec answer xs (push_front_op a v) = ((answer, none), v ∷ xs)
  spec answer xs pop_op = pop_first xs
  spec answer xs pop_back_op = pop_reply (unsnoc xs)

  unfoldable pub spec_run : Err → List A → List (Op A) → List (Reply A)
  spec_run answer xs [] = []
  spec_run answer xs (op ∷ ops) = let (r, ys) = spec answer xs op in r ∷ spec_run answer ys ops

module _ {A : Type 0} (zeros : A) where
  -- While the allocator has memory a chunk can be had.
  pub grows : (q : Queue A) (a : ℕ) → take_chunk zeros (some a) q ≡ none → ⊥
  unfolding take_chunk
  grows q a h = ground arith

-- `undefined` is what `zqueue_push_front`, which has no `return` there, answers behind the copy.
module _ {A : Type 0} (zeros : A) (undefined : Err) where
  unfoldable pub step : Queue A → Op A → Option (Reply A × Queue A)
  step q (push_op a v) = push zeros (some a) q v >>= λ r. some ((r.0, none), r.1)
  step q (push_front_op a v) =
      push_front zeros undefined (some a) q v >>= λ r. some ((r.0, none), r.1)
  step q pop_op = pop q >>= λ r. some ((r.0, r.1), r.2)
  step q pop_back_op = pop_back q >>= λ r. some ((r.0, r.1), r.2)

  unfoldable pub run : Queue A → List (Op A) → Option (List (Reply A))
  run q [] = some []
  run q (op ∷ ops) = step q op >>= λ r. run r.1 ops >>= λ rs. some (r.0 ∷ rs)

  -- A valid queue after a call that answered as the abstract one.
  abbrev Answers : ℕ → ℕ → Queue A → List A → Op A → Type 0
  Answers n w q xs op =
      (q' : Queue A) × (step q op ≡ some ((spec undefined xs op).0, q'))
      × IsQueue n w q' (spec undefined xs op).1

  pop_back-Answers :
      (n w : ℕ) {q : Queue A} {xs : List A}
      → Back xs
      → IsQueue n w q xs
      → Answers n w q xs pop_back_op
  unfolding step spec
  pop_back-Answers n w {q} none_left is = (q, rw (pop_back-nil is), is)
  pop_back-Answers n w (snoc xs x) is =
      let (q', popped, is') = pop_back-snoc x xs is in
      (q', rw (popped, unsnoc-snoc xs x), rw (unsnoc-snoc xs x) is')

  pop-Answers : (n w : ℕ) {q : Queue A} (xs : List A) → IsQueue n w q xs → Answers n w q xs pop_op
  unfolding step spec
  pop-Answers n w {q} [] is = (q, rw (pop-nil is), is)
  pop-Answers n w (x ∷ xs) is = let (q', popped, is') = pop-cons is in (q', rw popped, is')

  -- On every call a valid queue answers as the list of its values, and stays valid.
  pub step_refines :
      {n w : ℕ} {q : Queue A} {xs : List A} (op : Op A)
      → IsQueue n w q xs
      → length xs + 1 < 2 ^ 31
      → (q' : Queue A) × (step q op ≡ some ((spec undefined xs op).0, q'))
        × IsQueue n w q' (spec undefined xs op).1
  unfolding step spec
  step_refines {q = q} (push_op a v) is small =
      let (q', pushed, is') = push-snoc zeros (some a) v is (grows zeros q a) small in
      (q', rw pushed, is')
  step_refines {q = q} (push_front_op a v) is small =
      let (q', pushed, is') =
        push_front-cons zeros undefined (some a) v is (grows zeros q a) small in
      (q', rw pushed, is')
  step_refines {n} {w} {xs = xs} pop_op is small = pop-Answers n w xs is
  step_refines {n} {w} {xs = xs} pop_back_op is small = pop_back-Answers n w (back_view xs) is

  length-pop : (xs : List A) → Back xs → length (spec undefined xs pop_back_op).1 ≤ length xs + 1
  unfolding spec
  length-pop xs none_left = omega arith
  length-pop xs (snoc ys y) = rw (unsnoc-snoc ys y) (omega (arith, length-append ys (y ∷ [])))

  pub length-spec : (xs : List A) (op : Op A) → length (spec undefined xs op).1 ≤ length xs + 1
  unfolding spec
  length-spec xs (push_op a v) = omega (arith, length-append xs (v ∷ []))
  length-spec xs (push_front_op a v) = omega arith
  length-spec [] pop_op = omega arith
  length-spec (x ∷ xs) pop_op = omega arith
  length-spec xs pop_back_op = length-pop xs (back_view xs)

  -- While the allocator has memory and the counter has room, the answers of every sequence of calls on
  -- a valid queue are those of the list of its values, and no access lies outside a chunk. What
  -- `zqueue_push_front` answers when it has put its value in front is undefined in the source: for
  -- whatever it is, the calls behind it answer so.
  pub run_refines :
      (ops : List (Op A)) {n w : ℕ} {q : Queue A} {xs : List A}
      → IsQueue n w q xs
      → length xs + length ops < 2 ^ 31
      → run q ops ≡ some (spec_run undefined xs ops)
  unfolding run spec_run
  run_refines [] is small = refl
  run_refines (op ∷ ops) {xs = xs} is small =
      let (q', stepped, is') = step_refines op is (omega arith) in
      rw (stepped, run_refines ops is' (omega (arith, length-spec xs op)))
