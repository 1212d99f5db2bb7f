-- ===== src/Queue/Front.antt =====
-- The begin of the chunk queue: `zqueue_pop`, `zqueue_push_front` and `zqueue_front`.
use zinfo_tech.Base.{
  Err, ℕ, zero, suc, ◌+◌, ◌-◌, ◌*◌, ◌^◌, ◌<◌, ◌≡◌, ◌≢◌, sym, ap, ◌∙◌, false, Option, none, some,
  List, [], ◌∷◌, ◌++◌, arith, ok, not_exist, inc32, dec32, ◌==◌, Option-cases, inl, inr,
}
use native.Mathlib.Decide.{dec_lt}
use zinfo_tech.Base.Int.{pos}
use zinfo_tech.Base.Lists.{length}
use zinfo_tech.Queue.{
  Chunk, Queue, push_front, pop, front, take_chunk, write_begin, step_begin, first_chunk, read,
  write,
}
use zinfo_tech.Queue.Slots.{items, Spans, vals, Spans-zero}
use zinfo_tech.Queue.Items.{first_end, items-step, items-cons, items-write_begin}
use zinfo_tech.Queue.Steps.{
  state, read-slot, step_begin-room, step_begin-drop, store_begin-slot, retreat_begin-room,
  retreat_begin-grow,
}
use zinfo_tech.Queue.Refine.{IsQueue, valid}

module _ {A : Type 0} (n w : ℕ) (hw : 0 < w) where
  -- With a value there, the first slot is a used one of the first chunk.
  first_used :
      (c : Chunk A) (r : List (Chunk A)) (i j : ℕ) {x : A} {xs : List A}
      → i < n
      → items n w i (c ∷ r) j ≡ x ∷ xs
      → i < first_end n r j
  unfolding items vals
  first_used c [] i j hi e = elim (dec_lt i j) [
    | yes h ↦ h
    | no h ↦
        let z : j - i ≡ 0 = omega arith in
        let none_left : vals c.value w i (j - i) ++ [] ≡ [] = rw z in absurd (cc none_left)
  ]
  first_used c (d ∷ r) i j hi e = hi

  module _ (c : Chunk A) (r : List (Chunk A)) (i j : ℕ) {x : A} {xs : List A} (hi : i < n)
      (e : items n w i (c ∷ r) j ≡ x ∷ xs) where
    stepped : c.value (i * w) ∷ items n w (i + 1) (c ∷ r) j ≡ x ∷ xs
    stepped = sym (items-step n w hw c r i j (first_used c r i j hi e)) ∙ e

    first_value : c.value (i * w) ≡ x
    first_value = cc stepped

    rest_values : items n w (i + 1) (c ∷ r) j ≡ xs
    rest_values = cc stepped

  -- One step of `begin_pos` leaves the values behind the first.
  step_begin-rest :
      (cs : List (Chunk A)) (spare : Option (Chunk A)) (s i j : ℕ) {x : A} {xs : List A}
      → i < n
      → j < n
      → Spans i cs j
      → items n w i cs j ≡ x ∷ xs
      → s ≡ length xs
      → s < 2 ^ 31
      → (q' : Queue A) × (step_begin (state n w cs spare s i j) ≡ some q') × IsQueue n w q' xs
  step_begin-rest [] spare s i j hi hj sp e se sb = absurd sp
  step_begin-rest (c ∷ []) spare s i j hi hj sp e se sb =
      let u : i < j = first_used c [] i j hi e in
      (
        state n w (c ∷ []) spare s (i + 1) j,
        step_begin-room n w (c ∷ []) spare s i j hw (omega arith),
        valid (c ∷ []) spare s (i + 1) j hw (omega arith) hj (omega arith)
            (rest_values c [] i j hi e) se sb,
      )
  step_begin-rest (c ∷ d ∷ r) spare s i j hi hj sp e se sb = elim (dec_lt (i + 1) n) [
    | yes h ↦ (
      state n w (c ∷ d ∷ r) spare s (i + 1) j,
      step_begin-room n w (c ∷ d ∷ r) spare s i j hw h,
      valid (c ∷ d ∷ r) spare s (i + 1) j hw h hj tt (rest_values c (d ∷ r) i j hi e) se sb,
    )
    | no h ↦
        let last : i + 1 ≡ n = omega arith in
        (
          state n w (d ∷ r) (some c) s 0 j,
          step_begin-drop n w c d r spare s i j last,
          valid (d ∷ r) (some c) s 0 j hw (omega arith) hj (Spans-zero d r j)
              (sym (items-cons n w hw c d r j)
                ∙ ap (λ t. items n w t (c ∷ d ∷ r) j) (sym last)
                ∙ rest_values c (d ∷ r) i j hi e)
              se sb,
        )
  ]

first-value :
    {A : Type 0} (n w : ℕ) (cs : List (Chunk A)) (spare : Option (Chunk A)) (s i j : ℕ) {x : A}
    {xs : List A}
    → 0 < w
    → i < n
    → Spans i cs j
    → items n w i cs j ≡ x ∷ xs
    → read (state n w cs spare s i j) (first_chunk cs) (pos (i * w)) ≡ some x
unfolding first_chunk
first-value n w [] spare s i j hw hi sp e = absurd sp
first-value n w (c ∷ r) spare s i j hw hi sp e =
    read-slot n w (c ∷ r) spare s c i j i hi ∙ ap some (first_value n w hw c r i j hi e)

-- A pop of a queue with a value in it returns the oldest one and leaves the rest.
pub pop-cons :
    {A : Type 0} {n w : ℕ} {q : Queue A} {x : A} {xs : List A}
    → IsQueue n w q (x ∷ xs)
    → (q' : Queue A) × (pop q ≡ some (ok, some x, q')) × IsQueue n w q' xs
unfolding pop
pop-cons {n} {w} {x} {xs} (valid cs spare s i j hw hi hj sp e se sb) =
    let (q', stepped, ok') =
      step_begin-rest n w hw cs spare (dec32 s) i j hi hj sp e (omega arith) (omega arith) in
    let some_left : (s == 0) ≡ false = ground arith in
    (q', rw (some_left, first-value n w cs spare s i j hw hi sp e, stepped), ok')

-- A pop of an empty queue reports it and changes nothing.
pub pop-nil :
    {A : Type 0} {n w : ℕ} {q : Queue A} → IsQueue n w q [] → pop q ≡ some (not_exist, none, q)
unfolding pop
pop-nil (valid cs spare s i j hw hi hj sp e se sb) = rw se

-- `zqueue_front` returns the oldest value.
pub front-cons :
    {A : Type 0} {n w : ℕ} {q : Queue A} {x : A} {xs : List A}
    → IsQueue n w q (x ∷ xs)
    → front q ≡ some (ok, some x)
unfolding front
front-cons {n} {w} (valid cs spare s i j hw hi hj sp e se sb) =
    let some_left : (s == 0) ≡ false = ground arith in
    rw (some_left, first-value n w cs spare s i j hw hi sp e)

Spans-le :
    {A : Type 0} (c c' : Chunk A) (r : List (Chunk A)) (i j : ℕ)
    → Spans (suc i) (c ∷ r) j
    → Spans i (c' ∷ r) j
Spans-le c c' [] i j h = omega arith
Spans-le c c' (d ∷ r) i j h = tt

first_before :
    {A : Type 0} {n : ℕ} (c : Chunk A) (r : List (Chunk A)) (i j : ℕ)
    → suc i < n
    → Spans (suc i) (c ∷ r) j
    → i < first_end n r j
first_before c [] i j hi h = omega arith
first_before c (d ∷ r) i j hi h = omega arith

inc32-cons :
    {A : Type 0} (xs : List A) (v : A) (s : ℕ)
    → s ≡ length xs
    → length xs + 1 < 2 ^ 31
    → (inc32 s ≡ length (v ∷ xs)) × (inc32 s < 2 ^ 31)
inc32-cons xs v s e h = omega arith

module _ {A : Type 0} (zeros : A) where
  -- With a chunk to be had should the first one have no slot left, a push to the front puts the value
  -- first. What it answers is `undefined`.
  pub push_front-cons :
      {n w : ℕ} {q : Queue A} {xs : List A} (undefined : Err) (mem : Option ℕ) (v : A)
      → IsQueue n w q xs
      → take_chunk zeros mem q ≢ none
      → length xs + 1 < 2 ^ 31
      → (q' : Queue A) × (push_front zeros undefined mem q v ≡ some (undefined, q'))
        × IsQueue n w q' (v ∷ xs)
  unfolding push_front take_chunk write_begin
  push_front-cons {n} {w} undefined mem v (valid [] spare s i j hw hi hj sp e se sb) grows small =
      absurd sp
  push_front-cons {n} {w} undefined mem v (valid (c ∷ r) spare s zero j {xs} hw hi hj sp e se sb)
        grows small =
      elim (Option-cases (take_chunk zeros mem (state n w (c ∷ r) spare s 0 j))) [
        | inl t ↦ absurd (grows t)
        | inr (f, t) ↦
            let m : ℕ = n - 1 in
            let up : m + 1 ≡ n = omega arith in
            let size = inc32-cons xs v s se small in
            (
              state n w (write_begin (f ∷ c ∷ r) (m * w) v) none (inc32 s) m j,
              rw (
                retreat_begin-grow n w (c ∷ r) spare s zeros mem m j {c = f} hw (omega arith) t,
                store_begin-slot n w (f ∷ c ∷ r) none s m j v (omega arith),
              ),
              valid (write_begin (f ∷ c ∷ r) (m * w) v) none (inc32 s) m j hw (omega arith) hj tt
                  (items-write_begin n w hw f (c ∷ r) m j v (omega arith)
                    ∙ ap (λ t. v ∷ t)
                        (ap (λ t. items n w t (f ∷ c ∷ r) j) up ∙ items-cons n w hw f c r j ∙ e))
                  size.0 size.1,
            )
      ]
  push_front-cons {n} {w} undefined mem v (valid (c ∷ r) spare s (suc i) j {xs} hw hi hj sp e se sb)
        grows small =
      let size = inc32-cons xs v s se small in
      let up : i + 1 ≡ suc i = omega arith in
      (
        state n w (write_begin (c ∷ r) (i * w) v) spare (inc32 s) i j,
        rw (
          retreat_begin-room n w (c ∷ r) spare s zeros mem i j,
          store_begin-slot n w (c ∷ r) spare s i j v (omega arith),
        ),
        valid (write_begin (c ∷ r) (i * w) v) spare (inc32 s) i j hw (omega arith) hj
            (Spans-le c (write c (i * w) v) r i j sp)
            (items-write_begin n w hw c r i j v (first_before c r i j hi sp)
              ∙ ap (λ t. v ∷ t) (ap (λ t. items n w t (c ∷ r) j) up ∙ e))
            size.0 size.1,
      )
