-- ===== src/Queue/Back.antt =====
-- The end of the chunk queue: `zqueue_pop_back` and `zqueue_back`.
use zinfo_tech.Base.{
  ℕ, zero, suc, ◌+◌, ◌-◌, ◌*◌, ◌^◌, ◌≤◌, ◌<◌, ◌≡◌, refl, sym, ap, ◌∙◌, false, Option, none, some,
  List, [], ◌∷◌, ◌++◌, arith, ok, not_exist, dec32, ◌==◌,
}
use native.Mathlib.Decide.{dec_lt}
use zinfo_tech.Base.Int.{pos}
use zinfo_tech.Base.Lists.{length, length-append}
use zinfo_tech.Queue.{Chunk, Queue, pop_back, read, retreat_end, last_chunk, drop_last}
use zinfo_tech.Queue.Slots.{items, Spans, vals}
use zinfo_tech.Queue.Items.{items-last, items-drop_last}
use zinfo_tech.Queue.Steps.{state, read-slot, retreat_end-room, retreat_end-drop, some-last_chunk}
use zinfo_tech.Queue.Refine.{IsQueue, valid}

snoc_injective :
    {A : Type 0} (xs ys : List A) (x y : A) → xs ++ (x ∷ []) ≡ ys ++ (y ∷ []) → (xs ≡ ys) × (x ≡ y)
snoc_injective [] [] x y h = (refl, cc)
snoc_injective [] (b ∷ []) x y h = absurd (cc h)
snoc_injective [] (b ∷ c ∷ ys) x y h = absurd (cc h)
snoc_injective (a ∷ []) [] x y h = absurd (cc h)
snoc_injective (a ∷ c ∷ xs) [] x y h = absurd (cc h)
snoc_injective (a ∷ xs) (b ∷ ys) x y h =
    let head : a ≡ b = cc h in
    let rest : xs ++ (x ∷ []) ≡ ys ++ (y ∷ []) = cc h in
    let (e, f) = snoc_injective xs ys x y rest in (cc, f)

snoc-ne-nil : {A : Type 0} (xs : List A) (x : A) → [] ≡ xs ++ (x ∷ []) → ⊥
snoc-ne-nil [] x h = cc h
snoc-ne-nil (a ∷ xs) x h = cc h

module _ {A : Type 0} (n w : ℕ) (hw : 0 < w) where
  -- In one chunk the last of the values does not lie before the first.
  last_used :
      (c : Chunk A) (i j : ℕ) (x : A) (xs : List A)
      → items n w i (c ∷ []) j ≡ xs ++ (x ∷ [])
      → i < j
  unfolding items vals
  last_used c i j x xs e = go (dec_lt i j)
    where
      go : Dec (i < j) → i < j
      go (yes h) = h
      go (no h) =
          let z : j - i ≡ 0 = omega arith in
          let empty : vals c.value w i (j - i) ++ [] ≡ [] = rw z in
          absurd (snoc-ne-nil xs x (sym empty ∙ e))

  Spans-last :
      (cs : List (Chunk A)) (i j : ℕ) (x : A) (xs : List A)
      → Spans i cs (suc j)
      → items n w i cs (suc j) ≡ xs ++ (x ∷ [])
      → Spans i cs j
  Spans-last [] i j x xs sp e = sp
  Spans-last (c ∷ []) i j x xs sp e = let h = last_used c i (suc j) x xs e in omega arith
  Spans-last (c ∷ d ∷ r) i j x xs sp e = tt

  -- The last value stands before the end, and the others are what is left.
  last_value :
      (cs : List (Chunk A)) (i j : ℕ) {c : Chunk A} {x : A} {xs : List A}
      → Spans i cs j
      → last_chunk cs ≡ some c
      → items n w i cs (j + 1) ≡ xs ++ (x ∷ [])
      → (items n w i cs j ≡ xs) × (c.value (j * w) ≡ x)
  last_value cs i j {x = x} {xs = xs} sp l e =
      snoc_injective _ _ _ _ (sym (items-last n w hw cs i j sp l) ∙ e)

  Spans-drop_last :
      (c d : Chunk A) (r : List (Chunk A)) (i j : ℕ) → i ≤ j → Spans i (drop_last (c ∷ d ∷ r)) j
  unfolding drop_last
  Spans-drop_last c d [] i j h = h
  Spans-drop_last c d (e ∷ []) i j h = tt
  Spans-drop_last c d (e ∷ f ∷ r) i j h = tt

some-last :
    {A : Type 0} (cs : List (Chunk A)) (i j : ℕ)
    → Spans i cs j
    → (c : Chunk A) × (last_chunk cs ≡ some c)
some-last [] i j sp = absurd sp
some-last (c ∷ r) i j sp = some-last_chunk c r

module _ {A : Type 0} (n w : ℕ) (hw : 0 < w) (s i : ℕ) (hi : i < n) where
  read-last :
      (cs : List (Chunk A)) (spare : Option (Chunk A)) (j : ℕ) {c : Chunk A} {x : A}
      → j < n
      → last_chunk cs ≡ some c
      → c.value (j * w) ≡ x
      → read (state n w cs spare s i j) (last_chunk cs) (pos (j * w)) ≡ some x
  read-last cs spare j {c} {x} hj l is = rw (l, read-slot n w cs spare s c i j j hj, is)

  -- The end position steps back to the slot of the last value.
  retreat_end-last :
      (cs : List (Chunk A)) (spare : Option (Chunk A)) (j : ℕ) (x : A) (xs : List A)
      → j < n
      → Spans i cs j
      → items n w i cs j ≡ xs ++ (x ∷ [])
      → s ≡ length xs
      → s < 2 ^ 31
      → (q' : Queue A) × (retreat_end (state n w cs spare s i j) ≡ some q')
        × (read q' (last_chunk q'.chunks) q'.end_pos ≡ some x)
        × IsQueue n w q' xs
  retreat_end-last cs spare (suc j) x xs hj sp e se sb =
      let sp' : Spans i cs j = Spans-last n w hw cs i j x xs sp e in
      let (c, l) = some-last cs i j sp' in
      let up : j + 1 ≡ suc j = omega arith in
      let (rest, is) = last_value n w hw cs i j sp' l (ap (λ t. items n w i cs t) up ∙ e) in
      (
        state n w cs spare s i j,
        retreat_end-room n w cs spare s i j,
        read-last cs spare j (omega arith) l is,
        valid cs spare s i j hw hi (omega arith) sp' rest se sb,
      )
  retreat_end-last [] spare zero x xs hj sp e se sb = absurd sp
  retreat_end-last (c ∷ []) spare zero x xs hj sp e se sb =
      let h = last_used n w hw c i 0 x xs e in absurd (omega arith)
  retreat_end-last (c ∷ d ∷ r) spare zero x xs hj sp e se sb =
      let m : ℕ = n - 1 in
      let cs : List (Chunk A) = drop_last (c ∷ d ∷ r) in
      let spare' = last_chunk (d ∷ r) in
      let up : m + 1 ≡ n = omega arith in
      let sp' : Spans i cs m = Spans-drop_last n w hw c d r i m (omega arith) in
      let (b, l) = some-last cs i m sp' in
      let (rest, is) =
        last_value n w hw cs i m sp' l
          (ap (λ t. items n w i cs t) up ∙ items-drop_last n w hw c d r i ∙ e) in
      (
        state n w cs spare' s i m,
        retreat_end-drop n w c d r spare s i m hw (omega arith),
        read-last cs spare' m (omega arith) l is,
        valid cs spare' s i m hw hi (omega arith) sp' rest se sb,
      )

-- A pop at the end of a queue with a value in it returns the newest one and leaves the rest.
pub pop_back-snoc :
    {A : Type 0} {n w : ℕ} {q : Queue A} (x : A) (xs : List A)
    → IsQueue n w q (xs ++ (x ∷ []))
    → (q' : Queue A) × (pop_back q ≡ some (ok, some x, q')) × IsQueue n w q' xs
unfolding pop_back
pop_back-snoc {n} {w} x xs (valid cs spare s i j hw hi hj sp e se sb) =
    let k = length-append xs (x ∷ []) in
    let some_left : (s == 0) ≡ false = ground arith in
    let (q', stepped, value, ok') =
      retreat_end-last n w hw (dec32 s) i hi cs spare j x xs hj sp e (omega arith) (omega arith) in
    (q', rw (some_left, stepped, value), ok')

-- A pop at the end of an empty queue reports it and changes nothing.
pub pop_back-nil :
    {A : Type 0} {n w : ℕ} {q : Queue A} → IsQueue n w q [] → pop_back q ≡ some (not_exist, none, q)
unfolding pop_back
pop_back-nil (valid cs spare s i j hw hi hj sp e se sb) = rw se
