-- ===== src/Queue/Items.antt =====
-- What each update of the chunks does to the values that they hold.
use zinfo_tech.Base.{
  ℕ, suc, ◌+◌, ◌-◌, ◌*◌, ◌≤◌, ◌<◌, ◌≡◌, refl, ap, ◌∙◌, false, some, List, [], ◌∷◌, ◌++◌, append-nil,
  append_assoc, arith, if◌then◌else◌,
}
use zinfo_tech.Queue.{Chunk, write, write_end, write_begin, last_chunk, drop_last}
use zinfo_tech.Queue.Slots.{
  vals, items, Spans, null, vals-snoc, vals-write_after, vals-write_before, value-write_self,
  null-write_end, Spans-zero,
}

-- The slot where the last used one of the first chunk ends.
abbrev pub first_end : {A : Type 0} → ℕ → List (Chunk A) → ℕ → ℕ
first_end n r j = if null r then j else n

module _ {A : Type 0} (n w : ℕ) (hw : 0 < w) where
  vals-write_end :
      (c : Chunk A) (v : A) (i j : ℕ)
      → i ≤ j
      → vals (write c (j * w) v).value w i (j + 1 - i) ≡ vals c.value w i (j - i) ++ (v ∷ [])
  vals-write_end c v i j h =
      let e : j + 1 - i ≡ suc (j - i) = omega arith in
      let k : i + (j - i) ≡ j = omega arith in
      rw (e, vals-snoc, k, value-write_self, vals-write_after c v w j i (j - i) hw (omega arith))

  -- Copying a value to the end slot appends it.
  pub items-write_end :
      (cs : List (Chunk A)) (i j : ℕ) (v : A)
      → Spans i cs j
      → items n w i (write_end cs (j * w) v) (j + 1) ≡ items n w i cs j ++ (v ∷ [])
  unfolding items write_end
  items-write_end [] i j v h = absurd h
  items-write_end (c ∷ []) i j v h = rw (append-nil, append-nil) (vals-write_end c v i j h)
  items-write_end (c ∷ d ∷ r) i j v h =
      rw (null-write_end (d ∷ r) (j * w) v, append_assoc)
        (ap (λ t. vals c.value w i (n - i) ++ t) (items-write_end (d ∷ r) 0 j v (Spans-zero d r j)))

  -- The full last chunk and an empty one behind it hold the same values.
  pub items-snoc :
      (cs : List (Chunk A)) (f : Chunk A) (i j : ℕ)
      → Spans i cs j
      → items n w i (cs ++ (f ∷ [])) 0 ≡ items n w i cs n
  unfolding items vals
  items-snoc [] f i j h = absurd h
  items-snoc (c ∷ []) f i j h = refl
  items-snoc (c ∷ d ∷ r) f i j h =
      ap (λ t. vals c.value w i (n - i) ++ t) (items-snoc (d ∷ r) f 0 j (Spans-zero d r j))

  -- A chunk in front whose values begin at its end adds none.
  pub items-cons :
      (f c : Chunk A) (r : List (Chunk A)) (j : ℕ)
      → items n w n (f ∷ c ∷ r) j ≡ items n w 0 (c ∷ r) j
  unfolding items vals
  items-cons f c r j = let e : n - n ≡ 0 = omega arith in rw e

  -- The first value stands at the first slot.
  pub items-step :
      (c : Chunk A) (r : List (Chunk A)) (i j : ℕ)
      → i < first_end n r j
      → items n w i (c ∷ r) j ≡ c.value (i * w) ∷ items n w (i + 1) (c ∷ r) j
  unfolding items vals
  items-step c r i j h =
      let e : first_end n r j - i ≡ suc (first_end n r j - (i + 1)) = omega arith in rw e

  -- Copying a value to the slot before the first puts it in front.
  pub items-write_begin :
      (c : Chunk A) (r : List (Chunk A)) (i j : ℕ) (v : A)
      → i < first_end n r j
      → items n w i (write_begin (c ∷ r) (i * w) v) j ≡ v ∷ items n w (i + 1) (c ∷ r) j
  unfolding items write_begin
  items-write_begin c r i j v h =
      items-step (write c (i * w) v) r i j h
      ∙ rw (
        value-write_self c (i * w) v,
        vals-write_before c v w i (i + 1) (first_end n r j - (i + 1)) hw (omega arith),
      )

  -- The last value stands at the slot before the end.
  pub items-last :
      (cs : List (Chunk A)) (i j : ℕ) {c : Chunk A}
      → Spans i cs j
      → last_chunk cs ≡ some c
      → items n w i cs (j + 1) ≡ items n w i cs j ++ (c.value (j * w) ∷ [])
  unfolding items last_chunk
  items-last [] i j h l = absurd h
  items-last (c ∷ []) i j {c = c'} h l =
      let e : j + 1 - i ≡ suc (j - i) = omega arith in
      let k : i + (j - i) ≡ j = omega arith in
      let q : c.value (j * w) ≡ c'.value (j * w) = cc in
      rw (append-nil, append-nil, e, vals-snoc, k, q)
  items-last (c ∷ d ∷ r) i j h l =
      rw append_assoc
        (ap (λ t. vals c.value w i (n - i) ++ t) (items-last (d ∷ r) 0 j (Spans-zero d r j) l))

  null-drop_last :
      (d : Chunk A) (r : List (Chunk A)) (c : Chunk A) → null (drop_last (c ∷ d ∷ r)) ≡ false
  unfolding drop_last
  null-drop_last d r c = refl

  -- An unused last chunk can be left out.
  pub items-drop_last :
      (c d : Chunk A) (r : List (Chunk A)) (i : ℕ)
      → items n w i (drop_last (c ∷ d ∷ r)) n ≡ items n w i (c ∷ d ∷ r) 0
  unfolding items drop_last vals
  items-drop_last c d [] i = refl
  items-drop_last c d (e ∷ r) i = ap (λ t. vals c.value w i (n - i) ++ t) (items-drop_last d e r 0)

module _ {A : Type 0} where
  pub Spans-write_end :
      (cs : List (Chunk A)) (i j k p : ℕ) (v : A)
      → j ≤ k
      → Spans i cs j
      → Spans i (write_end cs p v) k
  unfolding write_end
  Spans-write_end [] i j k p v h s = s
  Spans-write_end (c ∷ []) i j k p v h s = omega arith
  Spans-write_end (c ∷ d ∷ []) i j k p v h s = tt
  Spans-write_end (c ∷ d ∷ e ∷ r) i j k p v h s = tt

  pub Spans-snoc :
      (cs : List (Chunk A)) (c : Chunk A) (i j k : ℕ) → Spans i cs k → Spans i (cs ++ (c ∷ [])) j
  Spans-snoc [] c i j k s = absurd s
  Spans-snoc (b ∷ []) c i j k s = tt
  Spans-snoc (b ∷ d ∷ r) c i j k s = tt
