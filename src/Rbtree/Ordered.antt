-- ===== src/Rbtree/Ordered.antt =====
-- Lists of entries in strict order, and comparisons that order them.
use zinfo_tech.Base.{◌≡◌, ◌∙◌, sym, Bool, List, [], ◌∷◌, inl, inr, Bool-cases}
use zinfo_tech.Rbtree.{Sign, equal, great, little, Entry}
use zinfo_tech.Rbtree.Sorted.{Cut, AllGreat, insert_sorted, Sign-cases}
use zinfo_tech.Rbtree.Erase.{erase_sorted}
use zinfo_tech.Rbtree.Pop.{pop_sorted}

-- What the tree asks of the comparison: a total preorder, given by signs.
pub record IsOrder {V : Type 0} (cmp : V → V → Sign) : Type 0 where
  pub from_little : (a b : V) → cmp a b ≡ little → cmp b a ≡ great
  pub from_great : (a b : V) → cmp a b ≡ great → cmp b a ≡ little
  pub from_equal : (a b : V) → cmp a b ≡ equal → (c : V) → cmp a c ≡ cmp b c
  pub chain : (a b c : V) → cmp a b ≡ little → cmp b c ≡ little → cmp a c ≡ little

module _ {V : Type 0} (cmp : V → V → Sign) where
  -- `v` stands below each entry.
  abbrev pub Below : V → List (Entry V) → Type 0
  Below v [] = Unit {0}
  Below v (e ∷ es) = (cmp v e.item ≡ little) × Below v es

  unfoldable pub Ordered : List (Entry V) → Type 0
  Ordered [] = Unit {0}
  Ordered (e ∷ es) = Below e.item es × Ordered es

module _ {V : Type 0} {cmp : V → V → Sign} (law : IsOrder cmp) where
  Below-AllGreat : (v : V) (es : List (Entry V)) → Below cmp v es → AllGreat cmp v es
  Below-AllGreat v [] b = tt
  Below-AllGreat v (e ∷ es) b = (law.from_little v e.item b.0, Below-AllGreat v es b.1)

  Below-chain : (v w : V) (es : List (Entry V)) → cmp v w ≡ little → Below cmp w es → Below cmp v es
  Below-chain v w [] h b = tt
  Below-chain v w (e ∷ es) h b = (law.chain v w e.item h b.0, Below-chain v w es h b.1)

  Below-equal : (v w : V) (es : List (Entry V)) → cmp w v ≡ equal → Below cmp w es → Below cmp v es
  Below-equal v w [] h b = tt
  Below-equal v w (e ∷ es) h b = (sym (law.from_equal w v h e.item) ∙ b.0, Below-equal v w es h b.1)

  -- A list in order is in order for each key.
  pub Ordered-Cut : (v : V) (es : List (Entry V)) → Ordered cmp es → Cut cmp v es
  unfolding Ordered Cut
  Ordered-Cut v [] o = tt
  Ordered-Cut v (e ∷ es) o = elim (Sign-cases (cmp e.item v)) [
    | inl q ↦ rw q (Ordered-Cut v es o.1)
    | inr (inl q) ↦ rw q (Below-AllGreat v es (Below-equal v e.item es q o.0))
    | inr (inr q) ↦
        rw q (Below-AllGreat v es (Below-chain v e.item es (law.from_great e.item v q) o.0))
  ]

  insert_sorted-Below :
      (multiple : Bool) (w v : V) (es : List (Entry V))
      → cmp w v ≡ little
      → Below cmp w es
      → Below cmp w (insert_sorted cmp multiple v es).1
  unfolding insert_sorted
  insert_sorted-Below multiple w v [] h b = (h, tt)
  insert_sorted-Below multiple w v (e ∷ es) h b = elim (Sign-cases (cmp e.item v)) [
    | inl q ↦ rw (q, Below) (b.0, insert_sorted-Below multiple w v es h b.1)
    | inr (inl q) ↦ elim (Bool-cases multiple) [
      | inl m ↦ rw (q, m, Below) b
      | inr m ↦ rw (q, m, Below) b
    ]
    | inr (inr q) ↦ rw (q, Below) (h, b)
  ]

  pub insert_sorted-Ordered :
      (multiple : Bool) (v : V) (es : List (Entry V))
      → Ordered cmp es
      → Ordered cmp (insert_sorted cmp multiple v es).1
  unfolding insert_sorted Ordered
  insert_sorted-Ordered multiple v [] o = (tt, tt)
  insert_sorted-Ordered multiple v (e ∷ es) o = elim (Sign-cases (cmp e.item v)) [
    | inl q ↦
        rw (q, Ordered)
          (insert_sorted-Below multiple e.item v es q o.0, insert_sorted-Ordered multiple v es o.1)
    | inr (inl q) ↦ elim (Bool-cases multiple) [
      | inl m ↦ rw (q, m, Ordered) o
      | inr m ↦ rw (q, m, Ordered) o
    ]
    | inr (inr q) ↦
        let h = law.from_great e.item v q in rw (q, Ordered) ((h, Below-chain v e.item es h o.0), o)
  ]

module _ {V : Type 0} (cmp : V → V → Sign) where
  erase_sorted-Below :
      (w v : V) (es : List (Entry V)) → Below cmp w es → Below cmp w (erase_sorted cmp v es).2
  unfolding erase_sorted
  erase_sorted-Below w v [] b = tt
  erase_sorted-Below w v (e ∷ es) b = elim (Sign-cases (cmp e.item v)) [
    | inl q ↦ rw (q, Below) (b.0, erase_sorted-Below w v es b.1)
    | inr (inl q) ↦ rw (q, Below) b.1
    | inr (inr q) ↦ rw (q, Below) b
  ]

  pub erase_sorted-Ordered :
      (v : V) (es : List (Entry V)) → Ordered cmp es → Ordered cmp (erase_sorted cmp v es).2
  unfolding erase_sorted Ordered
  erase_sorted-Ordered v [] o = tt
  erase_sorted-Ordered v (e ∷ es) o = elim (Sign-cases (cmp e.item v)) [
    | inl q ↦ rw (q, Ordered) (erase_sorted-Below e.item v es o.0, erase_sorted-Ordered v es o.1)
    | inr (inl q) ↦ rw (q, Ordered) o.1
    | inr (inr q) ↦ rw (q, Ordered) o
  ]

  pub pop_sorted-Ordered :
      (condition : Entry V → Bool) (es : List (Entry V))
      → Ordered cmp es
      → Ordered cmp (pop_sorted condition es).2
  unfolding pop_sorted Ordered
  pop_sorted-Ordered condition [] o = tt
  pop_sorted-Ordered condition (e ∷ es) o = elim (Bool-cases (condition e)) [
    | inl q ↦ rw (q, Ordered) o.1
    | inr q ↦ rw (q, Ordered) o
  ]
