-- ===== src/Rbtree/Find.antt =====
-- `zrbtree_find` of zit/container/rbtree.h on a tree in order.
use zinfo_tech.Base.{
  ◌≡◌, refl, Option, none, some, List, [], ◌∷◌, ◌++◌, inl, inr, Err, ok, not_exist, arith,
}
use zinfo_tech.Rbtree.{Tree, leaf, node, Sign, equal, great, little, Entry, find}
use zinfo_tech.Rbtree.Shape.{inorder}
use zinfo_tech.Rbtree.Sorted.{Cut, Cut-left, Cut-right, Cut-cons, Sign-cases}

module _ {V : Type 0} (cmp : V → V → Sign) (v : V) where
  -- The first entry of a list in order that is equal to `v`.
  unfoldable pub find_sorted : List (Entry V) → Err × Option (Entry V)
  find_sorted [] = (not_exist, none)
  find_sorted (e ∷ es) = elim (cmp e.item v) [
    | equal ↦ (ok, some e)
    | great ↦ (not_exist, none)
    | little ↦ find_sorted es
  ]

  find_sorted-great :
      (xs : List (Entry V)) (e : Entry V) (ys : List (Entry V))
      → cmp e.item v ≡ great
      → find_sorted (xs ++ (e ∷ ys)) ≡ find_sorted xs
  unfolding find_sorted
  find_sorted-great [] e ys h = rw h
  find_sorted-great (x ∷ xs) e ys h = ground (arith, find_sorted-great xs e ys h)

  -- Behind entries below `v`.
  find_sorted-skip :
      (xs : List (Entry V)) (e : Entry V) (ys : List (Entry V))
      → (cmp e.item v ≡ great → ⊥)
      → Cut cmp v (xs ++ (e ∷ ys))
      → find_sorted (xs ++ (e ∷ ys)) ≡ find_sorted (e ∷ ys)
  unfolding find_sorted
  find_sorted-skip [] e ys h cut = refl
  find_sorted-skip (x ∷ xs) e ys h cut =
      let (q, rest) = Cut-cons cmp v x xs e ys h cut in rw q (find_sorted-skip xs e ys h rest)

  -- In a tree in order for `v`, `zrbtree_find` finds what a search through all entries finds.
  pub find-find_sorted :
      (t : Tree (Entry V)) → Cut cmp v (inorder t) → find cmp v t ≡ find_sorted (inorder t)
  unfolding find inorder find_sorted
  find-find_sorted leaf cut = refl
  find-find_sorted (node c l e r) cut = elim (Sign-cases (cmp e.item v)) [
    | inl q ↦
        rw (find_sorted-skip (inorder l) e (inorder r) (λ p. cc) cut, q, find, find_sorted)
          (find-find_sorted r (Cut-right cmp v (inorder l) e (inorder r) q cut))
    | inr (inl q) ↦
        rw (find_sorted-skip (inorder l) e (inorder r) (λ p. cc) cut, q, find, find_sorted)
    | inr (inr q) ↦
        rw (find_sorted-great (inorder l) e (inorder r) q, q, find)
          (find-find_sorted l (Cut-left cmp v (inorder l) (e ∷ inorder r) cut))
  ]
