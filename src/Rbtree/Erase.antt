-- ===== src/Rbtree/Erase.antt =====
-- `zrbtree_erase` of src/rbtree.c on a red-black tree in order.
use zinfo_tech.Base.{
  ℕ, ◌≡◌, refl, Option, none, some, List, [], ◌∷◌, ◌++◌, inl, inr, Err, ok, fail, arith,
}
use zinfo_tech.Rbtree.{
  black, Tree, leaf, node, on_left, on_right, frame, Way, Sign, equal, great, little, Entry,
}
use zinfo_tech.Rbtree.Shape.{Rb, inorder, wrap, wrap_frame}
use zinfo_tech.Rbtree.Sorted.{Cut, Cut-left, Cut-right, Cut-cons, Sign-cases}
use zinfo_tech.Rbtree.Delete.{erase_at, erase}
use zinfo_tech.Rbtree.Unlink.{erase_node-Balanced}
use zinfo_tech.Rbtree.Hangs.{Taken, Hangs, Hangs-left, Hangs-right, Hangs-root, untouched}

module _ {V : Type 0} (cmp : V → V → Sign) (v : V) where
  -- Removal from a list of entries in order: the first that is equal to `v`.
  unfoldable pub erase_sorted : List (Entry V) → Err × Option (Entry V) × List (Entry V)
  erase_sorted [] = (fail, none, [])
  erase_sorted (e ∷ es) = elim (cmp e.item v) [
    | equal ↦ (ok, some e, es)
    | great ↦ (fail, none, e ∷ es)
    | little ↦ let (r, x, es') = erase_sorted es in (r, x, e ∷ es')
  ]

  erase_sorted-great :
      (xs : List (Entry V)) (e : Entry V) (ys : List (Entry V))
      → cmp e.item v ≡ great
      → erase_sorted (xs ++ (e ∷ ys))
        ≡ ((erase_sorted xs).0, (erase_sorted xs).1, (erase_sorted xs).2 ++ (e ∷ ys))
  unfolding erase_sorted
  erase_sorted-great [] e ys h = rw h
  erase_sorted-great (x ∷ xs) e ys h = ground (arith, erase_sorted-great xs e ys h)

  erase_sorted-little :
      (xs : List (Entry V)) (e : Entry V) (ys : List (Entry V))
      → cmp e.item v ≡ little
      → Cut cmp v (xs ++ (e ∷ ys))
      → erase_sorted (xs ++ (e ∷ ys))
        ≡ ((erase_sorted ys).0, (erase_sorted ys).1, xs ++ (e ∷ (erase_sorted ys).2))
  unfolding erase_sorted
  erase_sorted-little [] e ys h cut = rw h
  erase_sorted-little (x ∷ xs) e ys h cut =
      let (q, rest) = Cut-cons cmp v x xs e ys (λ q. cc) cut in
      rw (q, erase_sorted-little xs e ys h rest)

  erase_sorted-equal :
      (xs : List (Entry V)) (e : Entry V) (ys : List (Entry V))
      → cmp e.item v ≡ equal
      → Cut cmp v (xs ++ (e ∷ ys))
      → erase_sorted (xs ++ (e ∷ ys)) ≡ (ok, some e, xs ++ ys)
  unfolding erase_sorted
  erase_sorted-equal [] e ys h cut = rw h
  erase_sorted-equal (x ∷ xs) e ys h cut =
      let (q, rest) = Cut-cons cmp v x xs e ys (λ q. cc) cut in
      rw (q, erase_sorted-equal xs e ys h rest)

  abbrev Result : Way (Entry V) → Tree (Entry V) → Type 0
  Result p n =
      Taken (erase_sorted (inorder n)).0 (erase_sorted (inorder n)).1
        (wrap p (erase_sorted (inorder n)).2) (erase_at cmp v n p)

  settle :
      (n : Tree (Entry V)) (p : Way (Entry V)) {e : Err} {x : Option (Entry V)} {l : List (Entry V)}
      {out : Option (Err × Option (Entry V) × Tree (Entry V))}
      → erase_sorted (inorder n) ≡ (e, x, l)
      → Taken e x (wrap p l) out
      → Taken
          (erase_sorted (inorder n)).0
          (erase_sorted (inorder n)).1
          (wrap p (erase_sorted (inorder n)).2)
          out
  settle n p i b = rw i b

  erase_at-Taken :
      (n : Tree (Entry V)) (p : Way (Entry V)) → Hangs n p → Cut cmp v (inorder n) → Result p n
  unfolding erase_at inorder erase_sorted wrap wrap_frame
  erase_at-Taken leaf p h cut = untouched leaf p fail h refl
  erase_at-Taken (node c l e r) p h cut = elim (Sign-cases (cmp e.item v)) [
    | inl q ↦ settle (node c l e r) p (erase_sorted-little (inorder l) e (inorder r) q cut) (
        rw (q, erase_at)
          (erase_at-Taken r (frame on_right c e l ∷ p) (Hangs-right c l e r p h)
            (Cut-right cmp v (inorder l) e (inorder r) q cut)))
    | inr (inl q) ↦
        let b = erase_node-Balanced c l e r p h.way h.shape h.fits in
        settle (node c l e r) p (erase_sorted-equal (inorder l) e (inorder r) q cut) (record {
          tree = b.tree;
          returned = rw (q, b.returned, erase_at);
          height = b.height;
          shape = b.shape;
          contents = b.contents;
        })
    | inr (inr q) ↦ settle (node c l e r) p (erase_sorted-great (inorder l) e (inorder r) q) (
        rw (q, erase_at)
          (erase_at-Taken l (frame on_left c e r ∷ p) (Hangs-left c l e r p h)
            (Cut-left cmp v (inorder l) (e ∷ inorder r) cut)))
  ]

  -- From a red-black tree with a black root, in order for `v`, `zrbtree_erase` never faults: it
  -- returns a red-black tree with a black root, and the status and entries that the removal from the
  -- sorted list of the entries gives.
  pub erase-Taken :
      {h : ℕ} (t : Tree (Entry V))
      → Rb black h t
      → Cut cmp v (inorder t)
      → Taken
          (erase_sorted (inorder t)).0
          (erase_sorted (inorder t)).1
          (erase_sorted (inorder t)).2
          (erase cmp v t)
  unfolding erase wrap
  erase-Taken t b cut = erase_at-Taken t [] (Hangs-root b) cut
