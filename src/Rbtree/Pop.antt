-- ===== src/Rbtree/Pop.antt =====
-- `zrbtree_pop_front` of src/rbtree.c on a red-black tree.
use zinfo_tech.Base.{
  ℕ, ◌≡◌, refl, Bool, Option, none, some, List, [], ◌∷◌, ◌++◌, inl, inr, Err, ok, fail,
  if◌then◌else◌, arith, Bool-cases,
}
use zinfo_tech.Rbtree.{Color, black, Tree, leaf, node, on_left, frame, Way}
use zinfo_tech.Rbtree.Shape.{Rb, inorder, wrap, wrap_frame}
use zinfo_tech.Rbtree.Delete.{erase_node, pop_at, pop_front, unlink}
use zinfo_tech.Rbtree.Unlink.{erase_node-Balanced}
use zinfo_tech.Rbtree.Hangs.{Taken, Hangs, Hangs-left, Hangs-root, untouched}

module _ {E : Type 0} (condition : E → Bool) where
  -- Removal of the first of a list, if the condition accepts it.
  unfoldable pub pop_sorted : List E → Err × Option E × List E
  pop_sorted [] = (fail, none, [])
  pop_sorted (e ∷ es) = if condition e then (ok, some e, es) else (fail, none, e ∷ es)

  pop_sorted-append :
      (xs : List E) (e : E) (ms ys : List E)
      → pop_sorted ((xs ++ (e ∷ ms)) ++ ys) ≡ (
        (pop_sorted (xs ++ (e ∷ ms))).0,
        (pop_sorted (xs ++ (e ∷ ms))).1,
        (pop_sorted (xs ++ (e ∷ ms))).2 ++ ys,
      )
  unfolding pop_sorted
  pop_sorted-append [] e ms ys = ground arith
  pop_sorted-append (x ∷ xs) e ms ys = ground arith

  abbrev Popped : Way E → Tree E → Option (Err × Option E × Tree E) → Type 0
  Popped p n out =
      Taken (pop_sorted (inorder n)).0 (pop_sorted (inorder n)).1
        (wrap p (pop_sorted (inorder n)).2) out

  settle :
      (n : Tree E) (p : Way E) {e : Err} {x : Option E} {l : List E}
      {out : Option (Err × Option E × Tree E)}
      → pop_sorted (inorder n) ≡ (e, x, l)
      → Taken e x (wrap p l) out
      → Popped p n out
  settle n p i b = rw i b

  at_least :
      (c : Color) (e : E) (r : Tree E) (p : Way E)
      → Hangs (node c leaf e r) p
      → Popped p (node c leaf e r) (pop_at condition c leaf e r p)
  unfolding pop_at pop_sorted inorder erase_node
  at_least c e r p h = elim (Bool-cases (condition e)) [
    | inl q ↦
        let b = erase_node-Balanced c leaf e r p h.way h.shape h.fits in
        let is : unlink c r p ≡ some b.tree = b.returned in
        rw (q, pop_at)
          (record {
            tree = b.tree;
            returned = rw is refl;
            height = b.height;
            shape = b.shape;
            contents = b.contents;
          })
    | inr q ↦ rw (q, pop_at) (untouched (node c leaf e r) p fail h refl)
  ]

  pop_at-Taken :
      (c : Color) (l : Tree E) (e : E) (r : Tree E) (p : Way E)
      → Hangs (node c l e r) p
      → Popped p (node c l e r) (pop_at condition c l e r p)
  unfolding pop_at inorder wrap wrap_frame
  pop_at-Taken c leaf e r p h = at_least c e r p h
  pop_at-Taken c (node d l f m) e r p h =
      settle (node c (node d l f m) e r) p
        (pop_sorted-append (inorder l) f (inorder m) (e ∷ inorder r))
        (pop_at-Taken d l f m (frame on_left c e r ∷ p) (Hangs-left c (node d l f m) e r p h))

  -- From a red-black tree with a black root `zrbtree_pop_front` never faults: it takes the least
  -- entry if there is one and the condition accepts it, and nothing otherwise; what it leaves is a
  -- red-black tree with a black root and the other entries in order.
  pub pop_front-Taken :
      {h : ℕ} (t : Tree E)
      → Rb black h t
      → Taken
          (pop_sorted (inorder t)).0
          (pop_sorted (inorder t)).1
          (pop_sorted (inorder t)).2
          (pop_front condition t)
  unfolding pop_front wrap pop_sorted inorder
  pop_front-Taken leaf b = record {
    tree = leaf;
    returned = refl;
    height = _;
    shape = b;
    contents = refl;
  }
  pop_front-Taken (node c l e r) b = pop_at-Taken c l e r [] (Hangs-root b)
