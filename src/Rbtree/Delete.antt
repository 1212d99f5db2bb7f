-- ===== src/Rbtree/Delete.antt =====
-- The rebalancing of a deletion, `delete_case1` to `delete_case6` of src/rbtree.c, and the functions
-- that remove a node. The node `n` stays in the tree until `replace_node`, and the cases do not look
-- at its contents: they take the way up from `n`, and return its way up afterwards.
use zinfo_tech.Base.{
  ◌>>=◌, ℕ, zero, suc, ◌+◌, Bool, not, ◌&&◌, Option, none, some, [], ◌∷◌, if◌then◌else◌, Err, ok,
  fail,
}
use zinfo_tech.Base.Lists.{length}
use zinfo_tech.Rbtree.{
  Color, red, black, is_red, Tree, leaf, node, Side, on_left, on_right, frame, Way, node_color,
  set_color, plug, rotate_left, rotate_right, Sign, equal, great, little, Entry,
}

module _ {E : Type 0} where
  -- A rotation at the parent of `n`, towards the side of `n`: the sibling comes up above it.
  unfoldable pub rotate_parent : Way E → Option (Way E)
  rotate_parent (frame on_left c e (node d l f r) ∷ p) =
      some (frame on_left c e l ∷ frame on_left d f r ∷ p)
  rotate_parent (frame on_right c e (node d l f r) ∷ p) =
      some (frame on_right c e r ∷ frame on_right d f l ∷ p)
  rotate_parent _ = none

  -- `node_color(sibling->left) == BLACK && node_color(sibling->right) == BLACK`
  unfoldable pub children_black : Tree E → Option Bool
  children_black leaf = none
  children_black (node c l e r) = some (not (is_red (node_color l)) && not (is_red (node_color r)))

  -- `sibling->right->color = BLACK`, which is asserted to be red, and `sibling->left`.
  unfoldable pub blacken_right : Color → Tree E → Option (Tree E)
  blacken_right c (node _ l e (node red a f b)) = some (node c l e (node black a f b))
  blacken_right c _ = none

  unfoldable pub blacken_left : Color → Tree E → Option (Tree E)
  blacken_left c (node _ (node red a f b) e r) = some (node c (node black a f b) e r)
  blacken_left c _ = none

  unfoldable pub delete_case6 : Way E → Option (Way E)
  unfolding rotate_parent blacken_left blacken_right
  delete_case6 [] = none
  delete_case6 (frame on_left c e s ∷ p) =
      blacken_right c s >>= λ s'. rotate_parent (frame on_left black e s' ∷ p)
  delete_case6 (frame on_right c e s ∷ p) =
      blacken_left c s >>= λ s'. rotate_parent (frame on_right black e s' ∷ p)

  -- The sibling, when its child on the side of `n` is the only red one: a rotation at the sibling
  -- brings that child up, black above a red one.
  unfoldable pub straighten : Side → Tree E → Option (Tree E)
  unfolding rotate_left rotate_right
  straighten side leaf = none
  straighten on_left (node c l e r) =
      if is_red (node_color l) && not (is_red (node_color r))
      then (set_color black l >>= λ l'. rotate_right (node red l' e r))
      else some (node c l e r)
  straighten on_right (node c l e r) =
      if is_red (node_color r) && not (is_red (node_color l))
      then (set_color black r >>= λ r'. rotate_left (node red l e r'))
      else some (node c l e r)

  unfoldable pub delete_case5 : Way E → Option (Way E)
  unfolding delete_case6 straighten
  delete_case5 [] = none
  delete_case5 (frame side c e s ∷ p) = elim (node_color s) [
    | red ↦ delete_case6 (frame side c e s ∷ p)
    | black ↦ straighten side s >>= λ s'. delete_case6 (frame side c e s' ∷ p)
  ]

  unfoldable pub delete_case4 : Way E → Option (Way E)
  unfolding delete_case5 children_black
  delete_case4 [] = none
  delete_case4 (frame side black e s ∷ p) = delete_case5 (frame side black e s ∷ p)
  delete_case4 (frame side red e s ∷ p) = elim (node_color s) [
    | red ↦ delete_case5 (frame side red e s ∷ p)
    | black ↦ children_black s >>= λ b.
        if b
        then (set_color red s >>= λ s'. some (frame side black e s' ∷ p))
        else delete_case5 (frame side red e s ∷ p)
  ]

  -- `up` is the call `delete_case1(t, n->parent)`.
  unfoldable pub delete_case3 : (Way E → Option (Way E)) → Way E → Option (Way E)
  unfolding delete_case4
  delete_case3 up [] = none
  delete_case3 up (frame side red e s ∷ p) = delete_case4 (frame side red e s ∷ p)
  delete_case3 up (frame side black e s ∷ p) = elim (node_color s) [
    | red ↦ delete_case4 (frame side black e s ∷ p)
    | black ↦ children_black s >>= λ b.
        if b
        then (set_color red s >>= λ s'. up p >>= λ p'. some (frame side black e s' ∷ p'))
        else delete_case4 (frame side black e s ∷ p)
  ]

  unfoldable pub delete_case2 : (Way E → Option (Way E)) → Way E → Option (Way E)
  unfolding delete_case3
  delete_case2 up [] = none
  delete_case2 up (frame side c e s ∷ p) = elim (node_color s) [
    | black ↦ delete_case3 up (frame side c e s ∷ p)
    | red ↦ set_color black s >>= λ s'. rotate_parent (frame side red e s' ∷ p) >>= delete_case3 up
  ]

  -- The fuel bounds the calls for ever higher nodes; `none` when it runs out.
  unfoldable pub delete_case1 : ℕ → Way E → Option (Way E)
  unfolding delete_case2
  delete_case1 zero p = none
  delete_case1 (suc k) [] = some []
  delete_case1 (suc k) (f ∷ p) = delete_case2 (delete_case1 k) (f ∷ p)

  -- The child in the place of `n`, black if that is the root.
  unfoldable pub replace_node : Way E → Tree E → Tree E
  replace_node [] (node c l e r) = node black l e r
  replace_node p child = plug p child

  -- Unlinks a node of the colour `c` with at most one child.
  unfoldable pub unlink : Color → Tree E → Way E → Option (Tree E)
  unfolding delete_case1 replace_node
  unlink red child p = some (replace_node p child)
  unlink black child p = delete_case1 (length p + 1) p >>= λ p'. some (replace_node p' child)

  -- `maximum_node`: its colour, its left child and its contents.
  unfoldable pub maximum_node : Color → Tree E → E → Tree E → Color × Tree E × E
  maximum_node c l e leaf = (c, l, e)
  maximum_node c l e (node d m f r) = maximum_node d m f r

  -- The way up from there, behind the way to the node that the search began at.
  unfoldable pub maximum_way : Color → Tree E → E → Tree E → Way E → Way E
  maximum_way c l e leaf p = p
  maximum_way c l e (node d m f r) p = maximum_way d m f r (frame on_right c e l ∷ p)

  -- The node found, and the node removed: with two children it changes places and colours with the
  -- greatest node on its left.
  unfoldable pub erase_node : Color → Tree E → E → Tree E → Way E → Option (Tree E)
  unfolding unlink maximum_node maximum_way
  erase_node c leaf e r p = unlink c r p
  erase_node c (node d l f m) e leaf p = unlink c (node d l f m) p
  erase_node c (node d l f m) e (node d' l' f' m') p =
      let (b, child, g) = maximum_node d l f m in
      unlink b child (maximum_way d l f m (frame on_left c g (node d' l' f' m') ∷ p))

module _ {V : Type 0} (cmp : V → V → Sign) where
  -- The loop of `zrbtree_erase` from a node down. Beside the status: the entry taken out of the tree.
  -- Its memory goes back to the allocator, which is not part of the tree.
  unfoldable pub erase_at :
      V → Tree (Entry V) → Way (Entry V) → Option (Err × Option (Entry V) × Tree (Entry V))
  unfolding erase_node
  erase_at v leaf p = some (fail, none, plug p leaf)
  erase_at v (node c l e r) p = elim (cmp e.item v) [
    | equal ↦ erase_node c l e r p >>= λ t. some (ok, some e, t)
    | great ↦ erase_at v l (frame on_left c e r ∷ p)
    | little ↦ erase_at v r (frame on_right c e l ∷ p)
  ]

  unfoldable pub erase : V → Tree (Entry V) → Option (Err × Option (Entry V) × Tree (Entry V))
  unfolding erase_at
  erase v t = erase_at v t []

module _ {E : Type 0} where
  -- `zrbtree_pop_front`: the node with the least key, if the condition accepts it.
  unfoldable pub pop_at :
      (E → Bool) → Color → Tree E → E → Tree E → Way E → Option (Err × Option E × Tree E)
  unfolding unlink
  pop_at condition c leaf e r p =
      if condition e
      then (unlink c r p >>= λ t. some (ok, some e, t))
      else some (fail, none, plug p (node c leaf e r))
  pop_at condition c (node d l f m) e r p = pop_at condition d l f m (frame on_left c e r ∷ p)

  unfoldable pub pop_front : (E → Bool) → Tree E → Option (Err × Option E × Tree E)
  unfolding pop_at
  pop_front condition leaf = some (fail, none, leaf)
  pop_front condition (node c l e r) = pop_at condition c l e r []
