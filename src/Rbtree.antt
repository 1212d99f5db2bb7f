-- ===== src/Rbtree.antt =====
-- The red-black tree of src/rbtree.c and zit/container/rbtree.h.
-- A pointer to a node of the tree is a subtree and the way up from it: for each ancestor, on which
-- side the pointer lies, and the ancestor's colour, contents and other child. `n->parent` is the
-- head of that way, `grandparent(n)` the next one, `uncle(n)` the other child there. A read or write
-- through NULL, and an assertion that fails, is a fault, `none`.
pub mod Delete
pub mod Deletion
pub mod Erase
pub mod Erasex
pub mod Find
pub mod Findx
pub mod Hangs
pub mod Insert
pub mod Keyed
pub mod Map
mod MapTests
pub mod Nephews
pub mod Ordered
pub mod Pop
pub mod Shape
pub mod Sorted
mod Tests
pub mod Unlink
pub mod Verify
use zinfo_tech.Base.{
  ◌>>=◌, ℕ, suc, ◌+◌, Bool, true, false, ◌&&◌, not, Option, none, some, List, [], ◌∷◌, ◌++◌, ◌==◌,
  if◌then◌else◌, Err, ok, param_invalid, not_exist, fail,
}

pub data Color : Type 0 where
  red black : Color

abbrev pub is_red : Color → Bool
is_red red = true
is_red black = false

-- A subtree: `E` is what a node holds beside its links and colour.
pub data Tree (E : Type 0) : Type 0 where
  leaf : Tree E
  node : Color → Tree E → E → Tree E → Tree E

-- Which child of its parent a node is.
pub data Side : Type 0 where
  on_left on_right : Side

pub data Frame (E : Type 0) : Type 0 where
  frame : Side → Color → E → Tree E → Frame E

abbrev pub Way : Type 0 → Type 0
Way E = List (Frame E)

module _ {E : Type 0} where
  -- `node_color`: NULL is black.
  abbrev pub node_color : Tree E → Color
  node_color leaf = black
  node_color (node c l e r) = c

  abbrev pub frame_color : Frame E → Color
  frame_color (frame s c e t) = c

  abbrev pub side : Frame E → Side
  side (frame s c e t) = s

  abbrev pub other : Frame E → Tree E
  other (frame s c e t) = t

  abbrev pub set_frame_color : Color → Frame E → Frame E
  set_frame_color c (frame s _ e t) = frame s c e t

  abbrev pub set_other : Tree E → Frame E → Frame E
  set_other t (frame s c e _) = frame s c e t

  -- A write of the colour of a node.
  abbrev pub set_color : Color → Tree E → Option (Tree E)
  set_color c leaf = none
  set_color c (node _ l e r) = some (node c l e r)

  -- The subtree at the parent, and the whole tree.
  abbrev pub parent : Frame E → Tree E → Tree E
  parent (frame on_left c e t) n = node c n e t
  parent (frame on_right c e t) n = node c t e n

  unfoldable pub plug : Way E → Tree E → Tree E
  plug [] n = n
  plug (f ∷ p) n = plug p (parent f n)

  -- The rotations, as what takes the place of the subtree.
  unfoldable pub rotate_left : Tree E → Option (Tree E)
  rotate_left (node c l e (node d m f r)) = some (node d (node c l e m) f r)
  rotate_left _ = none

  unfoldable pub rotate_right : Tree E → Option (Tree E)
  rotate_right (node c (node d l e m) f r) = some (node d l e (node c m f r))
  rotate_right _ = none

  unfoldable pub insert_case5 : Tree E → Way E → Option (Tree E)
  unfolding rotate_left rotate_right
  insert_case5 n (frame on_left _ e t ∷ frame on_left _ f u ∷ p) =
      rotate_right (node red (node black n e t) f u) >>= λ g. some (plug p g)
  insert_case5 n (frame on_right _ e t ∷ frame on_right _ f u ∷ p) =
      rotate_left (node red u f (node black t e n)) >>= λ g. some (plug p g)
  insert_case5 n _ = none

  -- `n = n->left` below the node that the rotation brought up, and `n = n->right`.
  unfoldable pub down_left : Way E → Tree E → Option (Tree E)
  unfolding insert_case5
  down_left p leaf = none
  down_left p (node c l e r) = insert_case5 l (frame on_left c e r ∷ p)

  unfoldable pub down_right : Way E → Tree E → Option (Tree E)
  unfolding insert_case5
  down_right p leaf = none
  down_right p (node c l e r) = insert_case5 r (frame on_right c e l ∷ p)

  unfoldable pub insert_case4 : Tree E → Way E → Option (Tree E)
  unfolding rotate_left rotate_right down_left down_right
  insert_case4 n (frame on_right c e t ∷ frame on_left d f u ∷ p) =
      rotate_left (node c t e n) >>= down_left (frame on_left d f u ∷ p)
  insert_case4 n (frame on_left c e t ∷ frame on_right d f u ∷ p) =
      rotate_right (node c n e t) >>= down_right (frame on_right d f u ∷ p)
  insert_case4 n p = insert_case5 n p

  -- `up` is the call `insert_case1(t, grandparent(n))`, given the subtree at the grandparent.
  unfoldable pub insert_case3 : (Tree E → Option (Tree E)) → Tree E → Way E → Option (Tree E)
  unfolding insert_case4
  insert_case3 up n (p ∷ g ∷ rest) = elim (node_color (other g)) [
    | red ↦ set_color black (other g) >>= λ u.
        up (parent (set_frame_color red (set_other u g)) (parent (set_frame_color black p) n))
    | black ↦ insert_case4 n (p ∷ g ∷ rest)
  ]
  insert_case3 up n _ = none

  unfoldable pub insert_case2 : (Tree E → Option (Tree E)) → Tree E → Way E → Option (Tree E)
  unfolding insert_case3
  insert_case2 up n [] = none
  insert_case2 up n (p ∷ rest) = elim (frame_color p) [
    | black ↦ some (plug (p ∷ rest) n)
    | red ↦ insert_case3 up n (p ∷ rest)
  ]

  unfoldable pub insert_case1 : Tree E → Way E → Option (Tree E)
  unfolding insert_case2
  insert_case1 n [] = set_color black n
  insert_case1 n (p ∷ []) = insert_case2 (λ _. none) n (p ∷ [])
  insert_case1 n (p ∷ g ∷ rest) = insert_case2 (λ t. insert_case1 t rest) n (p ∷ g ∷ rest)

-- The sign of a comparison of a node of the tree with a key: ZEQUAL, above it, below it.
pub data Sign : Type 0 where
  equal great little : Sign

-- What a node holds: its own value, and behind `next` the nodes with an equal key, each with the
-- colour that it carries.
pub record Entry (V : Type 0) : Type 0 where
  pub item : V
  pub next : List (Color × V)

module _ {V : Type 0} (cmp : V → V → Sign) where
  -- The loop of `zrbtree_insert` from the node `n` down; a new node is red and has no children.
  unfoldable pub insert_at :
      Bool → V → Tree (Entry V) → Way (Entry V) → Option (Err × Tree (Entry V))
  unfolding insert_case1
  insert_at multiple v leaf p =
      insert_case1 (node red leaf (record { item = v; next = [] }) leaf) p >>= λ t. some (ok, t)
  insert_at multiple v (node c l e r) p = elim (cmp e.item v) [
    | equal ↦
        if multiple
        then some (ok, plug p (node c l (record e { next = (red, v) ∷ e.next }) r))
        else some (fail, plug p (node c l e r))
    | great ↦ insert_at multiple v l (frame on_left c e r ∷ p)
    | little ↦ insert_at multiple v r (frame on_right c e l ∷ p)
  ]

  unfoldable pub insert : Bool → V → Tree (Entry V) → Option (Err × Tree (Entry V))
  unfolding insert_at
  insert multiple v t = insert_at multiple v t []

  unfoldable pub find : V → Tree (Entry V) → Err × Option (Entry V)
  find v leaf = (not_exist, none)
  find v (node c l e r) = elim (cmp e.item v) [
    | equal ↦ (ok, some e)
    | great ↦ find v l
    | little ↦ find v r
  ]

module _ {E : Type 0} where
  -- `zrbtree_verify` and the properties that it checks; each node's colour is one of the two.
  unfoldable pub property1 : Tree E → Err
  property1 leaf = ok
  property1 (node c l e r) = elim (property1 l) [ ok ↦ property1 r | other ↦ other ]

  unfoldable pub property2 : Tree E → Err
  property2 t = elim (node_color t) [ black ↦ ok | red ↦ param_invalid ]

  -- The colour of the parent is that of `node->parent`, black for NULL.
  unfoldable pub red_is_alone : Color → Tree E → Bool
  red_is_alone above leaf = true
  red_is_alone above (node black l e r) = true
  red_is_alone above (node red l e r) =
      not (is_red (node_color l)) && not (is_red (node_color r)) && not (is_red above)

  unfoldable pub property4 : Color → Tree E → Err
  unfolding red_is_alone
  property4 above leaf = ok
  property4 above (node c l e r) =
      if red_is_alone above (node c l e r)
      then elim (property4 c l) [ ok ↦ property4 c r | other ↦ other ]
      else param_invalid

  -- `none` stands for the -1 of `*path_black_count`.
  unfoldable pub property5_helper : Tree E → ℕ → Option ℕ → Err × Option ℕ
  property5_helper leaf count none = (ok, some (count + 1))
  property5_helper leaf count (some k) = (if (count + 1) == k then ok else param_invalid, some k)
  property5_helper (node c l e r) count seen =
      let count' = if is_red c then count else count + 1 in
      let (ret, seen') = property5_helper l count' seen in
      elim ret [ ok ↦ property5_helper r count' seen' | other ↦ (other, seen') ]

  unfoldable pub property5 : Tree E → Err
  unfolding property5_helper
  property5 t = (property5_helper t 0 none).0

  unfoldable pub verify : Tree E → Err
  unfolding property1 property2 property4 property5
  verify t = elim (property1 t) [
    | ok ↦ elim (property2 t) [
      | ok ↦ elim (property4 black t) [ ok ↦ property5 t | other ↦ other ]
      | other ↦ other
    ]
    | other ↦ other
  ]
