-- ===== src/Rbtree/Erasex.antt =====
-- `zrbtree_erasex` of src/rbtree.c: one of the nodes with an equal key is removed, that which a
-- second comparison picks.
use zinfo_tech.Base.{
  ◌>>=◌, ◌≡◌, refl, Bool, true, false, Option, some, List, [], ◌∷◌, if◌then◌else◌, Err, ok, fail,
  param_invalid,
}
use zinfo_tech.Rbtree.{
  Color, red, Tree, leaf, node, on_left, on_right, frame, Way, plug, Sign, equal, great, little,
  Entry, node_color, verify, property1, property2,
}
use zinfo_tech.Rbtree.Delete.{erase_node}
use zinfo_tech.Rbtree.Verify.{property1-ok}

module _ {V : Type 0} (cmp : V → V → Sign) (same : V → V → Bool) (v : V) where
  -- The loop along `next`, behind the head.
  unfoldable pub drop_first : List (Color × V) → List (Color × V)
  drop_first [] = []
  drop_first (x ∷ xs) = if same x.1 v then xs else (x ∷ drop_first xs)

  -- The node found: the head goes and the next node takes its links, but keeps its own colour; or the
  -- head goes and there is no other; or the head stays.
  unfoldable pub erase_one :
      Color
      → Tree (Entry V)
      → Entry V
      → Tree (Entry V)
      → Way (Entry V)
      → Option (Err × Tree (Entry V))
  unfolding erase_node drop_first
  erase_one c l e r p =
      if same e.item v
      then elim e.next [
        | [] ↦ erase_node c l e r p >>= λ t. some (ok, t)
        | x ∷ xs ↦ some (ok, plug p (node x.0 l (record { item = x.1; next = xs }) r))
      ]
      else some (ok, plug p (node c l (record e { next = drop_first e.next }) r))

  unfoldable pub erasex_at : Tree (Entry V) → Way (Entry V) → Option (Err × Tree (Entry V))
  unfolding erase_one
  erasex_at leaf p = some (fail, plug p leaf)
  erasex_at (node c l e r) p = elim (cmp e.item v) [
    | equal ↦ erase_one c l e r p
    | great ↦ erasex_at l (frame on_left c e r ∷ p)
    | little ↦ erasex_at r (frame on_right c e l ∷ p)
  ]

  unfoldable pub erasex : Tree (Entry V) → Option (Err × Tree (Entry V))
  unfolding erasex_at
  erasex t = erasex_at t []

  pub erasex-root :
      (c : Color) (l : Tree (Entry V)) (e : Entry V) (r : Tree (Entry V))
      → cmp e.item v ≡ equal
      → erasex (node c l e r) ≡ erase_one c l e r []
  unfolding erasex erasex_at
  erasex-root c l e r q = rw (q, erasex_at)

  -- The only node of its key, when it is not to be removed, and when it is.
  pub erase_one-kept :
      (c : Color) (l : Tree (Entry V)) (x : V) (r : Tree (Entry V))
      → same x v ≡ false
      → erase_one c l (record { item = x; next = [] }) r []
        ≡ some (ok, node c l (record { item = x; next = [] }) r)
  unfolding erase_one plug drop_first
  erase_one-kept c l x r s = rw (s, erase_one)

  pub erase_one-erased :
      (c : Color) (l : Tree (Entry V)) (x : V) (r : Tree (Entry V))
      → same x v ≡ true
      → erase_one c l (record { item = x; next = [] }) r []
        ≡ (erase_node c l (record { item = x; next = [] }) r [] >>= λ t. some (ok, t))
  unfolding erase_one
  erase_one-erased c l x r s = rw (s, erase_one)

  -- When the root has the key, is the node to be removed, and has a further node behind it that is
  -- red, as `zrbtree_insert` leaves it, `zrbtree_erasex` returns ZEOK and leaves a tree whose root is
  -- red and that `zrbtree_verify` rejects.
  pub erasex-rejected :
      (c : Color) (l : Tree (Entry V)) (e : Entry V) (r : Tree (Entry V)) (w : V)
      (rest : List (Color × V))
      → cmp e.item v ≡ equal
      → same e.item v ≡ true
      → e.next ≡ (red, w) ∷ rest
      → (t : Tree (Entry V)) × (erasex (node c l e r) ≡ some (ok, t))
        × (node_color t ≡ red)
        × (verify t ≡ param_invalid)
  unfolding erasex erasex_at erase_one plug verify property1 property2
  erasex-rejected c l e r w rest q s n =
      let t : Tree (Entry V) = node red l (record { item = w; next = rest }) r in
      (t, rw (q, s, n, erasex_at), refl, rw (verify, property1-ok l, property1-ok r))
