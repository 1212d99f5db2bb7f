-- ===== src/Rbtree/Keyed.antt =====
-- `zrbtree_insert` and `zrbtree_find` on a red-black tree in order.
use zinfo_tech.Base.{
  ℕ, zero, ◌≡◌, refl, sym, ap, ◌∙◌, Bool, Option, some, List, [], ◌∷◌, ◌++◌, inl, inr, Err, ok,
  fail, Bool-cases,
}
use zinfo_tech.Rbtree.{
  Color, red, black, Tree, leaf, node, on_left, on_right, frame, Way, plug, Sign, equal, great,
  little, Entry, insert_at, insert,
}
use zinfo_tech.Rbtree.Shape.{
  Rb, empty, red_node, black_node, RbWay, top, under_black, under_red, inorder, wrap_frame, wrap,
  inorder-plug-wrap, Fits, plug-Fits, Fits-below_black,
}
use zinfo_tech.Rbtree.Insert.{insert_case1-Balanced}
use zinfo_tech.Rbtree.Sorted.{
  Cut, Cut-left, Cut-right, single, insert_sorted, insert_sorted-great, insert_sorted-little,
  insert_sorted-equal, Sign-cases,
}

-- What an insertion returns: the status `e`, and a red-black tree with a black root and the entries `l`.
pub record Inserted {V : Type 0} (e : Err) (l : List (Entry V))
    (out : Option (Err × Tree (Entry V))) : Type 0 where
  pub tree : Tree (Entry V)
  pub returned : out ≡ some (e, tree)
  pub height : ℕ
  pub shape : Rb black height tree
  pub contents : inorder tree ≡ l

module _ {V : Type 0} (cmp : V → V → Sign) (multiple : Bool) (v : V) where
  recast :
      {e e' : Err} {l l' : List (Entry V)} {out : Option (Err × Tree (Entry V))}
      → Inserted e l out
      → e ≡ e'
      → l ≡ l'
      → Inserted e' l' out
  recast b q r = record {
    tree = b.tree;
    returned = b.returned ∙ ap (λ t. some (t, b.tree)) q;
    height = b.height;
    shape = b.shape;
    contents = b.contents ∙ r;
  }

  abbrev Result : Way (Entry V) → Tree (Entry V) → Type 0
  Result p n =
      Inserted (insert_sorted cmp multiple v (inorder n)).0
        (wrap p (insert_sorted cmp multiple v (inorder n)).1) (insert_at cmp multiple v n p)

  at_leaf : {k : ℕ} {a : Color} {p : Way (Entry V)} → RbWay k zero a p → Result p leaf
  unfolding insert_at insert_sorted inorder
  at_leaf {p = p} way =
      let b = insert_case1-Balanced (single cmp v) way empty empty in
      record {
        tree = b.tree;
        returned = rw b.returned;
        height = b.height;
        shape = b.shape;
        contents = b.contents ∙ inorder-plug-wrap p _;
      }

  -- From what the list insertion gives, what the tree insertion is to return.
  settle :
      (n : Tree (Entry V)) (p : Way (Entry V)) {e : Err} {l : List (Entry V)}
      {out : Option (Err × Tree (Entry V))}
      → insert_sorted cmp multiple v (inorder n) ≡ (e, l)
      → Inserted e (wrap p l) out
      → Inserted
          (insert_sorted cmp multiple v (inorder n)).0
          (wrap p (insert_sorted cmp multiple v (inorder n)).1)
          out
  settle n p i b = recast b (ap (λ t. t.0) (sym i)) (ap (λ t. wrap p t.1) (sym i))

  rebuilt :
      {k h : ℕ} {c a : Color} (p : Way (Entry V)) (n : Tree (Entry V)) {e : Err}
      {l : List (Entry V)} {out : Option (Err × Tree (Entry V))}
      → RbWay k h a p
      → Rb c h n
      → Fits c a p
      → out ≡ some (e, plug p n)
      → inorder n ≡ l
      → Inserted e (wrap p l) out
  rebuilt p n way b fit is same =
      let (j, shape) = plug-Fits way b fit in
      record {
        tree = plug p n;
        returned = is;
        height = j;
        shape = shape;
        contents = inorder-plug-wrap p n ∙ ap (wrap p) same;
      }

  -- The entry with an equal key: its `next` list grows, or nothing changes.
  at_equal :
      {k h : ℕ} {c a : Color} (p : Way (Entry V)) (l r : Tree (Entry V)) (e : Entry V)
      → RbWay k h a p
      → Fits c a p
      → cmp e.item v ≡ equal
      → Cut cmp v (inorder (node c l e r))
      → ((e' : Entry V) → Rb c h (node c l e' r))
      → Result p (node c l e r)
  unfolding insert_at inorder
  at_equal {c = c} p l r e way fit q cut shapes = elim (Bool-cases multiple) [
    | inl m ↦
        let grown : Entry V = record e { next = (red, v) ∷ e.next } in
        let i : insert_sorted cmp multiple v (inorder l ++ (e ∷ inorder r))
            ≡ (ok, inorder l ++ (grown ∷ inorder r)) =
          insert_sorted-equal cmp multiple v (inorder l) e (inorder r) q cut ∙ rw m in
        settle (node c l e r) p i
          (rebuilt p (node c l grown r) way (shapes grown) fit (rw (q, m, insert_at)) refl)
    | inr m ↦
        let i : insert_sorted cmp multiple v (inorder l ++ (e ∷ inorder r))
            ≡ (fail, inorder l ++ (e ∷ inorder r)) =
          insert_sorted-equal cmp multiple v (inorder l) e (inorder r) q cut ∙ rw m in
        settle (node c l e r) p i
          (rebuilt p (node c l e r) way (shapes e) fit (rw (q, m, insert_at)) refl)
  ]

  at_great :
      (c : Color) (p : Way (Entry V)) (l r : Tree (Entry V)) (e : Entry V)
      → cmp e.item v ≡ great
      → Result (frame on_left c e r ∷ p) l
      → Result p (node c l e r)
  unfolding insert_at inorder wrap wrap_frame
  at_great c p l r e q b =
      settle (node c l e r) p (insert_sorted-great cmp multiple v (inorder l) e (inorder r) q)
        (rw (q, insert_at) b)

  at_little :
      (c : Color) (p : Way (Entry V)) (l r : Tree (Entry V)) (e : Entry V)
      → cmp e.item v ≡ little
      → Cut cmp v (inorder (node c l e r))
      → Result (frame on_right c e l ∷ p) r
      → Result p (node c l e r)
  unfolding insert_at inorder wrap wrap_frame
  at_little c p l r e q cut b =
      settle (node c l e r) p (insert_sorted-little cmp multiple v (inorder l) e (inorder r) q cut)
        (rw (q, insert_at) b)

  insert_at-Inserted :
      {k h : ℕ} {c a : Color} {n : Tree (Entry V)} (p : Way (Entry V))
      → RbWay k h a p
      → Rb c h n
      → Fits c a p
      → Cut cmp v (inorder n)
      → Result p n
  unfolding inorder
  insert_at-Inserted p way empty fit cut = at_leaf way
  insert_at-Inserted p way (black_node {c} {d} {l = l} {r = r} e bl br) fit cut =
      elim (Sign-cases (cmp e.item v)) [
        | inl q ↦ at_little black p l r e q cut (
            insert_at-Inserted (frame on_right black e l ∷ p) (under_black on_right e bl way) br
              (Fits-below_black d (frame on_right black e l) p)
              (Cut-right cmp v (inorder l) e (inorder r) q cut))
        | inr (inl q) ↦ at_equal p l r e way fit q cut (λ e'. black_node e' bl br)
        | inr (inr q) ↦ at_great black p l r e q (
            insert_at-Inserted (frame on_left black e r ∷ p) (under_black on_left e br way) bl
              (Fits-below_black c (frame on_left black e r) p)
              (Cut-left cmp v (inorder l) (e ∷ inorder r) cut))
      ]
  insert_at-Inserted p (top z) (red_node e bl br) fit cut = absurd fit
  insert_at-Inserted p (under_red s f t way) (red_node e bl br) fit cut = absurd fit
  insert_at-Inserted p (under_black s f t way) (red_node {l = l} {r = r} e bl br) fit cut =
      let here = under_black s f t way in
      elim (Sign-cases (cmp e.item v)) [
        | inl q ↦ at_little red p l r e q cut (
            insert_at-Inserted (frame on_right red e l ∷ p) (under_red on_right e bl here) br tt
              (Cut-right cmp v (inorder l) e (inorder r) q cut))
        | inr (inl q) ↦ at_equal p l r e here tt q cut (λ e'. red_node e' bl br)
        | inr (inr q) ↦ at_great red p l r e q (
            insert_at-Inserted (frame on_left red e r ∷ p) (under_red on_left e br here) bl tt
              (Cut-left cmp v (inorder l) (e ∷ inorder r) cut))
      ]

  -- Into a red-black tree with a black root, in order for `v`, `zrbtree_insert` never faults: it
  -- returns a red-black tree with a black root, and the status and entries that an insertion into the
  -- sorted list of the entries gives.
  pub insert-Inserted :
      {h : ℕ} {t : Tree (Entry V)}
      → Rb black h t
      → Cut cmp v (inorder t)
      → Inserted
          (insert_sorted cmp multiple v (inorder t)).0
          (insert_sorted cmp multiple v (inorder t)).1
          (insert cmp multiple v t)
  unfolding insert wrap
  insert-Inserted b cut = insert_at-Inserted [] (top refl) b tt cut
