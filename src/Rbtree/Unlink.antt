-- ===== src/Rbtree/Unlink.antt =====
-- The removal of a node from a red-black tree: `replace_node` after `delete_case1`, and the exchange
-- with the greatest node on the left in `zrbtree_erase`.
use zinfo_tech.Base.{
  ℕ, suc, ◌+◌, ◌≡◌, refl, ap, ◌∙◌, Option, some, List, [], ◌∷◌, ◌++◌, arith, append_assoc,
  append-nil,
}
use zinfo_tech.Base.Lists.{length}
use zinfo_tech.Rbtree.{
  Color, red, black, Tree, leaf, node, on_left, on_right, frame, Way, parent, plug,
}
use zinfo_tech.Rbtree.Shape.{
  Rb, empty, red_node, black_node, RbWay, top, under_black, under_red, black_parent, plug-Rb,
  inorder, wrap, wrap_frame, inorder-plug-wrap, Fits, Fits-below_black,
}
use zinfo_tech.Rbtree.Insert.{Balanced}
use zinfo_tech.Rbtree.Delete.{replace_node, unlink, maximum_node, maximum_way, erase_node}
use zinfo_tech.Rbtree.Deletion.{delete_case1-Rebalanced}

module _ {E : Type 0} where
  -- The child in the place of the node, below a black parent or at the root.
  replace_node-Balanced :
      {k h : ℕ} {c : Color} {p : Way E} {child : Tree E} {l : List E}
      → RbWay k h black p
      → Rb c h child
      → wrap p (inorder child) ≡ l
      → Balanced l (some (replace_node p child))
  unfolding replace_node wrap inorder plug
  replace_node-Balanced (top q) empty same = record {
    tree = _;
    returned = refl;
    height = _;
    shape = empty;
    contents = same;
  }
  replace_node-Balanced (top q) (red_node e bl br) same = record {
    tree = _;
    returned = refl;
    height = _;
    shape = black_node e bl br;
    contents = same;
  }
  replace_node-Balanced (top q) (black_node e bl br) same = record {
    tree = _;
    returned = refl;
    height = _;
    shape = black_node e bl br;
    contents = same;
  }
  replace_node-Balanced {child = child} (under_black {t = t} {p = p} s e b way) bc same =
      let (j, shape) = plug-Rb way (black_parent s e bc b) in
      record {
        tree = plug p (parent (frame s black e t) child);
        returned = refl;
        height = j;
        shape = shape;
        contents = inorder-plug-wrap (frame s black e t ∷ p) child ∙ same;
      }

  renamed :
      {l m : List E} {out out' : Option (Tree E)}
      → Balanced l out
      → out' ≡ out
      → l ≡ m
      → Balanced m out'
  renamed b e q = record {
    tree = b.tree;
    returned = e ∙ b.returned;
    height = b.height;
    shape = b.shape;
    contents = b.contents ∙ q;
  }

  -- A red node goes without more ado.
  unlink_red :
      {k h : ℕ} {p : Way E} {child : Tree E}
      → RbWay k h black p
      → Fits red black p
      → Rb black h child
      → Balanced (wrap p (inorder child)) (unlink red child p)
  unfolding unlink
  unlink_red (top q) fit b = absurd fit
  unlink_red (under_black s e t way) fit b = replace_node-Balanced (under_black s e t way) b refl

  -- For a black node the tree is rebalanced first.
  unlink_black :
      {k h : ℕ} {a c : Color} (p : Way E) {child : Tree E}
      → RbWay k (suc h) a p
      → Rb c h child
      → Balanced (wrap p (inorder child)) (unlink black child p)
  unfolding unlink
  unlink_black p {child} way b =
      let r = delete_case1-Rebalanced (length p + 1) (omega arith) way in
      renamed (replace_node-Balanced r.shape b (r.contents (inorder child))) (rw r.returned refl)
        refl

  own_color :
      {c d : Color} {h : ℕ} {l r : Tree E} {e : E} → Rb c h (node d l e r) → Rb d h (node d l e r)
  own_color (red_node e bl br) = red_node e bl br
  own_color (black_node e bl br) = black_node e bl br

  -- The contents but for the greatest node.
  unfoldable without_max : Tree E → E → Tree E → List E
  without_max l e leaf = inorder l
  without_max l e (node d m f r) = inorder l ++ (e ∷ without_max m f r)

  greatest :
      (c : Color) (l : Tree E) (e : E) (r : Tree E)
      → inorder (node c l e r) ≡ without_max l e r ++ ((maximum_node c l e r).2 ∷ [])
  unfolding inorder maximum_node without_max
  greatest c l e leaf = refl
  greatest c l e (node d m f r) = rw (greatest d m f r) (simp append_assoc)

  -- The removal of the greatest node of a subtree.
  abbrev MaxRemoved : Color → Tree E → E → Tree E → Way E → Type 0
  MaxRemoved c l e r p =
      Balanced (wrap p (without_max l e r))
        (unlink (maximum_node c l e r).0 (maximum_node c l e r).1 (maximum_way c l e r p))

  max_removed :
      {k h : ℕ} {a : Color} (c : Color) (l : Tree E) (e : E) (r : Tree E) (p : Way E)
      → RbWay k h a p
      → Rb c h (node c l e r)
      → Fits c a p
      → MaxRemoved c l e r p
  unfolding maximum_node maximum_way without_max wrap wrap_frame
  max_removed black l e leaf p way (black_node _ bl br) fit = unlink_black p way bl
  max_removed black l e (node d m f r) p way (black_node _ bl br) fit =
      max_removed d m f r (frame on_right black e l ∷ p) (under_black on_right e bl way)
        (own_color br) (Fits-below_black d (frame on_right black e l) p)
  max_removed red l e r p (top q) b fit = absurd fit
  max_removed red l e r p (under_red s g t way) b fit = absurd fit
  max_removed red l e leaf p (under_black s g t way) (red_node _ bl br) fit =
      unlink_red (under_black s g t way) tt bl
  max_removed red l e (node d m f r) p (under_black s g t way) (red_node _ bl (black_node _ bm br))
        fit =
      max_removed d m f r (frame on_right red e l ∷ p)
        (under_red on_right e bl (under_black s g t way)) (black_node f bm br) tt

  -- The greatest node in the place of `n`.
  exchanged :
      (c d : Color) (l : Tree E) (e : E) (r u : Tree E) (p : Way E)
      → MaxRemoved d l e r (frame on_left c (maximum_node d l e r).2 u ∷ p)
      → Balanced (wrap p (inorder (node d l e r) ++ inorder u)) (
          unlink
            (maximum_node d l e r).0
            (maximum_node d l e r).1
            (maximum_way d l e r (frame on_left c (maximum_node d l e r).2 u ∷ p)))
  unfolding wrap wrap_frame
  exchanged c d l e r u p b =
      renamed b refl (ap (wrap p) (rw (greatest d l e r) (simp append_assoc)))

  -- The node `n` removed, of a subtree that fits below its parent, with the contents of its subtrees
  -- left in order.
  pub erase_node-Balanced :
      {k h : ℕ} {a : Color} (c : Color) (l : Tree E) (e : E) (r : Tree E) (p : Way E)
      → RbWay k h a p
      → Rb c h (node c l e r)
      → Fits c a p
      → Balanced (wrap p (inorder l ++ inorder r)) (erase_node c l e r p)
  unfolding erase_node inorder
  erase_node-Balanced black leaf e r p way (black_node _ bl br) fit = unlink_black p way br
  erase_node-Balanced black (node d l f m) e leaf p way (black_node _ bl br) fit =
      renamed (unlink_black p way bl) refl (ap (wrap p) (simp append-nil))
  erase_node-Balanced black (node d l f m) e (node d' l' f' m') p way (black_node _ bl br) fit =
      exchanged black d l f m (node d' l' f' m') p (
        max_removed d l f m _ (under_black on_left _ br way) (own_color bl)
          (Fits-below_black d _ p))
  erase_node-Balanced red l e r p (top q) b fit = absurd fit
  erase_node-Balanced red l e r p (under_red s g t way) b fit = absurd fit
  erase_node-Balanced red leaf e r p (under_black s g t way) (red_node _ bl br) fit =
      unlink_red (under_black s g t way) tt br
  erase_node-Balanced red (node d l f m) e leaf p (under_black s g t way) (red_node _ bl br) fit =
      renamed (unlink_red (under_black s g t way) tt bl) refl (ap (wrap p) (simp append-nil))
  erase_node-Balanced red (node d l f m) e (node d' l' f' m') p (under_black s g t way)
        (red_node _ (black_node _ b b') br) fit =
      exchanged red black l f m (node d' l' f' m') p (
        max_removed black l f m _ (under_red on_left _ br (under_black s g t way))
          (black_node f b b') tt)
