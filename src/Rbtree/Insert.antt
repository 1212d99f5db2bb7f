-- ===== src/Rbtree/Insert.antt =====
-- `insert_case1` and what it calls make a red-black tree of the same contents.
use zinfo_tech.Base.{ℕ, ◌≡◌, refl, ◌∙◌, Option, some, List, [], ◌∷◌, append_assoc}
use zinfo_tech.Rbtree.{
  Color, red, black, Tree, leaf, node, Side, on_left, on_right, frame, Way, parent, plug,
  insert_case1,
}
use zinfo_tech.Rbtree.Shape.{
  Rb, empty, red_node, black_node, RbWay, top, under_black, under_red, plug-Rb, black_parent,
  inorder, inorder-plug,
}

module _ {E : Type 0} where
  -- What a rebalancing returns: a red-black tree with a black root and the contents `l`.
  pub record Balanced (l : List E) (out : Option (Tree E)) : Type 0 where
    pub tree : Tree E
    pub returned : out ≡ some tree
    pub height : ℕ
    pub shape : Rb black height tree
    pub contents : inorder tree ≡ l

  -- A subtree with a black root in the place of another with the same contents.
  settled :
      {k h : ℕ} {a : Color} {p : Way E} {m : Tree E} (n : Tree E)
      → RbWay k h a p
      → Rb black h m
      → inorder m ≡ inorder n
      → Balanced (inorder (plug p n)) (some (plug p m))
  settled {p = p} {m = m} n way b same =
      let (j, shape) = plug-Rb way b in
      record {
        tree = plug p m;
        returned = refl;
        height = j;
        shape = shape;
        contents = inorder-plug p m n same;
      }

  below_black :
      (n : Tree E) (s : Side) (e : E) (t : Tree E) (p : Way E)
      → insert_case1 n (frame s black e t ∷ p) ≡ some (plug (frame s black e t ∷ p) n)
  unfolding insert_case1
  below_black n s e t [] = refl
  below_black n s e t (g ∷ p) = refl

  recast : {l m : List E} {out : Option (Tree E)} → Balanced l out → l ≡ m → Balanced m out
  recast b e = record {
    tree = b.tree;
    returned = b.returned;
    height = b.height;
    shape = b.shape;
    contents = b.contents ∙ e;
  }

  -- From a red node on, in a tree that is red-black but for the colour of its parent, the code
  -- returns a red-black tree with a black root and the same contents; it never faults.
  pub insert_case1-Balanced :
      {k h : ℕ} {a : Color} {p : Way E} {l r : Tree E} (e : E)
      → RbWay k h a p
      → Rb black h l
      → Rb black h r
      → Balanced (inorder (plug p (node red l e r))) (insert_case1 (node red l e r) p)
  unfolding insert_case1 plug inorder
  insert_case1-Balanced e (top q) bl br = record {
    tree = node black _ e _;
    returned = refl;
    height = _;
    shape = black_node e bl br;
    contents = refl;
  }
  insert_case1-Balanced {l = l} {r = r} e (under_black {t = t} {p = p} s f bt way) bl br =
      rw (below_black (node red l e r) s f t p) (
        settled (parent (frame s black f t) (node red l e r)) way
          (black_parent s f (red_node e bl br) bt) refl)
  insert_case1-Balanced {l = l} {r = r} e
        (under_red {t = t} on_left f bt
          (under_black {p = p} on_left g (red_node {l = u} {r = v} x bu bv) way))
        bl br =
      recast (insert_case1-Balanced g way (black_node f (red_node e bl br) bt) (black_node x bu bv))
        (inorder-plug p (node red (node black (node red l e r) f t) g (node black u x v))
          (node black (node red (node red l e r) f t) g (node red u x v)) refl)
  insert_case1-Balanced {l = l} {r = r} e
        (under_red {t = t} on_left f bt (under_black on_left g empty way)) bl br =
      settled (node black (node red (node red l e r) f t) g leaf) way
        (black_node f (red_node e bl br) (red_node g bt empty)) (simp append_assoc)
  insert_case1-Balanced {l = l} {r = r} e
        (under_red {t = t} on_left f bt
          (under_black on_left g (black_node {l = u} {r = v} x bu bv) way))
        bl br =
      settled (node black (node red (node red l e r) f t) g (node black u x v)) way
        (black_node f (red_node e bl br) (red_node g bt (black_node x bu bv))) (simp append_assoc)
  insert_case1-Balanced {l = l} {r = r} e
        (under_red {t = t} on_right f bt
          (under_black {p = p} on_left g (red_node {l = u} {r = v} x bu bv) way))
        bl br =
      recast (insert_case1-Balanced g way (black_node f bt (red_node e bl br)) (black_node x bu bv))
        (inorder-plug p (node red (node black t f (node red l e r)) g (node black u x v))
          (node black (node red t f (node red l e r)) g (node red u x v)) refl)
  insert_case1-Balanced {l = l} {r = r} e
        (under_red {t = t} on_right f bt (under_black on_left g empty way)) bl br =
      settled (node black (node red t f (node red l e r)) g leaf) way
        (black_node e (red_node f bt bl) (red_node g br empty)) (simp append_assoc)
  insert_case1-Balanced {l = l} {r = r} e
        (under_red {t = t} on_right f bt
          (under_black on_left g (black_node {l = u} {r = v} x bu bv) way))
        bl br =
      settled (node black (node red t f (node red l e r)) g (node black u x v)) way
        (black_node e (red_node f bt bl) (red_node g br (black_node x bu bv))) (simp append_assoc)
  insert_case1-Balanced {l = l} {r = r} e
        (under_red {t = t} on_left f bt
          (under_black {p = p} on_right g (red_node {l = u} {r = v} x bu bv) way))
        bl br =
      recast (insert_case1-Balanced g way (black_node x bu bv) (black_node f (red_node e bl br) bt))
        (inorder-plug p (node red (node black u x v) g (node black (node red l e r) f t))
          (node black (node red u x v) g (node red (node red l e r) f t)) refl)
  insert_case1-Balanced {l = l} {r = r} e
        (under_red {t = t} on_left f bt (under_black on_right g empty way)) bl br =
      settled (node black leaf g (node red (node red l e r) f t)) way
        (black_node e (red_node g empty bl) (red_node f br bt)) (simp append_assoc)
  insert_case1-Balanced {l = l} {r = r} e
        (under_red {t = t} on_left f bt
          (under_black on_right g (black_node {l = u} {r = v} x bu bv) way))
        bl br =
      settled (node black (node black u x v) g (node red (node red l e r) f t)) way
        (black_node e (red_node g (black_node x bu bv) bl) (red_node f br bt)) (simp append_assoc)
  insert_case1-Balanced {l = l} {r = r} e
        (under_red {t = t} on_right f bt
          (under_black {p = p} on_right g (red_node {l = u} {r = v} x bu bv) way))
        bl br =
      recast (insert_case1-Balanced g way (black_node x bu bv) (black_node f bt (red_node e bl br)))
        (inorder-plug p (node red (node black u x v) g (node black t f (node red l e r)))
          (node black (node red u x v) g (node red t f (node red l e r))) refl)
  insert_case1-Balanced {l = l} {r = r} e
        (under_red {t = t} on_right f bt (under_black on_right g empty way)) bl br =
      settled (node black leaf g (node red t f (node red l e r))) way
        (black_node f (red_node g empty bt) (red_node e bl br)) (simp append_assoc)
  insert_case1-Balanced {l = l} {r = r} e
        (under_red {t = t} on_right f bt
          (under_black on_right g (black_node {l = u} {r = v} x bu bv) way))
        bl br =
      settled (node black (node black u x v) g (node red t f (node red l e r))) way
        (black_node f (red_node g (black_node x bu bv) bt) (red_node e bl br)) (simp append_assoc)
