-- ===== src/Rbtree/Hangs.antt =====
-- Subtrees of a red-black tree and the ways up from them, and what a removal returns.
use zinfo_tech.Base.{ℕ, ◌≡◌, refl, Option, none, some, List, [], ◌∷◌, Err}
use zinfo_tech.Rbtree.{
  Color, red, black, node_color, Tree, node, on_left, on_right, frame, Way, plug,
}
use zinfo_tech.Rbtree.Shape.{
  Rb, empty, red_node, black_node, RbWay, top, under_black, under_red, inorder, wrap,
  inorder-plug-wrap, Fits, Fits-below_black, plug-Fits,
}

-- What a removal returns: the status `e`, what it took out, and a red-black tree with a black root
-- and the contents `l`.
pub record Taken {E : Type 0} (e : Err) (x : Option E) (l : List E)
    (out : Option (Err × Option E × Tree E)) : Type 0 where
  pub tree : Tree E
  pub returned : out ≡ some (e, x, tree)
  pub height : ℕ
  pub shape : Rb black height tree
  pub contents : inorder tree ≡ l

module _ {E : Type 0} where
  -- A subtree that hangs well below the way `p`.
  pub record Hangs (n : Tree E) (p : Way E) : Type 0 where
    pub root : ℕ
    pub height : ℕ
    pub above : Color
    pub way : RbWay root height above p
    pub shape : Rb (node_color n) height n
    pub fits : Fits (node_color n) above p

  own_color : {c : Color} {h : ℕ} {n : Tree E} → Rb c h n → Rb (node_color n) h n
  own_color empty = empty
  own_color (red_node e bl br) = red_node e bl br
  own_color (black_node e bl br) = black_node e bl br

  black-Fits : {h : ℕ} {n : Tree E} (a : Color) (p : Way E) → Rb black h n → Fits (node_color n) a p
  black-Fits a p empty = tt
  black-Fits a p (black_node e bl br) = tt

  hangs :
      {k h : ℕ} {a c : Color} {n : Tree E} {p : Way E}
      → RbWay k h a p
      → Rb c h n
      → Fits (node_color n) a p
      → Hangs n p
  hangs way b fit = record {
    root = _;
    height = _;
    above = _;
    way = way;
    shape = own_color b;
    fits = fit;
  }

  pub Hangs-root : {h : ℕ} {t : Tree E} → Rb black h t → Hangs t []
  Hangs-root b = hangs (top refl) b (black-Fits black [] b)

  left_child :
      {k h : ℕ} {a c : Color} {l r : Tree E} {e : E} {p : Way E}
      → RbWay k h a p
      → Rb c h (node c l e r)
      → Fits c a p
      → Hangs l (frame on_left c e r ∷ p)
  left_child {l = l} {r = r} {p = p} way (black_node e bl br) fit =
      hangs (under_black on_left e br way) bl
        (Fits-below_black (node_color l) (frame on_left black e r) p)
  left_child (top q) (red_node e bl br) fit = absurd fit
  left_child (under_red s g t way) (red_node e bl br) fit = absurd fit
  left_child (under_black s g t way) (red_node e bl br) fit =
      hangs (under_red on_left e br (under_black s g t way)) bl (black-Fits red _ bl)

  right_child :
      {k h : ℕ} {a c : Color} {l r : Tree E} {e : E} {p : Way E}
      → RbWay k h a p
      → Rb c h (node c l e r)
      → Fits c a p
      → Hangs r (frame on_right c e l ∷ p)
  right_child {l = l} {r = r} {p = p} way (black_node e bl br) fit =
      hangs (under_black on_right e bl way) br
        (Fits-below_black (node_color r) (frame on_right black e l) p)
  right_child (top q) (red_node e bl br) fit = absurd fit
  right_child (under_red s g t way) (red_node e bl br) fit = absurd fit
  right_child (under_black s g t way) (red_node e bl br) fit =
      hangs (under_red on_right e bl (under_black s g t way)) br (black-Fits red _ br)

  pub Hangs-left :
      (c : Color) (l : Tree E) (e : E) (r : Tree E) (p : Way E)
      → Hangs (node c l e r) p
      → Hangs l (frame on_left c e r ∷ p)
  Hangs-left c l e r p h = left_child h.way h.shape h.fits

  pub Hangs-right :
      (c : Color) (l : Tree E) (e : E) (r : Tree E) (p : Way E)
      → Hangs (node c l e r) p
      → Hangs r (frame on_right c e l ∷ p)
  Hangs-right c l e r p h = right_child h.way h.shape h.fits

  -- Nothing is taken out.
  pub untouched :
      (n : Tree E) (p : Way E) (e : Err) {out : Option (Err × Option E × Tree E)}
      → Hangs n p
      → out ≡ some (e, none, plug p n)
      → Taken e none (wrap p (inorder n)) out
  untouched n p e h is =
      let (j, shape) = plug-Fits h.way h.shape h.fits in
      record {
        tree = plug p n;
        returned = is;
        height = j;
        shape = shape;
        contents = inorder-plug-wrap p n;
      }
