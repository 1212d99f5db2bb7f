-- ===== src/Rbtree/Shape.antt =====
-- Red-black trees, and the ways up to the root of one.
use zinfo_tech.Base.{ℕ, zero, suc, ◌≡◌, refl, ap, ◌∙◌, List, [], ◌∷◌, ◌++◌}
use zinfo_tech.Rbtree.{
  Color, red, black, Tree, leaf, node, Side, on_left, on_right, Frame, frame, Way, parent, plug,
}

module _ {E : Type 0} where
  -- A tree of the colour `c`, with `h` black nodes on each path to a NULL, and no red child of a red
  -- node.
  pub data Rb : Color → ℕ → Tree E → Type 0 where
    empty : Rb black zero leaf
    red_node :
        {h : ℕ} {l r : Tree E} (e : E) → Rb black h l → Rb black h r → Rb red h (node red l e r)
    black_node :
        {c d : Color} {h : ℕ} {l r : Tree E} (e : E)
        → Rb c h l
        → Rb d h r
        → Rb black (suc h) (node black l e r)

  -- A way up from a subtree of black height `h` below a parent of the colour `c` (black for NULL) to
  -- a root of black height `k`. The parent of a red node is a node, and black.
  pub data RbWay (k : ℕ) : ℕ → Color → Way E → Type 0 where
    top : {h : ℕ} → k ≡ h → RbWay k h black []
    under_black :
        {h : ℕ} {c a : Color} {t : Tree E} {p : Way E} (s : Side) (e : E)
        → Rb c h t
        → RbWay k (suc h) a p
        → RbWay k h black (frame s black e t ∷ p)
    under_red :
        {h : ℕ} {t : Tree E} {f : Frame E} {p : Way E} (s : Side) (e : E)
        → Rb black h t
        → RbWay k h black (f ∷ p)
        → RbWay k h red (frame s red e t ∷ f ∷ p)

  pub black_parent :
      {c d : Color} {h : ℕ} {n t : Tree E} (s : Side) (e : E)
      → Rb c h n
      → Rb d h t
      → Rb black (suc h) (parent (frame s black e t) n)
  black_parent on_left e a b = black_node e a b
  black_parent on_right e a b = black_node e b a

  red_parent :
      {h : ℕ} {n t : Tree E} (s : Side) (e : E)
      → Rb black h n
      → Rb black h t
      → Rb red h (parent (frame s red e t) n)
  red_parent on_left e a b = red_node e a b
  red_parent on_right e a b = red_node e b a

  -- A black subtree fits below any parent.
  pub plug-Rb :
      {k h : ℕ} {a : Color} {n : Tree E} {p : Way E}
      → RbWay k h a p
      → Rb black h n
      → (j : ℕ) × Rb black j (plug p n)
  unfolding plug
  plug-Rb (top {h} e) b = (h, b)
  plug-Rb (under_black s e t p) b = plug-Rb p (black_parent s e b t)
  plug-Rb (under_red s e t (under_black s' e' t' p)) b =
      plug-Rb p (black_parent s' e' (red_parent s e b t) t')

  -- The contents in order.
  unfoldable pub inorder : Tree E → List E
  inorder leaf = []
  inorder (node c l e r) = inorder l ++ (e ∷ inorder r)

  pub inorder-parent :
      (f : Frame E) (n m : Tree E)
      → inorder n ≡ inorder m
      → inorder (parent f n) ≡ inorder (parent f m)
  unfolding inorder
  inorder-parent (frame on_left c e t) n m h = ap (λ l. l ++ (e ∷ inorder t)) h
  inorder-parent (frame on_right c e t) n m h = ap (λ l. inorder t ++ (e ∷ l)) h

  -- Trees with the same contents have them at the same place too.
  pub inorder-plug :
      (p : Way E) (n m : Tree E) → inorder n ≡ inorder m → inorder (plug p n) ≡ inorder (plug p m)
  unfolding plug
  inorder-plug [] n m h = h
  inorder-plug (f ∷ p) n m h = inorder-plug p (parent f n) (parent f m) (inorder-parent f n m h)

  -- The contents of the whole, from those of a subtree.
  unfoldable pub wrap_frame : Frame E → List E → List E
  unfolding inorder
  wrap_frame (frame on_left c e t) l = l ++ (e ∷ inorder t)
  wrap_frame (frame on_right c e t) l = inorder t ++ (e ∷ l)

  unfoldable pub wrap : Way E → List E → List E
  wrap [] l = l
  wrap (f ∷ p) l = wrap p (wrap_frame f l)

  inorder-parent-wrap : (f : Frame E) (n : Tree E) → inorder (parent f n) ≡ wrap_frame f (inorder n)
  unfolding wrap_frame
  inorder-parent-wrap (frame on_left c e t) n = refl
  inorder-parent-wrap (frame on_right c e t) n = refl

  pub inorder-plug-wrap : (p : Way E) (n : Tree E) → inorder (plug p n) ≡ wrap p (inorder n)
  unfolding plug wrap
  inorder-plug-wrap [] n = refl
  inorder-plug-wrap (f ∷ p) n =
      inorder-plug-wrap p (parent f n) ∙ ap (wrap p) (inorder-parent-wrap f n)

  -- A red subtree hangs below a black node, and not at the root.
  abbrev pub Fits : Color → Color → Way E → Type 0
  Fits black a p = Unit {0}
  Fits red red p = ⊥
  Fits red black [] = ⊥
  Fits red black (f ∷ p) = Unit {0}

  pub plug-Fits :
      {k h : ℕ} {c a : Color} {n : Tree E} {p : Way E}
      → RbWay k h a p
      → Rb c h n
      → Fits c a p
      → (j : ℕ) × Rb black j (plug p n)
  unfolding plug
  plug-Fits {c = black} way b fit = plug-Rb way b
  plug-Fits {c = red} (top q) b fit = absurd fit
  plug-Fits {c = red} (under_black s e t way) b fit = plug-Rb way (black_parent s e b t)
  plug-Fits {c = red} (under_red s e t way) b fit = absurd fit

  pub Fits-below_black : (c : Color) (f : Frame E) (p : Way E) → Fits c black (f ∷ p)
  Fits-below_black red f p = tt
  Fits-below_black black f p = tt
