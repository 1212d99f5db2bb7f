-- ===== src/Rbtree/Nephews.antt =====
-- The last two cases of a deletion, with a black sibling that has a red child: `delete_case5` and
-- `delete_case6` of src/rbtree.c.
use zinfo_tech.Base.{ℕ, suc, ◌≡◌, refl, ap, ◌∙◌, false, Option, some, List, ◌∷◌, append_assoc}
use zinfo_tech.Rbtree.{
  Color, red, black, is_red, node_color, Tree, leaf, node, Side, on_left, on_right, Frame, frame,
  Way,
}
use zinfo_tech.Rbtree.Shape.{
  Rb, empty, red_node, black_node, RbWay, under_black, under_red, inorder, wrap, wrap_frame,
}
use zinfo_tech.Rbtree.Delete.{delete_case5, delete_case6, straighten}

module _ {E : Type 0} where
  -- What the cases return for the way `p` up from a node: a way of the same contents, on which a
  -- subtree of black height `h` hangs well, whatever its colour.
  pub record Rebalanced (p : Way E) (h : ℕ) (out : Option (Way E)) : Type 0 where
    pub way : Way E
    pub returned : out ≡ some way
    pub height : ℕ
    pub shape : RbWay height h black way
    pub contents : (l : List E) → wrap way l ≡ wrap p l

  -- The way up from a node of the colour `c` whose children have the black height `h`.
  pub data Above (k h : ℕ) : Color → Way E → Type 0 where
    above_black : {a : Color} {p : Way E} → RbWay k (suc (suc h)) a p → Above k h black p
    above_red : {f : Frame E} {p : Way E} → RbWay k (suc h) black (f ∷ p) → Above k h red (f ∷ p)

  -- A black subtree beside, in place of the node.
  over :
      {k h : ℕ} {c : Color} {t : Tree E} {p : Way E}
      → Above k h c p
      → (s : Side) (e : E) → Rb black (suc h) t
      → (a : Color) × RbWay k (suc h) a (frame s c e t ∷ p)
  over (above_black way) s e b = (black, under_black s e b way)
  over (above_red way) s e b = (red, under_red s e b way)

  pub not_red : {h : ℕ} {t : Tree E} → Rb black h t → is_red (node_color t) ≡ false
  not_red empty = refl
  not_red (black_node e bl br) = refl

  pub renamed :
      {p : Way E} {h : ℕ} {out out' : Option (Way E)}
      → Rebalanced p h out
      → out' ≡ out
      → Rebalanced p h out'
  renamed b e = record {
    way = b.way;
    returned = e ∙ b.returned;
    height = b.height;
    shape = b.shape;
    contents = b.contents;
  }

  pub same_contents :
      {p p' : Way E} {h : ℕ} {out : Option (Way E)}
      → Rebalanced p h out
      → ((l : List E) → wrap p l ≡ wrap p' l)
      → Rebalanced p' h out
  same_contents b e = record {
    way = b.way;
    returned = b.returned;
    height = b.height;
    shape = b.shape;
    contents = λ l. b.contents l ∙ e l;
  }

  -- A red child of the sibling on the far side.
  case6_left :
      {k h : ℕ} {c d : Color} {p : Way E} {l a b : Tree E}
      → Above k h c p
      → (e f g : E) → Rb d h l
      → Rb black h a
      → Rb black h b
      → Rebalanced
          (frame on_left c e (node black l f (node red a g b)) ∷ p)
          h
          (delete_case6 (frame on_left c e (node black l f (node red a g b)) ∷ p))
  unfolding delete_case6 wrap wrap_frame inorder
  case6_left {c = c} {p = p} {l = l} {a = a} {b = b} above e f g bl ba bb = record {
    way = frame on_left black e l ∷ frame on_left c f (node black a g b) ∷ p;
    returned = refl;
    height = _;
    shape = under_black on_left e bl (over above on_left f (black_node g ba bb)).1;
    contents = λ m. ap (wrap p) (simp append_assoc);
  }

  case6_right :
      {k h : ℕ} {c d : Color} {p : Way E} {l a b : Tree E}
      → Above k h c p
      → (e f g : E) → Rb d h l
      → Rb black h a
      → Rb black h b
      → Rebalanced
          (frame on_right c e (node black (node red a g b) f l) ∷ p)
          h
          (delete_case6 (frame on_right c e (node black (node red a g b) f l) ∷ p))
  unfolding delete_case6 wrap wrap_frame inorder
  case6_right {c = c} {p = p} {l = l} {a = a} {b = b} above e f g bl ba bb = record {
    way = frame on_right black e l ∷ frame on_right c f (node black a g b) ∷ p;
    returned = refl;
    height = _;
    shape = under_black on_right e bl (over above on_right f (black_node g ba bb)).1;
    contents = λ m. ap (wrap p) (simp append_assoc);
  }

  far_left :
      (c : Color) (e f g : E) (l a b : Tree E) (p : Way E)
      → delete_case5 (frame on_left c e (node black l f (node red a g b)) ∷ p)
        ≡ delete_case6 (frame on_left c e (node black l f (node red a g b)) ∷ p)
  unfolding delete_case5 straighten
  far_left c e f g leaf a b p = refl
  far_left c e f g (node red l x r) a b p = refl
  far_left c e f g (node black l x r) a b p = refl

  far_right :
      (c : Color) (e f g : E) (l a b : Tree E) (p : Way E)
      → delete_case5 (frame on_right c e (node black (node red a g b) f l) ∷ p)
        ≡ delete_case6 (frame on_right c e (node black (node red a g b) f l) ∷ p)
  unfolding delete_case5 straighten
  far_right c e f g leaf a b p = refl
  far_right c e f g (node red l x r) a b p = refl
  far_right c e f g (node black l x r) a b p = refl

  -- The only red child of the sibling on the near side.
  near_left :
      {h : ℕ} (c : Color) (e f g : E) (a b : Tree E) {r : Tree E} (p : Way E)
      → Rb black h r
      → delete_case5 (frame on_left c e (node black (node red a g b) f r) ∷ p)
        ≡ delete_case6 (frame on_left c e (node black a g (node red b f r)) ∷ p)
  unfolding delete_case5 straighten
  near_left c e f g a b p br = rw (not_red br) refl

  near_right :
      {h : ℕ} (c : Color) (e f g : E) (a b : Tree E) {l : Tree E} (p : Way E)
      → Rb black h l
      → delete_case5 (frame on_right c e (node black l f (node red a g b)) ∷ p)
        ≡ delete_case6 (frame on_right c e (node black (node red l f a) g b) ∷ p)
  unfolding delete_case5 straighten
  near_right c e f g a b p bl = rw (not_red bl) refl

  -- What `delete_case5` returns for a black sibling whose children have the colours `c` and `d`.
  abbrev pub Settled : ℕ → Color → Color → Color → Side → E → E → Tree E → Tree E → Way E → Type 0
  Settled h c black black side e f l r p = Unit {0}
  Settled h c _ _ side e f l r p =
      Rebalanced (frame side c e (node black l f r) ∷ p) h
        (delete_case5 (frame side c e (node black l f r) ∷ p))

  -- With one red child of a black sibling at least, `delete_case5` makes up for the missing black
  -- node below the same parent.
  pub red_nephew :
      {k h : ℕ} {c i j : Color} {p : Way E} {l r : Tree E}
      → Above k h c p
      → (s : Side) (e f : E) → Rb i h l
      → Rb j h r
      → Settled h c i j s e f l r p
  unfolding wrap wrap_frame inorder
  red_nephew {i = black} {j = black} above s e f bl br = tt
  red_nephew {c = c} {i = black} {j = red} {p = p} {l = l} above on_left e f bl
        (red_node {l = a} {r = b} g ba bb) =
      renamed (case6_left above e f g bl ba bb) (far_left c e f g l a b p)
  red_nephew {c = c} {i = red} {j = red} {p = p} {l = l} above on_left e f bl
        (red_node {l = a} {r = b} g ba bb) =
      renamed (case6_left above e f g bl ba bb) (far_left c e f g l a b p)
  red_nephew {c = c} {i = red} {j = black} {p = p} {r = r} above on_left e f
        (red_node {l = a} {r = b} g ba bb) br =
      same_contents (renamed (case6_left above e g f ba bb br) (near_left c e f g a b p br))
        (λ m. ap (wrap p) (simp append_assoc))
  red_nephew {c = c} {i = red} {j = black} {p = p} {r = r} above on_right e f
        (red_node {l = a} {r = b} g ba bb) br =
      renamed (case6_right above e f g br ba bb) (far_right c e f g r a b p)
  red_nephew {c = c} {i = red} {j = red} {p = p} {r = r} above on_right e f
        (red_node {l = a} {r = b} g ba bb) br =
      renamed (case6_right above e f g br ba bb) (far_right c e f g r a b p)
  red_nephew {c = c} {i = black} {j = red} {p = p} {l = l} above on_right e f bl
        (red_node {l = a} {r = b} g ba bb) =
      same_contents (renamed (case6_right above e g f bb bl ba) (near_right c e f g a b p bl))
        (λ m. ap (wrap p) (simp append_assoc))
