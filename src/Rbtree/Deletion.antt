-- ===== src/Rbtree/Deletion.antt =====
-- `delete_case1` to `delete_case4` of src/rbtree.c, on the way up from a node whose subtree is to
-- lose a black node.
use zinfo_tech.Base.{
  ℕ, zero, suc, ◌<◌, ◌≡◌, refl, ap, ◌∙◌, Option, List, [], ◌∷◌, ◌++◌, arith, append_assoc,
}
use zinfo_tech.Base.Lists.{length}
use zinfo_tech.Rbtree.{
  Color, red, black, node_color, Tree, node, Side, on_left, on_right, Frame, frame, Way,
}
use zinfo_tech.Rbtree.Shape.{
  Rb, empty, red_node, black_node, RbWay, top, under_black, under_red, inorder, wrap, wrap_frame,
}
use zinfo_tech.Rbtree.Delete.{
  delete_case1, delete_case2, delete_case3, delete_case4, children_black,
}
use zinfo_tech.Rbtree.Nephews.{
  Rebalanced, above_black, above_red, not_red, renamed, same_contents, red_nephew,
}

module _ {E : Type 0} where
  colored : {c : Color} {h : ℕ} {t : Tree E} → Rb c h t → node_color t ≡ c
  colored empty = refl
  colored (red_node e bl br) = refl
  colored (black_node e bl br) = refl

  -- Colours are not part of the contents.
  same_frame :
      (s : Side) (c d : Color) (e : E) (t u : Tree E) (m : List E)
      → inorder t ≡ inorder u
      → wrap_frame (frame s c e t) m ≡ wrap_frame (frame s d e u) m
  unfolding wrap_frame
  same_frame on_left c d e t u m h = ap (λ l. m ++ (e ∷ l)) h
  same_frame on_right c d e t u m h = ap (λ l. l ++ (e ∷ m)) h

  -- Below a red parent.
  case4_red :
      {k h : ℕ} {g : Frame E} {p : Way E} {t : Tree E}
      → RbWay k (suc h) black (g ∷ p)
      → (s : Side) (e : E) → Rb black (suc h) t
      → Rebalanced (frame s red e t ∷ g ∷ p) h (delete_case4 (frame s red e t ∷ g ∷ p))
  unfolding delete_case4 children_black wrap wrap_frame inorder
  case4_red {g = g} {p = p} way s e (black_node {c = black} {d = black} {l = l} {r = r} f bl br) =
      record {
        way = frame s black e (node red l f r) ∷ g ∷ p;
        returned = rw (not_red bl, not_red br) refl;
        height = _;
        shape = under_black s e (red_node f bl br) way;
        contents = λ m.
            ap (wrap (g ∷ p)) (same_frame s black red e (node red l f r) (node black l f r) m refl);
      }
  case4_red way s e (black_node {c = black} {d = red} f bl br) =
      renamed (red_nephew (above_red way) s e f bl br) (rw (colored bl, colored br) refl)
  case4_red way s e (black_node {c = red} {d = black} f bl br) =
      renamed (red_nephew (above_red way) s e f bl br) (rw (colored bl) refl)
  case4_red way s e (black_node {c = red} {d = red} f bl br) =
      renamed (red_nephew (above_red way) s e f bl br) (rw (colored bl) refl)

  -- Below a black parent, with a black sibling; `b` is about the call for the parent.
  case3_black :
      {k h : ℕ} {a : Color} {p : Way E} {t : Tree E} (up : Way E → Option (Way E))
      → RbWay k (suc (suc h)) a p
      → Rebalanced p (suc h) (up p)
      → (s : Side) (e : E) → Rb black (suc h) t
      → Rebalanced (frame s black e t ∷ p) h (delete_case3 up (frame s black e t ∷ p))
  unfolding delete_case3 delete_case4 children_black wrap wrap_frame inorder
  case3_black {p = p} up way b s e (black_node {c = black} {d = black} {l = l} {r = r} f bl br) =
      record {
        way = frame s black e (node red l f r) ∷ b.way;
        returned = rw (not_red bl, not_red br, b.returned) refl;
        height = _;
        shape = under_black s e (red_node f bl br) b.shape;
        contents = λ m.
            b.contents (wrap_frame (frame s black e (node red l f r)) m)
            ∙ ap (wrap p) (same_frame s black black e (node red l f r) (node black l f r) m refl);
      }
  case3_black up way b s e (black_node {c = black} {d = red} f bl br) =
      renamed (red_nephew (above_black way) s e f bl br) (rw (colored bl, colored br) refl)
  case3_black up way b s e (black_node {c = red} {d = black} f bl br) =
      renamed (red_nephew (above_black way) s e f bl br) (rw (colored bl) refl)
  case3_black up way b s e (black_node {c = red} {d = red} f bl br) =
      renamed (red_nephew (above_black way) s e f bl br) (rw (colored bl) refl)

  -- Below a black parent, with any sibling.
  case2_black :
      {k h : ℕ} {a c : Color} {p : Way E} {t : Tree E} (up : Way E → Option (Way E))
      → RbWay k (suc (suc h)) a p
      → Rebalanced p (suc h) (up p)
      → (s : Side) (e : E) → Rb c (suc h) t
      → Rebalanced (frame s black e t ∷ p) h (delete_case2 up (frame s black e t ∷ p))
  unfolding delete_case2 delete_case3 wrap wrap_frame inorder
  case2_black up way b s e (black_node f bl br) = case3_black up way b s e (black_node f bl br)
  case2_black {p = p} up way b on_left e (red_node f bl br) =
      same_contents (case4_red (under_black on_left f br way) on_left e bl)
        (λ m. ap (wrap p) (simp append_assoc))
  case2_black {p = p} up way b on_right e (red_node f bl br) =
      same_contents (case4_red (under_black on_right f bl way) on_right e br)
        (λ m. ap (wrap p) (simp append_assoc))

  case2_red :
      {k h : ℕ} {g : Frame E} {p : Way E} {t : Tree E} (up : Way E → Option (Way E))
      → RbWay k (suc h) black (g ∷ p)
      → (s : Side) (e : E) → Rb black (suc h) t
      → Rebalanced (frame s red e t ∷ g ∷ p) h (delete_case2 up (frame s red e t ∷ g ∷ p))
  unfolding delete_case2 delete_case3
  case2_red up way s e (black_node f bl br) = case4_red way s e (black_node f bl br)

  -- On the way up from a node of black height `suc h` in a red-black tree, with fuel for each
  -- ancestor and one call more, the cases never fault, and return a way of the same contents below
  -- which a subtree of black height `h`, of either colour, makes a red-black tree.
  pub delete_case1-Rebalanced :
      {k : ℕ} (fuel : ℕ) {h : ℕ} {a : Color} {p : Way E}
      → length p < fuel
      → RbWay k (suc h) a p
      → Rebalanced p h (delete_case1 fuel p)
  unfolding delete_case1
  delete_case1-Rebalanced zero enough way = absurd (omega arith)
  delete_case1-Rebalanced (suc n) enough (top q) = record {
    way = [];
    returned = refl;
    height = _;
    shape = top refl;
    contents = λ l. refl;
  }
  delete_case1-Rebalanced (suc n) enough (under_black s e b way) =
      case2_black (delete_case1 n) way (delete_case1-Rebalanced n (omega arith) way) s e b
  delete_case1-Rebalanced (suc n) enough (under_red s e b way) =
      case2_red (delete_case1 n) way s e b
