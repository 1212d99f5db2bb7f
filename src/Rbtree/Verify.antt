-- ===== src/Rbtree/Verify.antt =====
-- `zrbtree_verify` accepts exactly the red-black trees with a black root.
use zinfo_tech.Base.{
  ℕ, zero, suc, ◌+◌, ◌≡◌, ◌↔◌, ◌⊎◌, inl, inr, refl, sym, ap, ◌∙◌, true, false, ◌&&◌, Option, none,
  some, if◌then◌else◌, arith, Err, ok,
}
use zinfo_tech.Rbtree.{
  Color, red, black, Tree, leaf, node, is_red, node_color, property1, property2, property4,
  property5, property5_helper, red_is_alone, verify,
}
use zinfo_tech.Rbtree.Shape.{Rb, empty, red_node, black_node}

same_height :
    (count i j : ℕ) {seen seen' : Option ℕ}
    → seen ≡ some (count + i + 1)
    → seen' ≡ some (count + j + 1)
    → (seen ≡ none) ⊎ (seen ≡ seen')
    → i ≡ j
same_height count i j p q (inl r) = absurd (cc)
same_height count i j p q (inr r) = let s : count + i + 1 ≡ count + j + 1 = cc in omega arith

agrees_through :
    {seen between seen' : Option ℕ} {k : ℕ}
    → (seen ≡ none) ⊎ (seen ≡ between)
    → between ≡ some k
    → (between ≡ none) ⊎ (between ≡ seen')
    → (seen ≡ none) ⊎ (seen ≡ seen')
agrees_through (inl p) q r = inl p
agrees_through (inr p) q (inl r) = absurd (cc)
agrees_through (inr p) q (inr r) = inr (p ∙ r)

leaf_first :
    (E : Type 0) (count : ℕ) → property5_helper {E = E} leaf count none ≡ (ok, some (count + 1))
unfolding property5_helper
leaf_first E count = refl

leaf_again :
    (E : Type 0) (count k : ℕ) (seen' : Option ℕ)
    → property5_helper {E = E} leaf count (some k) ≡ (ok, seen')
    → (count + 1 ≡ k) × (seen' ≡ some k)
unfolding property5_helper
leaf_again E count k seen' h = (ground arith, ground arith)

pair_eq : {p : Err × Option ℕ} {e : Err} → p.0 ≡ e → p ≡ (e, p.1)
pair_eq {p} h = λ i. (h i, p.1)

module _ {E : Type 0} where
  pub property1-ok : (t : Tree E) → property1 t ≡ ok
  unfolding property1
  property1-ok leaf = refl
  property1-ok (node c l e r) = rw (property1-ok l, property1-ok r)

  color : {c : Color} {h : ℕ} {t : Tree E} → Rb c h t → node_color t ≡ c
  color empty = refl
  color (red_node e bl br) = refl
  color (black_node e bl br) = refl

  -- A red-black tree below a parent of the colour `above` has no red node with a red neighbour.
  property4-ok :
      {c : Color} {h : ℕ} {t : Tree E} (above : Color)
      → Rb c h t
      → is_red c && is_red above ≡ false
      → property4 above t ≡ ok
  unfolding property4
  property4-ok above empty h = refl
  property4-ok red (red_node e bl br) h = cc h
  property4-ok black (red_node e bl br) h =
      rw (color bl, color br, property4-ok red bl refl, property4-ok red br refl)
  property4-ok above (black_node {c} {d} e bl br) h =
      rw (property4-ok black bl (no_red c), property4-ok black br (no_red d))
    where
      no_red : (c : Color) → is_red c && false ≡ false
      no_red red = refl
      no_red black = refl

  -- The helper finds the same number of black nodes on each path.
  property5_helper-ok :
      {c : Color} {h : ℕ} {t : Tree E} (count k : ℕ) (seen : Option ℕ)
      → Rb c h t
      → k ≡ count + h + 1
      → (seen ≡ none) ⊎ (seen ≡ some k)
      → property5_helper t count seen ≡ (ok, some k)
  unfolding property5_helper
  property5_helper-ok count k none empty q s = ground arith
  property5_helper-ok count k (some j) empty q s = ground arith
  property5_helper-ok count k seen (red_node e bl br) q s = rw (
    property5_helper-ok count k seen bl q s,
    property5_helper-ok count k seen bl q s,
    property5_helper-ok count k (some k) br q (inr refl),
  )
  property5_helper-ok count k seen (black_node e bl br) q s = rw (
    property5_helper-ok (count + 1) k seen bl (omega arith) s,
    property5_helper-ok (count + 1) k seen bl (omega arith) s,
    property5_helper-ok (count + 1) k (some k) br (omega arith) (inr refl),
  )

  verify_complete : {h : ℕ} {t : Tree E} → Rb black h t → verify t ≡ ok
  unfolding verify property2 property5
  verify_complete {h} {t} b = ground (
    arith,
    property1-ok t,
    color b,
    property4-ok black b refl,
    property5_helper-ok 0 (0 + h + 1) none b refl (inl refl),
  )

  -- What an accepting run of the helper over a node says of its children.
  record Halves (c : Color) (l r : Tree E) (count : ℕ) (seen seen' : Option ℕ) : Type 0 where
    between : Option ℕ
    left_half : property5_helper l (if is_red c then count else count + 1) seen ≡ (ok, between)
    right_half : property5_helper r (if is_red c then count else count + 1) between ≡ (ok, seen')

  halves :
      (c : Color) (l r : Tree E) (e : E) (count : ℕ) (seen seen' : Option ℕ)
      → property5_helper (node c l e r) count seen ≡ (ok, seen')
      → Halves c l r count seen seen'
  unfolding property5_helper
  halves c l r e count seen seen' h = go (property5_helper l count' seen) refl h
    where
      count' : ℕ
      count' = if is_red c then count else count + 1

      go :
          (res : Err × Option ℕ)
          → property5_helper l count' seen ≡ res
          → elim res.0 [ ok ↦ property5_helper r count' res.1 | other ↦ (other, res.1) ]
            ≡ (ok, seen')
          → Halves c l r count seen seen'
      go (ok, s) q h = record { between = s; left_half = q; right_half = h }
      go (other, s) q h = absurd (cc h)

  -- What an accepting `property4` of a node says of its parts.
  property4_parts :
      (above c : Color) (l r : Tree E) (e : E)
      → property4 above (node c l e r) ≡ ok
      → (red_is_alone above (node c l e r) ≡ true) × (property4 c l ≡ ok) × (property4 c r ≡ ok)
  unfolding property4
  property4_parts above c l r e h = ground arith

  children_black :
      (above : Color) (l r : Tree E) (e : E)
      → red_is_alone above (node red l e r) ≡ true
      → (node_color l ≡ black) × (node_color r ≡ black)
  unfolding red_is_alone
  children_black above l r e h = ground arith

  -- An accepting run tells the black height.
  record Measured (t : Tree E) (count : ℕ) (seen seen' : Option ℕ) : Type 0 where
    height : ℕ
    shape : Rb (node_color t) height t
    found : seen' ≡ some (count + height + 1)
    agrees : (seen ≡ none) ⊎ (seen ≡ seen')

  red_shape :
      (l r : Tree E) (e : E) {h i : ℕ}
      → Rb (node_color l) h l
      → Rb (node_color r) i r
      → i ≡ h
      → (node_color l ≡ black) × (node_color r ≡ black)
      → Rb red h (node red l e r)
  red_shape l r e {h} bl br same (bl', br') = red_node e (rw bl' at bl) (rw (br', same) at br)

  measure :
      (t : Tree E) (above : Color) (count : ℕ) (seen seen' : Option ℕ)
      → property4 above t ≡ ok
      → property5_helper t count seen ≡ (ok, seen')
      → Measured t count seen seen'
  measure leaf above count none seen' p4 p5 =
      let first : seen' ≡ some (count + 1) = cc (leaf_first E count) in
      let found_first : seen' ≡ some (count + zero + 1) = first ∙ ap some (omega arith) in
      record { height = zero; shape = empty; found = found_first; agrees = inl refl }
  measure leaf above count (some k) seen' p4 p5 =
      let (q, r) = leaf_again E count k seen' p5 in
      record {
        height = zero;
        shape = empty;
        found = r ∙ ap some (omega arith);
        agrees = inr (sym r);
      }
  measure (node red l e r) above count seen seen' p4 p5 =
      let (alone, pl, pr) = property4_parts above red l r e p4 in
      let h = halves red l r e count seen seen' p5 in
      let ml = measure l red count seen h.between pl h.left_half in
      let mr = measure r red count h.between seen' pr h.right_half in
      let q = same_height count ml.height mr.height ml.found mr.found mr.agrees in
      record {
        height = ml.height;
        shape = red_shape l r e ml.shape mr.shape (sym q) (children_black above l r e alone);
        found = mr.found ∙ ap some (omega arith);
        agrees = agrees_through ml.agrees ml.found mr.agrees;
      }
  measure (node black l e r) above count seen seen' p4 p5 =
      let (alone, pl, pr) = property4_parts above black l r e p4 in
      let h = halves black l r e count seen seen' p5 in
      let ml = measure l black (count + 1) seen h.between pl h.left_half in
      let mr = measure r black (count + 1) h.between seen' pr h.right_half in
      let q = same_height (count + 1) ml.height mr.height ml.found mr.found mr.agrees in
      record {
        height = suc ml.height;
        shape = black_node e ml.shape (rw (sym q) at mr.shape);
        found = mr.found ∙ ap some (omega arith);
        agrees = agrees_through ml.agrees ml.found mr.agrees;
      }

  accepted :
      (t : Tree E)
      → verify t ≡ ok
      → (node_color t ≡ black) × (property4 black t ≡ ok) × (property5 t ≡ ok)
  unfolding verify property2
  accepted t h = ground arith

  verify_sound : (t : Tree E) → verify t ≡ ok → (h : ℕ) × Rb black h t
  unfolding property5
  verify_sound t v =
      let (b, p4, p5) = accepted t v in
      let m = measure t black 0 none (property5_helper t 0 none).1 p4 (pair_eq p5) in
      (m.height, rw b at m.shape)

  -- `zrbtree_verify` accepts a tree exactly if its root is black, no red node has a red neighbour, and
  -- all paths to a NULL have the same number of black nodes.
  pub verify_iff : (t : Tree E) → (verify t ≡ ok) ↔ ((h : ℕ) × Rb black h t)
  verify_iff t = (verify_sound t, λ b. verify_complete b.1)
