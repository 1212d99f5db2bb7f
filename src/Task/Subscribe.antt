-- ===== src/Task/Subscribe.antt =====
-- The removal of a subscription, `ztsk_svr_unsubscribe` of src/task.c.
use zinfo_tech.Base.{ℕ, ◌≡◌, refl, ◌∙◌, ◌≢◌, some, [], ◌++◌, ok, arith}
use zinfo_tech.Rbtree.{Color, Tree, node, Sign, equal, Entry, verify}
use zinfo_tech.Rbtree.Shape.{inorder, wrap}
use zinfo_tech.Rbtree.Hangs.{Hangs-root}
use zinfo_tech.Rbtree.Unlink.{erase_node-Balanced}
use zinfo_tech.Rbtree.Verify.{verify_iff}
use zinfo_tech.Rbtree.Erasex.{erasex-root, erase_one-kept, erase_one-erased}
use zinfo_tech.Task.Post.{Sub, compare_key, compare_sub, cmp_erase_sub, unsubscribe}

module _ (overflow : ℕ → ℕ → Sign) (c : Color) (l r : Tree (Entry Sub)) (sub : Sub) (mis : ℕ) where
  -- The one subscription of its task type, at the root.
  abbrev only : Entry Sub
  only = record { item = sub; next = [] }

  self : compare_key overflow sub.tsk_type sub.tsk_type ≡ equal
  self = ground arith

  -- With one subscription of a task type, at the root of a tree that `zrbtree_verify` accepts: to
  -- unsubscribe its mission answers ZEOK and leaves the tree as it is, and to unsubscribe any other
  -- mission answers ZEOK and leaves a tree that `zrbtree_verify` accepts, of all the entries but that
  -- of the subscription.
  pub unsubscribe_other :
      verify (node c l only r) ≡ ok
      → sub.mis ≢ mis
      → (unsubscribe overflow sub.tsk_type sub.mis (node c l only r) ≡ some (ok, node c l only r))
        × ((t : Tree (Entry Sub)) × (unsubscribe overflow sub.tsk_type mis (node c l only r)
              ≡ some (ok, t))
            × (inorder t ≡ inorder l ++ inorder r)
            × (verify t ≡ ok))
  unfolding unsubscribe wrap
  unsubscribe_other accepted ne =
      let (h, b) = (verify_iff (node c l only r)).0 accepted in
      let g = Hangs-root b in
      let d = erase_node-Balanced c l only r [] g.way g.shape g.fits in
      let cmp = compare_sub overflow in
      let key : Sub = record sub { mis = mis; operate_by = 0 } in
      let key' : Sub = record sub { operate_by = 0 } in
      (
        erasex-root cmp cmp_erase_sub key' c l only r self
            ∙ erase_one-kept cmp cmp_erase_sub key' c l sub r (ground arith),
        (
          d.tree,
          erasex-root cmp cmp_erase_sub key c l only r self
              ∙ erase_one-erased cmp cmp_erase_sub key c l sub r (ground arith)
              ∙ rw d.returned refl,
          d.contents,
          (verify_iff d.tree).1 (d.height, d.shape),
        ),
      )
