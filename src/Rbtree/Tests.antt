-- ===== src/Rbtree/Tests.antt =====
-- Runs of the red-black tree, and its theorems at concrete trees.
use zinfo_tech.Base.{
  param_invalid, ◌↔◌, ◌>>=◌, ℕ, ◌≡◌, refl, true, Option, some, List, [], ◌∷◌, ok, ◌==◌,
  if◌then◌else◌, ltb, arith,
}
use zinfo_tech.Rbtree.{
  node_color, red, black, Tree, leaf, node, Sign, equal, great, little, Entry, insert, insert_case1,
  verify, frame, on_left, plug,
}
use zinfo_tech.Rbtree.Shape.{Rb, empty, red_node, black_node, top, under_black}
use zinfo_tech.Rbtree.Verify.{verify_iff}
use zinfo_tech.Rbtree.Delete.{erase, delete_case1}
use zinfo_tech.Rbtree.Erasex.{erasex, erasex-rejected}
use zinfo_tech.Rbtree.Nephews.{Rebalanced}
use zinfo_tech.Rbtree.Deletion.{delete_case1-Rebalanced}

abbrev compare_keys : ℕ → ℕ → Sign
compare_keys a b = if ltb b a then great else (if a == b then equal else little)

abbrev entry : ℕ → Entry ℕ
entry k = record { item = k; next = [] }

insert_all : List ℕ → Tree (Entry ℕ) → Option (Tree (Entry ℕ))
insert_all [] t = some t
insert_all (k ∷ ks) t = insert compare_keys true k t >>= λ r. insert_all ks r.1

abbrev grown : Option (Tree (Entry ℕ))
grown = insert_all (10 ∷ 20 ∷ 30 ∷ 40 ∷ 50 ∷ 25 ∷ 27 ∷ 26 ∷ []) leaf

grown_verifies : (grown >>= λ t. some (verify t)) ≡ some ok
unfolding insert_all insert insert_case1 verify plug
grown_verifies = refl

-- Three keys, 20 at the root.
abbrev three : Tree (Entry ℕ)
three = node black (node red leaf (entry 10) leaf) (entry 20) (node red leaf (entry 30) leaf)

three-Rb : Rb black 1 three
three-Rb = black_node (entry 20) (red_node (entry 10) empty empty) (red_node (entry 30) empty empty)

verify_iff_example : (verify three ≡ ok) ↔ ((h : ℕ) × Rb black h three)
verify_iff_example = verify_iff three

erase_all : List ℕ → Tree (Entry ℕ) → Option (Tree (Entry ℕ))
erase_all [] t = some t
erase_all (k ∷ ks) t = erase compare_keys k t >>= λ r. erase_all ks r.2

-- With two children, in the middle of the tree, and further ones.
shrunk_verifies :
    (grown >>= λ t. erase_all (20 ∷ 40 ∷ 30 ∷ 10 ∷ []) t >>= λ u. some (verify u)) ≡ some ok
unfolding insert_all insert insert_case1 erase_all erase delete_case1 verify plug
shrunk_verifies = refl

-- A black node below 20, with a black sibling 30 that has a red child.
delete_case1-Rebalanced_example :
    Rebalanced
      (frame on_left black (entry 20) (node black leaf (entry 30) (node red leaf (entry 40) leaf))
        ∷ [])
      0
      (delete_case1 2 (
        frame on_left black (entry 20) (node black leaf (entry 30) (node red leaf (entry 40) leaf))
        ∷ []))
delete_case1-Rebalanced_example = delete_case1-Rebalanced 2 (omega arith) (
    under_black on_left (entry 20) (black_node (entry 30) empty (red_node (entry 40) empty empty))
      (top refl))

-- Two nodes with the key 20.
abbrev doubled : Tree (Entry ℕ)
doubled = node black leaf (record { item = 20; next = (red, 20) ∷ [] }) leaf

doubled_is_inserted : insert_all (20 ∷ 20 ∷ []) leaf ≡ some doubled
unfolding insert_all insert insert_case1 plug
doubled_is_inserted = refl

erasex-rejected_example :
    (t : Tree (Entry ℕ)) × (erasex compare_keys ◌==◌ 20 doubled ≡ some (ok, t))
    × (node_color t ≡ red)
    × (verify t ≡ param_invalid)
erasex-rejected_example =
    erasex-rejected compare_keys ◌==◌ 20 black leaf (record { item = 20; next = (red, 20) ∷ [] })
      leaf 20 [] refl refl refl
