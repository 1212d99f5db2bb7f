-- ===== src/Rbtree/MapTests.antt =====
-- The theorems about sequences of calls at concrete ones, and a comparison of numbers.
use zinfo_tech.Base.{
  none, Err, fail, ℕ, ◌≡◌, refl, true, List, [], ◌∷◌, arith, ok, some, ltb, ◌==◌, if◌then◌else◌,
}
use zinfo_tech.Rbtree.{
  Tree, node, leaf, black, red, Sign, equal, great, little, Entry, verify, find,
}
use zinfo_tech.Rbtree.Shape.{inorder}
use zinfo_tech.Rbtree.Ordered.{IsOrder, Ordered}
use zinfo_tech.Rbtree.Findx.{operate, IsServed, operate-find}
use zinfo_tech.Rbtree.Map.{Op, insert_op, erase_op, find_op, pop_op, run, spec_run, table_refines}

abbrev compare : ℕ → ℕ → Sign
compare a b = if ltb b a then great else (if a == b then equal else little)

compare-IsOrder : IsOrder compare
compare-IsOrder = record {
  from_little = λ a b h. ground arith;
  from_great = λ a b h. ground arith;
  from_equal = λ a b h c. let same : a ≡ b = ground arith in rw same refl;
  chain = λ a b c h i. ground arith;
}

abbrev key : ℕ → Entry ℕ
key k = record { item = k; next = [] }

abbrev tree : Tree (Entry ℕ)
tree = node black (node red leaf (key 10) leaf) (key 20) (node red leaf (key 30) leaf)

abbrev calls : List (Op ℕ)
calls =
    insert_op 25
    ∷ erase_op 20
    ∷ find_op 25
    ∷ insert_op 7
    ∷ pop_op (λ e. ltb e.item 9)
    ∷ erase_op 99
    ∷ []

table_refines_example :
    (t' : Tree (Entry ℕ)) × (run compare true tree calls
      ≡ some ((spec_run compare true (inorder tree) calls).0, t'))
    × (inorder t' ≡ (spec_run compare true (inorder tree) calls).1)
    × (verify t' ≡ ok)
unfolding verify inorder Ordered
table_refines_example =
    table_refines compare true compare-IsOrder tree calls refl
      ((refl, (refl, tt)), ((refl, tt), (tt, tt)))

-- The key 20 twice.
abbrev several : Tree (Entry ℕ)
several = node black leaf (record { item = 20; next = (red, 20) ∷ [] }) leaf

-- Collects the nodes; a second one is too many.
abbrev collect : ℕ → List ℕ → List ℕ → Err × List ℕ
collect x rest [] = (ok, x ∷ [])
collect x rest (y ∷ ys) = (fail, x ∷ y ∷ ys)

collects_both : operate compare none 20 collect several [] ≡ (fail, 20 ∷ 20 ∷ [])
unfolding operate
collects_both = refl

operate-find_example :
    IsServed compare none 20 collect
      (find compare 20 several)
      []
      (operate compare none 20 collect several [])
operate-find_example = operate-find compare none 20 collect several []
