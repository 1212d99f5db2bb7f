-- ===== src/Rbtree/Map.antt =====
-- What a client may do with the tree, and a list of entries in order that answers the same.
use zinfo_tech.Base.{◌>>=◌, ◌≡◌, refl, Bool, Option, none, some, List, [], ◌∷◌, Err, ok, ℕ}
use zinfo_tech.Rbtree.{Tree, black, Sign, Entry, insert, find, verify}
use zinfo_tech.Rbtree.Delete.{erase, pop_front}
use zinfo_tech.Rbtree.Shape.{Rb, inorder}
use zinfo_tech.Rbtree.Sorted.{insert_sorted}
use zinfo_tech.Rbtree.Keyed.{insert-Inserted}
use zinfo_tech.Rbtree.Erase.{erase_sorted, erase-Taken}
use zinfo_tech.Rbtree.Pop.{pop_sorted, pop_front-Taken}
use zinfo_tech.Rbtree.Find.{find_sorted, find-find_sorted}
use zinfo_tech.Rbtree.Ordered.{
  IsOrder, Ordered, Ordered-Cut, insert_sorted-Ordered, erase_sorted-Ordered, pop_sorted-Ordered,
}
use zinfo_tech.Rbtree.Verify.{verify_iff}

pub data Op (V : Type 0) : Type 0 where
  insert_op erase_op find_op : V → Op V
  pop_op : (Entry V → Bool) → Op V

abbrev pub Reply : Type 0 → Type 0
Reply V = Err × Option (Entry V)

module _ {V : Type 0} (cmp : V → V → Sign) (multiple : Bool) where
  unfoldable pub step : Tree (Entry V) → Op V → Option (Reply V × Tree (Entry V))
  step t (insert_op v) = insert cmp multiple v t >>= λ r. some ((r.0, none), r.1)
  step t (erase_op v) = erase cmp v t >>= λ r. some ((r.0, r.1), r.2)
  step t (find_op v) = some (find cmp v t, t)
  step t (pop_op condition) = pop_front condition t >>= λ r. some ((r.0, r.1), r.2)

  unfoldable pub run : Tree (Entry V) → List (Op V) → Option (List (Reply V) × Tree (Entry V))
  run t [] = some ([], t)
  run t (op ∷ ops) = step t op >>= λ r. run r.1 ops >>= λ rs. some (r.0 ∷ rs.0, rs.1)

  -- The abstract table: the entries in order.
  unfoldable pub spec : List (Entry V) → Op V → Reply V × List (Entry V)
  spec es (insert_op v) = let (e, fs) = insert_sorted cmp multiple v es in ((e, none), fs)
  spec es (erase_op v) = let (e, x, fs) = erase_sorted cmp v es in ((e, x), fs)
  spec es (find_op v) = (find_sorted cmp v es, es)
  spec es (pop_op condition) = let (e, x, fs) = pop_sorted condition es in ((e, x), fs)

  unfoldable pub spec_run : List (Entry V) → List (Op V) → List (Reply V) × List (Entry V)
  spec_run es [] = ([], es)
  spec_run es (op ∷ ops) =
      let (r, fs) = spec es op in let (rs, gs) = spec_run fs ops in (r ∷ rs, gs)

  -- A tree after a call that answered as the list.
  record Stepped (t : Tree (Entry V)) (op : Op V) : Type 0 where
    tree : Tree (Entry V)
    returned : step t op ≡ some ((spec (inorder t) op).0, tree)
    height : ℕ
    shape : Rb black height tree
    contents : inorder tree ≡ (spec (inorder t) op).1

  module _ (law : IsOrder cmp) where
    step-Stepped :
        {h : ℕ} (t : Tree (Entry V)) (op : Op V)
        → Rb black h t
        → Ordered cmp (inorder t)
        → Stepped t op
    unfolding step spec
    step-Stepped t (insert_op v) b o =
        let i = insert-Inserted cmp multiple v b (Ordered-Cut law v (inorder t) o) in
        record {
          tree = i.tree;
          returned = rw i.returned;
          height = i.height;
          shape = i.shape;
          contents = i.contents;
        }
    step-Stepped t (erase_op v) b o =
        let i = erase-Taken cmp v t b (Ordered-Cut law v (inorder t) o) in
        record {
          tree = i.tree;
          returned = rw i.returned;
          height = i.height;
          shape = i.shape;
          contents = i.contents;
        }
    step-Stepped t (find_op v) b o = record {
      tree = t;
      returned = rw (find-find_sorted cmp v t (Ordered-Cut law v (inorder t) o));
      height = _;
      shape = b;
      contents = refl;
    }
    step-Stepped t (pop_op condition) b o =
        let i = pop_front-Taken condition t b in
        record {
          tree = i.tree;
          returned = rw i.returned;
          height = i.height;
          shape = i.shape;
          contents = i.contents;
        }

    spec-Ordered : (es : List (Entry V)) (op : Op V) → Ordered cmp es → Ordered cmp (spec es op).1
    unfolding spec
    spec-Ordered es (insert_op v) o = insert_sorted-Ordered law multiple v es o
    spec-Ordered es (erase_op v) o = erase_sorted-Ordered cmp v es o
    spec-Ordered es (find_op v) o = o
    spec-Ordered es (pop_op condition) o = pop_sorted-Ordered cmp condition es o

    run-Rb :
        (ops : List (Op V)) {h : ℕ} (t : Tree (Entry V))
        → Rb black h t
        → Ordered cmp (inorder t)
        → (t' : Tree (Entry V)) × (run t ops ≡ some ((spec_run (inorder t) ops).0, t'))
          × (inorder t' ≡ (spec_run (inorder t) ops).1)
          × ((k : ℕ) × Rb black k t')
    unfolding run spec_run
    run-Rb [] t b o = (t, refl, refl, (_, b))
    run-Rb (op ∷ ops) t b o =
        let s = step-Stepped t op b o in
        let o' : Ordered cmp (inorder s.tree) = rw s.contents (spec-Ordered (inorder t) op o) in
        let (t', ran, same, shape) = run-Rb ops s.tree s.shape o' in
        (t', rw (s.returned, ran, s.contents), rw same (rw s.contents), shape)

    -- For a comparison that is a total preorder: on a tree that `zrbtree_verify` accepts and whose
    -- entries are in order, no sequence of insertions, removals, searches and calls of
    -- `zrbtree_pop_front` faults; it answers as the list of the entries does, and leaves a tree of
    -- the entries that the list is left with, which `zrbtree_verify` accepts.
    pub table_refines :
        (t : Tree (Entry V)) (ops : List (Op V))
        → verify t ≡ ok
        → Ordered cmp (inorder t)
        → (t' : Tree (Entry V)) × (run t ops ≡ some ((spec_run (inorder t) ops).0, t'))
          × (inorder t' ≡ (spec_run (inorder t) ops).1)
          × (verify t' ≡ ok)
    table_refines t ops v o =
        let (h, b) = (verify_iff t).0 v in
        let (t', ran, same, shape) = run-Rb ops t b o in (t', ran, same, (verify_iff t').1 shape)
