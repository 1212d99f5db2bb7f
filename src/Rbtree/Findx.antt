-- ===== src/Rbtree/Findx.antt =====
-- `zrbtree_findx` and `zrbtree_operate` of zit/container/rbtree.h: the nodes with an equal key.
use zinfo_tech.Base.{
  Bool-cases, ◌≢◌, ◌≡◌, refl, Bool, true, Option, none, some, List, [], ◌∷◌, map, inl, inr,
  if◌then◌else◌, Err, ok, not_exist,
}
use zinfo_tech.Rbtree.{Tree, leaf, node, Sign, equal, great, little, Entry, find}
use zinfo_tech.Rbtree.Sorted.{Sign-cases}

module _ {V : Type 0} where
  -- The values of an entry's nodes, the head first.
  abbrev pub values : Entry V → List V
  values e = e.item ∷ map (λ x. x.1) e.next

  -- A comparison that is left out accepts each node.
  abbrev pub accepts : Option (V → V → Bool) → V → V → Bool
  accepts none key x = true
  accepts (some same) key x = same x key

module _ {V : Type 0} (cmp : V → V → Sign) (same : Option (V → V → Bool)) (v : V) where
  unfoldable pub first_accepted : List V → Err × Option V
  first_accepted [] = (not_exist, none)
  first_accepted (x ∷ xs) = if accepts same v x then (ok, some x) else first_accepted xs

  unfoldable pub findx : Tree (Entry V) → Err × Option V
  unfolding first_accepted
  findx leaf = (not_exist, none)
  findx (node c l e r) = elim (cmp e.item v) [
    | equal ↦ first_accepted (values e)
    | great ↦ findx l
    | little ↦ findx r
  ]

  -- The first accepted node of what a search returned.
  abbrev pub pick : Err × Option (Entry V) → Err × Option V
  pick (e, none) = (e, none)
  pick (e, some x) = first_accepted (values x)

  -- `zrbtree_findx` finds the first node that the second comparison accepts, of those of the entry
  -- that `zrbtree_find` finds, and nothing when that finds none.
  pub findx-find : (t : Tree (Entry V)) → findx t ≡ pick (find cmp v t)
  unfolding findx find
  findx-find leaf = refl
  findx-find (node c l e r) = elim (Sign-cases (cmp e.item v)) [
    | inl q ↦ rw (q, findx, find) (findx-find r)
    | inr (inl q) ↦ rw (q, findx, find)
    | inr (inr q) ↦ rw (q, findx, find) (findx-find l)
  ]

  -- The operation gets a node, which is a value and the nodes behind it, and a state that stands for all that it changes, and may fail.
  module _ {S : Type 0} (op : V → List V → S → Err × S) where
    abbrev pub unless_failed : Err × S → (S → Err × S) → Err × S
    unless_failed (ok, s) rest = rest s
    unless_failed (e, s) rest = (e, s)

    unfoldable pub operate_list : List V → S → Err × S
    operate_list [] s = (ok, s)
    operate_list (x ∷ xs) s =
        if accepts same v x then unless_failed (op x xs s) (operate_list xs) else operate_list xs s

    unfoldable pub operate : Tree (Entry V) → S → Err × S
    unfolding operate_list
    operate leaf s = (not_exist, s)
    operate (node c l e r) s = elim (cmp e.item v) [
      | equal ↦ operate_list (values e) s
      | great ↦ operate l s
      | little ↦ operate r s
    ]

    -- What the operation does to the nodes of an entry.
    abbrev pub on_found : Err × Option (Entry V) → S → Err × S
    on_found (e, none) s = (e, s)
    on_found (e, some x) s = operate_list (values x) s

    pub operate-on_found : (t : Tree (Entry V)) (s : S) → operate t s ≡ on_found (find cmp v t) s
    unfolding operate find
    operate-on_found leaf s = refl
    operate-on_found (node c l e r) s = elim (Sign-cases (cmp e.item v)) [
      | inl q ↦ rw (q, operate, find) (operate-on_found r s)
      | inr (inl q) ↦ rw (q, operate, find)
      | inr (inr q) ↦ rw (q, operate, find) (operate-on_found l s)
    ]

    -- The accepted nodes of a list, each with the nodes behind it.
    unfoldable pub accepted : List V → List (V × List V)
    accepted [] = []
    accepted (x ∷ xs) = if accepts same v x then (x, xs) ∷ accepted xs else accepted xs

    -- The calls for these nodes, from a state on: all of them answer ZEOK, or the last one is the first
    -- that does not.
    pub data Calls : List (V × List V) → S → Err × S → Type 0 where
      all_done : {s : S} → Calls [] s (ok, s)
      went_on :
          {x : V} {xs : List V} {ys : List (V × List V)} {s t : S} {out : Err × S}
          → op x xs s ≡ (ok, t)
          → Calls ys t out
          → Calls ((x, xs) ∷ ys) s out
      stopped :
          {x : V} {xs : List V} {ys : List (V × List V)} {s t : S} {e : Err}
          → op x xs s ≡ (e, t)
          → e ≢ ok
          → Calls ((x, xs) ∷ ys) s (e, t)

    call-Calls :
        (x : V) (xs : List V) (ys : List (V × List V)) (s : S) (rest : S → Err × S)
        (answer : Err × S)
        → op x xs s ≡ answer
        → ((t : S) → Calls ys t (rest t))
        → Calls ((x, xs) ∷ ys) s (unless_failed answer rest)
    call-Calls x xs ys s rest (ok, t) h next = went_on h (next t)
    call-Calls x xs ys s rest (e, t) h next = stopped h (λ q. cc (q))

    operate_list-Calls : (xs : List V) (s : S) → Calls (accepted xs) s (operate_list xs s)
    unfolding operate_list accepted
    operate_list-Calls [] s = all_done
    operate_list-Calls (x ∷ xs) s = elim (Bool-cases (accepts same v x)) [
      | inl yes_x ↦
          rw (yes_x, operate_list, accepted)
            (call-Calls x xs (accepted xs) s (operate_list xs) (op x xs s) refl
              (λ t. operate_list-Calls xs t))
      | inr no_x ↦ rw (no_x, operate_list, accepted) (operate_list-Calls xs s)
    ]

    -- What a search returned, and what is to come of it.
    abbrev pub IsServed : Err × Option (Entry V) → S → Err × S → Type 0
    IsServed (e, none) s out = out ≡ (e, s)
    IsServed (e, some x) s out = Calls (accepted (values x)) s out

    on_found-IsServed :
        (found : Err × Option (Entry V)) (s : S) → IsServed found s (on_found found s)
    on_found-IsServed (e, none) s = refl
    on_found-IsServed (e, some x) s = operate_list-Calls (values x) s

    -- `zrbtree_operate` calls the operation for the accepted nodes of the entry that `zrbtree_find`
    -- finds, one after the other up to the first that does not answer ZEOK, whose answer it returns,
    -- and for no other node. When that finds none, it returns the same and calls nothing.
    pub operate-find : (t : Tree (Entry V)) (s : S) → IsServed (find cmp v t) s (operate t s)
    operate-find t s = rw (operate-on_found t s) (on_found-IsServed (find cmp v t) s)
