-- ===== src/Dlist/Tests.antt =====
-- Runs of the list of zit/container/list.h, and its theorems at concrete lists.
use zinfo_tech.Base.{
  ℕ, ◌≡◌, refl, some, none, [], ◌∷◌, ok, not_exist, arith, false, ◌==◌, if◌then◌else◌,
}
use zinfo_tech.Base.Lists.{back_view}
use zinfo_tech.Dlist.{Node, Dlist, push, push_front, pop, pop_back, front, back, foreach}
use zinfo_tech.Dlist.Refine.{IsList, push-IsList, push_front-IsList}
use zinfo_tech.Dlist.Pop.{pop-IsList, front-IsList}
use zinfo_tech.Dlist.Foreach.{foreach-IsList, foreach-pop_back}
use zinfo_tech.Dlist.Locked.{put, put_front, take, take_back, serve_all, serve_all-deque}

abbrev unlinked : Node
unlinked = record { prev = none; next = none }

abbrev fresh_list : Dlist
fresh_list = record { store = λ a. unlinked; head = none; tail = none; size = 0 }

fresh_list-IsList : IsList fresh_list []
fresh_list-IsList = record { sized = refl; distinct = tt; chain = tt; ends = tt }

abbrev links_of : ℕ → Node
links_of a =
    if a == 5
    then record { prev = none; next = some 7 }
    else if a == 7
    then record { prev = some 5; next = none }
    else unlinked

abbrev two_nodes : Dlist
two_nodes = record { store = links_of; head = some 5; tail = some 7; size = 2 }

two_nodes-IsList : IsList two_nodes (5 ∷ 7 ∷ [])
two_nodes-IsList = record {
  sized = refl;
  distinct = ((ground arith, tt), (tt, tt));
  chain = (refl, (refl, tt));
  ends = (refl, refl);
}

abbrev one_node : Dlist
one_node = record { store = λ a. unlinked; head = some 5; tail = some 5; size = 1 }

one_node-IsList : IsList one_node (5 ∷ [])
one_node-IsList = record {
  sized = refl;
  distinct = (tt, tt);
  chain = (refl, tt);
  ends = (refl, refl);
}

push-IsList_example : (l' : Dlist) × (push two_nodes 9 ≡ some (ok, l')) × IsList l' (5 ∷ 7 ∷ 9 ∷ [])
push-IsList_example =
    push-IsList two_nodes 9 (5 ∷ 7 ∷ []) two_nodes-IsList (ground arith, (ground arith, tt))
      (omega arith)

push_front-IsList_example :
    (l' : Dlist) × (push_front two_nodes 9 ≡ some (ok, l')) × IsList l' (9 ∷ 5 ∷ 7 ∷ [])
push_front-IsList_example =
    push_front-IsList two_nodes 9 (5 ∷ 7 ∷ []) two_nodes-IsList (ground arith, (ground arith, tt))
      (omega arith)

pop-IsList_example : (l' : Dlist) × (pop two_nodes ≡ some (ok, some 5, l')) × IsList l' (7 ∷ [])
pop-IsList_example = pop-IsList two_nodes (5 ∷ 7 ∷ []) two_nodes-IsList (omega arith)

front-IsList_example : (front two_nodes ≡ (ok, some 5)) × (back two_nodes ≡ (ok, some 7))
front-IsList_example = front-IsList two_nodes (5 ∷ 7 ∷ []) two_nodes-IsList

foreach-IsList_example : foreach 4 two_nodes ≡ some (5 ∷ 7 ∷ [])
foreach-IsList_example = foreach-IsList two_nodes 5 (7 ∷ []) 4 two_nodes-IsList (omega arith)

foreach-pop_back_example :
    (l' : Dlist) × (pop_back one_node ≡ some (ok, some 5, l'))
    × IsList l' []
    × (foreach 3 l' ≡ some (5 ∷ []))
foreach-pop_back_example = foreach-pop_back one_node 5 3 one_node-IsList (omega arith)

serve_all-deque_example :
    (l' : Dlist) × (serve_all
        (put 5 ∷ put 7 ∷ put_front 9 ∷ take_back ∷ take ∷ take ∷ take ∷ [])
        (record { held = false; lst = fresh_list })
      ≡ some (
        (ok, none)
            ∷ (ok, none)
            ∷ (ok, none)
            ∷ (ok, some 7)
            ∷ (ok, some 9)
            ∷ (ok, some 5)
            ∷ (not_exist, none)
            ∷ [],
        record { held = false; lst = l' },
      ))
    × IsList l' []
unfolding back_view
serve_all-deque_example =
    serve_all-deque (put 5 ∷ put 7 ∷ put_front 9 ∷ take_back ∷ take ∷ take ∷ take ∷ []) fresh_list
      [] fresh_list-IsList (ground arith)
