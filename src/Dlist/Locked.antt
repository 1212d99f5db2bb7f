-- ===== src/Dlist/Locked.antt =====
-- The list of zit/container/list.h and its lock, as its callers of several threads use it.
use zinfo_tech.Base.{
  ◌>>=◌, ℕ, ◌+◌, ◌^◌, ◌<◌, Bool, false, Option, none, some, List, [], ◌∷◌, ◌++◌, Err, ok, not_exist,
  ◌≡◌, refl, ap, if◌then◌else◌, ◌∙◌,
}
use zinfo_tech.Base.Lists.{length, Back, none_left, snoc, back_view}
use zinfo_tech.Dlist.{Ptr, Dlist, push, push_front, pop, pop_back}
use zinfo_tech.Dlist.Links.{Fresh}
use zinfo_tech.Dlist.Refine.{IsList, push-IsList, push_front-IsList}
use zinfo_tech.Dlist.Pop.{pop-IsList, pop_back-IsList}

-- A list and its lock.
pub record Shared : Type 0 where
  pub held : Bool
  pub lst : Dlist

-- `zspin_lock`, where nobody else runs: on a lock that is held it never returns, `none`.
abbrev acquire : Shared → Option Dlist
acquire s = if s.held then none else some s.lst

abbrev released : Dlist → Shared
released l = record { held = false; lst = l }

abbrev give : Err × Dlist → Option (Err × Shared)
give (e, l) = some (e, released l)

abbrev give_node : Err × Ptr × Dlist → Option (Err × Ptr × Shared)
give_node (e, p, l) = some (e, p, released l)

unfoldable pub lock_push : Shared → ℕ → Option (Err × Shared)
lock_push s nod = acquire s >>= λ l. push l nod >>= give

unfoldable pub lock_pop : Shared → Option (Err × Ptr × Shared)
lock_pop s = acquire s >>= λ l. pop l >>= give_node

unfoldable pub lock_push_front : Shared → ℕ → Option (Err × Shared)
lock_push_front s nod = acquire s >>= λ l. push_front l nod >>= give

unfoldable pub lock_pop_back : Shared → Option (Err × Ptr × Shared)
lock_pop_back s = acquire s >>= λ l. pop_back l >>= give_node

-- A call of one of the four, and what it answers.
pub data Call : Type 0 where
  put : ℕ → Call
  put_front : ℕ → Call
  take : Call
  take_back : Call

abbrev pub Answer : Type 0
Answer = Err × Ptr

abbrev answer : Err × Shared → Option (Answer × Shared)
answer (e, s) = some ((e, none), s)

abbrev answer_node : Err × Ptr × Shared → Option (Answer × Shared)
answer_node (e, p, s) = some ((e, p), s)

unfoldable pub serve : Call → Shared → Option (Answer × Shared)
unfolding lock_push lock_push_front lock_pop lock_pop_back
serve (put n) s = lock_push s n >>= answer
serve (put_front n) s = lock_push_front s n >>= answer
serve take s = lock_pop s >>= answer_node
serve take_back s = lock_pop_back s >>= answer_node

-- The calls one after the other.
unfoldable pub serve_all : List Call → Shared → Option (List Answer × Shared)
unfolding serve
serve_all [] s = some ([], s)
serve_all (c ∷ cs) s = serve c s >>= λ r. serve_all cs r.1 >>= λ t. some (r.0 ∷ t.0, t.1)

-- A double-ended queue of nodes, which the list promises to be.
abbrev without_last : {xs : List ℕ} → Back xs → Answer × List ℕ
without_last none_left = ((not_exist, none), [])
without_last (snoc xs x) = ((ok, some x), xs)

abbrev deque : Call → List ℕ → Answer × List ℕ
deque (put n) xs = ((ok, none), xs ++ (n ∷ []))
deque (put_front n) xs = ((ok, none), n ∷ xs)
deque take [] = ((not_exist, none), [])
deque take (x ∷ xs) = ((ok, some x), xs)
deque take_back xs = without_last (back_view xs)

abbrev deque_all : List Call → List ℕ → List Answer × List ℕ
deque_all [] xs = ([], xs)
deque_all (c ∷ cs) xs = let r = deque c xs in let t = deque_all cs r.1 in (r.0 ∷ t.0, t.1)

-- No node is put that is in the list, and the list stays below 2^31 nodes.
abbrev May : Call → List ℕ → Type 0
May (put n) xs = Fresh n xs × (length xs + 1 < 2 ^ 31)
May (put_front n) xs = Fresh n xs × (length xs + 1 < 2 ^ 31)
May take xs = length xs < 2 ^ 31
May take_back xs = length xs < 2 ^ 31

abbrev MayAll : List Call → List ℕ → Type 0
MayAll [] xs = Unit
MayAll (c ∷ cs) xs = May c xs × MayAll cs (deque c xs).1

abbrev Served : Option (Answer × Shared) → Answer × List ℕ → Type 0
Served o r = (l : Dlist) × (o ≡ some (r.0, released l)) × IsList l r.1

serve_front :
    (l : Dlist) (xs : List ℕ)
    → IsList l xs
    → length xs < 2 ^ 31
    → Served (serve take (released l)) (deque take xs)
unfolding serve lock_pop
serve_front l [] v small =
    (l, ap (λ o. (o >>= give_node) >>= answer_node) (pop-IsList l [] v small), v)
serve_front l (x ∷ xs) v small =
    let (l', e, v') = pop-IsList l (x ∷ xs) v small in
    (l', ap (λ o. (o >>= give_node) >>= answer_node) e, v')

serve_back :
    (l : Dlist) {xs : List ℕ} (b : Back xs)
    → IsList l xs
    → length xs < 2 ^ 31
    → Served (serve take_back (released l)) (without_last b)
unfolding serve lock_pop_back
serve_back l none_left v small =
    (l, ap (λ o. (o >>= give_node) >>= answer_node) (pop_back-IsList l none_left v small), v)
serve_back l (snoc xs x) v small =
    let (l', e, v') = pop_back-IsList l (snoc xs x) v small in
    (l', ap (λ o. (o >>= give_node) >>= answer_node) e, v')

serve-deque :
    (c : Call) (l : Dlist) (xs : List ℕ)
    → IsList l xs
    → May c xs
    → Served (serve c (released l)) (deque c xs)
unfolding serve lock_push lock_push_front
serve-deque (put n) l xs v (f, small) =
    let (l', e, v') = push-IsList l n xs v f small in (l', ap (λ o. (o >>= give) >>= answer) e, v')
serve-deque (put_front n) l xs v (f, small) =
    let (l', e, v') = push_front-IsList l n xs v f small in
    (l', ap (λ o. (o >>= give) >>= answer) e, v')
serve-deque take l xs v small = serve_front l xs v small
serve-deque take_back l xs v small = serve_back l (back_view xs) v small

-- Any calls of the four operations with the lock, one after the other, return and answer as a
-- double-ended queue of nodes does. Afterwards the lock is free and the list holds what that queue
-- holds. Required is that no node is put that the list holds, and that it stays below 2^31 nodes.
pub serve_all-deque :
    (cs : List Call) (l : Dlist) (xs : List ℕ)
    → IsList l xs
    → MayAll cs xs
    → (l' : Dlist) × (serve_all cs (released l) ≡ some ((deque_all cs xs).0, released l'))
      × IsList l' (deque_all cs xs).1
unfolding serve_all
serve_all-deque [] l xs v may = (l, refl, v)
serve_all-deque (c ∷ cs) l xs v may =
    let (l', e, v') = serve-deque c l xs v may.0 in
    let (l'', e', v'') = serve_all-deque cs l' (deque c xs).1 v' may.1 in
    (
      l'',
      ap (λ o. o >>= λ r. serve_all cs r.1 >>= λ t. some (r.0 ∷ t.0, t.1)) e
          ∙ ap (λ o. o >>= λ t. some ((deque c xs).0 ∷ t.0, t.1)) e',
      v'',
    )
