-- ===== src/Dlist.antt =====
-- The doubly linked list of zit/container/list.h.
-- A node is its address; the store has the links of each. NULL is none, and an access through it a
-- fault. The size is an int of 32 bits, so that from 2^31 on it is negative.
pub mod Links
pub mod Refine
pub mod Pop
pub mod Foreach
pub mod Locked
mod Tests
use zinfo_tech.Base.{
  ◌>>=◌, ℕ, zero, suc, ◌^◌, Bool, true, false, Option, none, some, List, [], ◌∷◌, Err, ok,
  not_exist, inc32, dec32, ltb, ◌==◌, if◌then◌else◌,
}
use zinfo_tech.Base.Family.{set_at}

abbrev pub Ptr : Type 0
Ptr = Option ℕ

-- `znod_t`, without the user's data
pub record Node : Type 0 where
  pub prev : Ptr
  pub next : Ptr

abbrev pub Store : Type 0
Store = ℕ → Node

pub record Dlist : Type 0 where
  pub store : Store
  pub head : Ptr
  pub tail : Ptr
  pub size : ℕ

abbrev pub set_next : ℕ → Ptr → Store → Store
set_next a p st = set_at st a (record (st a) { next = p })

abbrev pub set_prev : ℕ → Ptr → Store → Store
set_prev a p st = set_at st a (record (st a) { prev = p })

-- `zatm_dec(list->size) >= 0`
abbrev pub not_negative : ℕ → Bool
not_negative n = ltb n (2 ^ 31)

abbrev pub alone : ℕ → ℕ → Dlist → Dlist
alone nod size l = record l {
  store = set_at l.store nod (record { prev = none; next = none });
  head = some nod;
  tail = some nod;
  size = size;
}

-- `list->tail->next = nod; list->tail = nod`
abbrev pub link_tail : Ptr → ℕ → ℕ → Dlist → Option (Err × Dlist)
link_tail none nod n l = none
link_tail (some t) nod n l = some (
  ok,
  record l {
    store = set_next t (some nod) (set_at l.store nod (record { prev = l.tail; next = none }));
    tail = some nod;
    size = n;
  },
)

unfoldable pub push : Dlist → ℕ → Option (Err × Dlist)
push l nod =
    let n = inc32 l.size in if n == 1 then some (ok, alone nod n l) else link_tail l.tail nod n l

-- `list->head->prev = nod; list->head = nod`
abbrev pub link_head : Ptr → ℕ → ℕ → Dlist → Option (Err × Dlist)
link_head none nod n l = none
link_head (some h) nod n l = some (
  ok,
  record l {
    store = set_prev h (some nod) (set_at l.store nod (record { prev = none; next = l.head }));
    head = some nod;
    size = n;
  },
)

unfoldable pub push_front : Dlist → ℕ → Option (Err × Dlist)
push_front l nod =
    let n = inc32 l.size in if n == 1 then some (ok, alone nod n l) else link_head l.head nod n l

-- `if(list->head){ list->head->prev = NULL; }`
abbrev pub cut_prev : Ptr → Store → Store
cut_prev none st = st
cut_prev (some a) st = set_prev a none st

abbrev pub cut_next : Ptr → Store → Store
cut_next none st = st
cut_next (some a) st = set_next a none st

abbrev pub unlink_head : Ptr → ℕ → Dlist → Option (Err × Ptr × Dlist)
unlink_head none n l = none
unlink_head (some h) n l =
    let p = (l.store h).next in
    some (ok, some h, record l { store = cut_prev p l.store; head = p; size = n })

unfoldable pub pop : Dlist → Option (Err × Ptr × Dlist)
pop l =
    let n = dec32 l.size in
    if not_negative n
    then unlink_head l.head n l
    else some (not_exist, none, record l { size = inc32 n })

abbrev pub unlink_tail : Ptr → ℕ → Dlist → Option (Err × Ptr × Dlist)
unlink_tail none n l = none
unlink_tail (some t) n l =
    let p = (l.store t).prev in
    some (ok, some t, record l { store = cut_next p l.store; tail = p; size = n })

unfoldable pub pop_back : Dlist → Option (Err × Ptr × Dlist)
pop_back l =
    let n = dec32 l.size in
    if not_negative n
    then unlink_tail l.tail n l
    else some (not_exist, none, record l { size = inc32 n })

-- The nodes that `zlist_foreach` visits; `none` when the fuel runs out.
unfoldable pub visit : ℕ → Ptr → Store → Option (List ℕ)
visit zero p st = none
visit (suc k) none st = some []
visit (suc k) (some a) st = visit k (st a).next st >>= λ xs. some (a ∷ xs)

unfoldable pub foreach : ℕ → Dlist → Option (List ℕ)
unfolding visit
foreach fuel l = visit fuel l.head l.store

unfoldable pub size_of : Dlist → ℕ
size_of l = l.size

unfoldable pub front : Dlist → Err × Ptr
front l = if l.size == 0 then (not_exist, none) else (ok, l.head)

unfoldable pub back : Dlist → Err × Ptr
back l = if l.size == 0 then (not_exist, none) else (ok, l.tail)
