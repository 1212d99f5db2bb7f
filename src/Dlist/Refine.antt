-- ===== src/Dlist/Refine.antt =====
-- What it means that a list of zit/container/list.h holds given nodes, and the pushes.
use zinfo_tech.Base.{
  inc32, false, ◌==◌, ℕ, ◌+◌, ◌^◌, ◌<◌, ◌≡◌, refl, sym, ap, ◌∙◌, none, some, List, [], ◌∷◌, ◌++◌,
  ok, arith,
}
use zinfo_tech.Base.Lists.{length, length-append, Back, none_left, snoc, back_view}
use zinfo_tech.Base.Family.{set_at, set_at-here, set_at-other}
use zinfo_tech.Dlist.{Dlist, set_prev, set_next, alone, push, push_front, link_head, link_tail}
use zinfo_tech.Dlist.Links.{
  Chain, Fresh, Distinct, last, links, Fresh-front, Distinct-snoc, Distinct-front, Chain-set_at,
  Chain-snoc, Chain-set_prev, Chain-set_next, last-snoc,
}

abbrev pub Ends : Dlist → List ℕ → Type 0
Ends l [] = Unit
Ends l (x ∷ xs) = (l.head ≡ some x) × (l.tail ≡ last (some x) xs)

-- The list holds these nodes, in this order. An empty list may keep old pointers.
pub record IsList (l : Dlist) (xs : List ℕ) : Type 0 where
  pub sized : l.size ≡ length xs
  pub distinct : Distinct xs
  pub chain : Chain l.store none xs none
  pub ends : Ends l xs

pub Ends-tail : (l : Dlist) (x : ℕ) (xs : List ℕ) → Ends l (xs ++ (x ∷ [])) → l.tail ≡ some x
Ends-tail l x [] e = e.1
Ends-tail l x (y ∷ ys) e = e.1 ∙ last-snoc (some y) x ys

alone-IsList : (l : Dlist) (nod : ℕ) → IsList (alone nod 1 l) (nod ∷ [])
alone-IsList l nod = record {
  sized = refl;
  distinct = (tt, tt);
  chain = (set_at-here l.store nod (links none none) nod refl, tt);
  ends = (refl, refl);
}

-- The list after `zlist_push_front` before the node `h`, and after `zlist_push` behind the node `t`.
abbrev pushed_front : Dlist → ℕ → ℕ → Dlist
pushed_front l nod h = record l {
  store = set_prev h (some nod) (set_at l.store nod (links none l.head));
  head = some nod;
  size = inc32 l.size;
}

abbrev pushed : Dlist → ℕ → ℕ → Dlist
pushed l nod t = record l {
  store = set_next t (some nod) (set_at l.store nod (links l.tail none));
  tail = some nod;
  size = inc32 l.size;
}

grow : (n : ℕ) → 0 < n → n + 1 < 2 ^ 31 → (inc32 n == 1) ≡ false
grow n p q = ground arith

push_front_linked :
    (l : Dlist) (nod h : ℕ)
    → l.head ≡ some h
    → 0 < l.size
    → l.size + 1 < 2 ^ 31
    → push_front l nod ≡ some (ok, pushed_front l nod h)
unfolding push_front
push_front_linked l nod h e p q =
    rw (grow l.size p q) (ap (λ a. link_head a nod (inc32 l.size) l) e)

push_linked :
    (l : Dlist) (nod t : ℕ)
    → l.tail ≡ some t
    → 0 < l.size
    → l.size + 1 < 2 ^ 31
    → push l nod ≡ some (ok, pushed l nod t)
unfolding push
push_linked l nod t e p q = rw (grow l.size p q) (ap (λ a. link_tail a nod (inc32 l.size) l) e)

-- `zlist_push_front` puts a node that is not in the list before its nodes.
pub push_front-IsList :
    (l : Dlist) (nod : ℕ) (xs : List ℕ)
    → IsList l xs
    → Fresh nod xs
    → length xs + 1 < 2 ^ 31
    → (l' : Dlist) × (push_front l nod ≡ some (ok, l')) × IsList l' (nod ∷ xs)
unfolding push_front
push_front-IsList l nod [] v f small = (alone nod 1 l, rw v.sized refl, alone-IsList l nod)
push_front-IsList l nod (x ∷ xs) v f small = (
  pushed_front l nod x,
  push_front_linked l nod x v.ends.0 (omega (arith, v.sized)) (omega (arith, v.sized)),
  record {
    sized = omega (arith, v.sized);
    distinct = (f, v.distinct);
    chain = (
      set_at-other (set_at l.store nod (links none l.head)) x _ nod (λ e. f.0 (sym e))
          ∙ set_at-here l.store nod _ nod refl
          ∙ ap (links none) v.ends.0,
      Chain-set_prev _ none (some nod) none x xs v.distinct.0
          (Chain-set_at nod _ l.store none none (x ∷ xs) f v.chain),
    );
    ends = (refl, v.ends.1);
  },
)

pub Ends-snoc :
    (l : Dlist) (nod x : ℕ) (xs : List ℕ)
    → l.head ≡ some x
    → l.tail ≡ some nod
    → Ends l (x ∷ xs ++ (nod ∷ []))
Ends-snoc l nod x xs h t = (h, t ∙ sym (last-snoc (some x) nod xs))

Ends-keep :
    (l l' : Dlist) (nod t : ℕ) (ys : List ℕ)
    → l'.head ≡ l.head
    → l'.tail ≡ some nod
    → Ends l (ys ++ (t ∷ []))
    → Ends l' ((ys ++ (t ∷ [])) ++ (nod ∷ []))
Ends-keep l l' nod t [] h e v = (h ∙ v.0, e)
Ends-keep l l' nod t (y ∷ ys) h e v = Ends-snoc l' nod y (ys ++ (t ∷ [])) (h ∙ v.0) e

push_behind :
    (l : Dlist) (nod t : ℕ) (ys : List ℕ)
    → IsList l (ys ++ (t ∷ []))
    → Fresh nod (ys ++ (t ∷ []))
    → length ys + 2 < 2 ^ 31
    → (l' : Dlist) × (push l nod ≡ some (ok, l')) × IsList l' ((ys ++ (t ∷ [])) ++ (nod ∷ []))
unfolding push
push_behind l nod t ys v f small =
    let tail_is = Ends-tail l t ys v.ends in
    let count = length-append ys (t ∷ []) in
    let apart = (Fresh-front nod t ys f).1 in
    (
      pushed l nod t,
      push_linked l nod t tail_is (omega (arith, v.sized)) (omega (arith, v.sized)),
      record {
        sized = omega (arith, v.sized, length-append (ys ++ (t ∷ [])) (nod ∷ []));
        distinct = Distinct-snoc nod (ys ++ (t ∷ [])) v.distinct f;
        chain =
            Chain-snoc _ none none nod (ys ++ (t ∷ []))
              (Chain-set_next _ none none (some nod) t ys (Distinct-front t ys v.distinct).1
                (Chain-set_at nod _ l.store none none (ys ++ (t ∷ [])) f v.chain))
              (set_at-other (set_at l.store nod (links l.tail none)) t _ nod (λ e. apart (sym e))
                ∙ set_at-here l.store nod _ nod refl
                ∙ ap (λ p. links p none) (tail_is ∙ sym (last-snoc none t ys)));
        ends = Ends-keep l (pushed l nod t) nod t ys refl refl v.ends;
      },
    )

push_first : (l : Dlist) (nod : ℕ) → l.size ≡ 0 → push l nod ≡ some (ok, alone nod 1 l)
unfolding push
push_first l nod e = rw e

-- `zlist_push` puts a node that is not in the list behind its nodes.
pub push-IsList :
    (l : Dlist) (nod : ℕ) (xs : List ℕ)
    → IsList l xs
    → Fresh nod xs
    → length xs + 1 < 2 ^ 31
    → (l' : Dlist) × (push l nod ≡ some (ok, l')) × IsList l' (xs ++ (nod ∷ []))
push-IsList l nod xs v f small = split xs (back_view xs) v f small
  where
    split :
        (zs : List ℕ)
        → Back zs
        → IsList l zs
        → Fresh nod zs
        → length zs + 1 < 2 ^ 31
        → (l' : Dlist) × (push l nod ≡ some (ok, l')) × IsList l' (zs ++ (nod ∷ []))
    split zs none_left v' f' small' = (alone nod 1 l, push_first l nod v'.sized, alone-IsList l nod)
    split zs (snoc ys t) v' f' small' =
        push_behind l nod t ys v' f' (omega (arith, length-append ys (t ∷ []), small'))
