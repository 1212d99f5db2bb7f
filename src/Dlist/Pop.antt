-- ===== src/Dlist/Pop.antt =====
-- The pops of zit/container/list.h, and the nodes at its ends.
use zinfo_tech.Base.{
  Err, inc32, dec32, true, false, ◌==◌, ℕ, ◌+◌, ◌^◌, ◌<◌, ◌≡◌, refl, ap, ◌∙◌, none, some, List, [],
  ◌∷◌, ◌++◌, ok, not_exist, arith,
}
use zinfo_tech.Base.Lists.{length, length-append, Back, none_left, snoc, back_view}
use zinfo_tech.Dlist.{
  Ptr, Node, Dlist, pop, pop_back, front, back, cut_prev, cut_next, unlink_head, unlink_tail,
  not_negative,
}
use zinfo_tech.Dlist.Links.{
  first, last, Distinct-front, Chain-front, Chain-set_prev, Chain-set_next, last-snoc,
}
use zinfo_tech.Dlist.Refine.{IsList, Ends, Ends-tail, Ends-snoc}

-- The list after a pop at its head, and at its tail.
abbrev popped : Dlist → Ptr → Dlist
popped l p = record l { store = cut_prev p l.store; head = p; size = dec32 l.size }

abbrev pub popped_back : Dlist → Ptr → Dlist
popped_back l p = record l { store = cut_next p l.store; tail = p; size = dec32 l.size }

shrink : (n : ℕ) → 0 < n → n < 2 ^ 31 → not_negative (dec32 n) ≡ true
shrink n p q = ground arith

pop_linked :
    (l : Dlist) (h : ℕ) (p : Ptr)
    → l.head ≡ some h
    → (l.store h).next ≡ p
    → 0 < l.size
    → l.size < 2 ^ 31
    → pop l ≡ some (ok, some h, popped l p)
unfolding pop
pop_linked l h p e n pos small =
    rw (shrink l.size pos small)
      (ap (λ a. unlink_head a (dec32 l.size) l) e ∙ ap (λ b. some (ok, some h, popped l b)) n)

pub pop_back_linked :
    (l : Dlist) (t : ℕ) (p : Ptr)
    → l.tail ≡ some t
    → (l.store t).prev ≡ p
    → 0 < l.size
    → l.size < 2 ^ 31
    → pop_back l ≡ some (ok, some t, popped_back l p)
unfolding pop_back
pop_back_linked l t p e n pos small =
    rw (shrink l.size pos small)
      (ap (λ a. unlink_tail a (dec32 l.size) l) e ∙ ap (λ b. some (ok, some t, popped_back l b)) n)

Ends-cut :
    (l l' : Dlist) (t y : ℕ) (ys : List ℕ)
    → l'.head ≡ l.head
    → l'.tail ≡ some y
    → Ends l ((ys ++ (y ∷ [])) ++ (t ∷ []))
    → Ends l' (ys ++ (y ∷ []))
Ends-cut l l' t y [] h e v = (h ∙ v.0, e)
Ends-cut l l' t y (z ∷ ys) h e v = Ends-snoc l' y z ys (h ∙ v.0) e

pop_first :
    (l : Dlist) (h : ℕ) (xs : List ℕ)
    → IsList l (h ∷ xs)
    → length xs + 1 < 2 ^ 31
    → IsList (popped l (first xs none)) xs
pop_first l h [] v small = record {
  sized = omega (arith, v.sized);
  distinct = tt;
  chain = tt;
  ends = tt;
}
pop_first l h (x ∷ xs) v small = record {
  sized = omega (arith, v.sized);
  distinct = v.distinct.1;
  chain = Chain-set_prev l.store (some h) none none x xs v.distinct.1.0 v.chain.1;
  ends = (refl, v.ends.1);
}

pub pop_last :
    (l : Dlist) (t : ℕ) (xs : List ℕ)
    → IsList l (xs ++ (t ∷ []))
    → length xs + 1 < 2 ^ 31
    → IsList (popped_back l (last none xs)) xs
pop_last l t xs v small = shorten xs (back_view xs) v small
  where
    shorten :
        (zs : List ℕ)
        → Back zs
        → IsList l (zs ++ (t ∷ []))
        → length zs + 1 < 2 ^ 31
        → IsList (popped_back l (last none zs)) zs
    shorten zs none_left v' small' = record {
      sized = omega (arith, v'.sized);
      distinct = tt;
      chain = tt;
      ends = tt;
    }
    shorten zs (snoc ys y) v' small' =
        let (d, f) = Distinct-front t (ys ++ (y ∷ [])) v'.distinct in
        let (c, e) = Chain-front l.store none none t (ys ++ (y ∷ [])) v'.chain in
        rw (last-snoc none y ys) (record {
          sized = omega (arith, v'.sized, length-append (ys ++ (y ∷ [])) (t ∷ []));
          distinct = d;
          chain = Chain-set_next l.store none (some t) none y ys (Distinct-front y ys d).1 c;
          ends = Ends-cut l (popped_back l (some y)) t y ys refl refl v'.ends;
        })

abbrev Takes : Dlist → List ℕ → Type 0
Takes l [] = pop l ≡ some (not_exist, none, l)
Takes l (x ∷ xs) = (l' : Dlist) × (pop l ≡ some (ok, some x, l')) × IsList l' xs

negative : (n : ℕ) → n ≡ 0 → not_negative (dec32 n) ≡ false
negative n e = ground arith

restored : (n : ℕ) → n ≡ 0 → inc32 (dec32 n) ≡ n
restored n e = omega arith

pop_empty : (l : Dlist) → l.size ≡ 0 → pop l ≡ some (not_exist, none, l)
unfolding pop
pop_empty l e =
    rw (negative l.size e)
      (ap (λ n. some (not_exist, none, record l { size = n })) (restored l.size e))

pop_back_empty : (l : Dlist) → l.size ≡ 0 → pop_back l ≡ some (not_exist, none, l)
unfolding pop_back
pop_back_empty l e =
    rw (negative l.size e)
      (ap (λ n. some (not_exist, none, record l { size = n })) (restored l.size e))

-- `zlist_pop` takes the first node. On an empty list it fails and changes nothing.
pub pop-IsList : (l : Dlist) (xs : List ℕ) → IsList l xs → length xs < 2 ^ 31 → Takes l xs
pop-IsList l [] v small = pop_empty l v.sized
pop-IsList l (x ∷ xs) v small = (
  popped l (first xs none),
  pop_linked l x (first xs none) v.ends.0 (ap (λ (n : Node). n.next) v.chain.0)
      (omega (arith, v.sized)) (omega (arith, v.sized)),
  pop_first l x xs v (omega arith),
)

abbrev TakesBack : Dlist → {xs : List ℕ} → Back xs → Type 0
TakesBack l none_left = pop_back l ≡ some (not_exist, none, l)
TakesBack l (snoc xs x) = (l' : Dlist) × (pop_back l ≡ some (ok, some x, l')) × IsList l' xs

-- `zlist_pop_back` takes the last node. On an empty list it fails and changes nothing.
pub pop_back-IsList :
    (l : Dlist) {xs : List ℕ} (b : Back xs) → IsList l xs → length xs < 2 ^ 31 → TakesBack l b
pop_back-IsList l none_left v small = pop_back_empty l v.sized
pop_back-IsList l (snoc xs x) v small =
    let count = length-append xs (x ∷ []) in
    (
      popped_back l (last none xs),
      pop_back_linked l x (last none xs) (Ends-tail l x xs v.ends)
          (ap (λ (n : Node). n.prev) (Chain-front l.store none none x xs v.chain).1)
          (omega (arith, v.sized)) (omega (arith, v.sized)),
      pop_last l x xs v (omega arith),
    )

abbrev first_of : List ℕ → Err × Ptr
first_of [] = (not_exist, none)
first_of (x ∷ xs) = (ok, some x)

abbrev last_of : List ℕ → Err × Ptr
last_of [] = (not_exist, none)
last_of (x ∷ xs) = (ok, last (some x) xs)

-- `zlist_front` and `zlist_back` give the nodes at the ends, and fail on an empty list.
pub front-IsList :
    (l : Dlist) (xs : List ℕ) → IsList l xs → (front l ≡ first_of xs) × (back l ≡ last_of xs)
unfolding front back
front-IsList l [] v = (rw v.sized, rw v.sized)
front-IsList l (x ∷ xs) v =
    let more : (l.size == 0) ≡ false = ground (arith, v.sized) in
    (rw more (ap (λ p. (ok, p)) v.ends.0), rw more (ap (λ p. (ok, p)) v.ends.1))
