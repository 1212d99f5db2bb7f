-- ===== src/Dlist/Links.antt =====
-- Which nodes a store of zit/container/list.h links, and in which order.
use zinfo_tech.Base.{ℕ, ◌≡◌, ◌≢◌, refl, ap, some, List, [], ◌∷◌, ◌++◌}
use zinfo_tech.Base.Family.{set_at, set_at-here, set_at-other}
use zinfo_tech.Dlist.{Ptr, Node, Store, set_next, set_prev}

-- The first node, or what comes after none.
abbrev pub first : List ℕ → Ptr → Ptr
first [] p = p
first (x ∷ xs) p = some x

-- The last node, or what comes before none.
abbrev pub last : Ptr → List ℕ → Ptr
last p [] = p
last p (x ∷ xs) = last (some x) xs

abbrev pub links : Ptr → Ptr → Node
links p n = record { prev = p; next = n }

-- The nodes are linked in this order, after `b` and before `n`.
abbrev pub Chain : Store → Ptr → List ℕ → Ptr → Type 0
Chain st b [] n = Unit
Chain st b (x ∷ xs) n = (st x ≡ links b (first xs n)) × Chain st (some x) xs n

-- Not one of the nodes.
abbrev pub Fresh : ℕ → List ℕ → Type 0
Fresh x [] = Unit
Fresh x (y ∷ ys) = (x ≢ y) × Fresh x ys

abbrev pub Distinct : List ℕ → Type 0
Distinct [] = Unit
Distinct (x ∷ xs) = Fresh x xs × Distinct xs

pub Fresh-snoc : (a x : ℕ) (xs : List ℕ) → Fresh a xs → a ≢ x → Fresh a (xs ++ (x ∷ []))
Fresh-snoc a x [] f d = (d, tt)
Fresh-snoc a x (y ∷ ys) f d = (f.0, Fresh-snoc a x ys f.1 d)

pub Fresh-front : (a x : ℕ) (xs : List ℕ) → Fresh a (xs ++ (x ∷ [])) → Fresh a xs × (a ≢ x)
Fresh-front a x [] f = (tt, f.0)
Fresh-front a x (y ∷ ys) f = let r = Fresh-front a x ys f.1 in ((f.0, r.0), r.1)

pub Distinct-snoc : (x : ℕ) (xs : List ℕ) → Distinct xs → Fresh x xs → Distinct (xs ++ (x ∷ []))
Distinct-snoc x [] d f = (tt, tt)
Distinct-snoc x (y ∷ ys) d f = (Fresh-snoc y x ys d.0 (λ e. f.0 (cc)), Distinct-snoc x ys d.1 f.1)

pub Distinct-front : (x : ℕ) (xs : List ℕ) → Distinct (xs ++ (x ∷ [])) → Distinct xs × Fresh x xs
Distinct-front x [] d = (tt, tt)
Distinct-front x (y ∷ ys) d =
    let f = Fresh-front y x ys d.0 in
    let r = Distinct-front x ys d.1 in ((f.0, r.0), ((λ e. f.1 (cc)), r.1))

-- A write to another node.
pub Chain-set_at :
    (a : ℕ) (v : Node) (st : Store) (b n : Ptr) (xs : List ℕ)
    → Fresh a xs
    → Chain st b xs n
    → Chain (set_at st a v) b xs n
Chain-set_at a v st b n [] f c = tt
Chain-set_at a v st b n (x ∷ xs) f c =
    (rw (set_at-other st a v x f.0) c.0, Chain-set_at a v st (some x) n xs f.1 c.1)

pub Chain-snoc :
    (st : Store) (b n : Ptr) (x : ℕ) (xs : List ℕ)
    → Chain st b xs (some x)
    → st x ≡ links (last b xs) n
    → Chain st b (xs ++ (x ∷ [])) n
Chain-snoc st b n x [] c e = (e, tt)
Chain-snoc st b n x (y ∷ []) c e = (c.0, (e, tt))
Chain-snoc st b n x (y ∷ z ∷ zs) c e = (c.0, Chain-snoc st (some y) n x (z ∷ zs) c.1 e)

pub Chain-front :
    (st : Store) (b n : Ptr) (x : ℕ) (xs : List ℕ)
    → Chain st b (xs ++ (x ∷ [])) n
    → Chain st b xs (some x) × (st x ≡ links (last b xs) n)
Chain-front st b n x [] c = (tt, c.0)
Chain-front st b n x (y ∷ []) c = ((c.0, tt), c.1.0)
Chain-front st b n x (y ∷ z ∷ zs) c =
    let r = Chain-front st (some y) n x (z ∷ zs) c.1 in ((c.0, r.0), r.1)

pub last-snoc : (p : Ptr) (x : ℕ) (xs : List ℕ) → last p (xs ++ (x ∷ [])) ≡ some x
last-snoc p x [] = refl
last-snoc p x (y ∷ ys) = last-snoc (some y) x ys

pub first-snoc : (x : ℕ) (xs : List ℕ) (p : Ptr) → first (xs ++ (x ∷ [])) p ≡ first xs (some x)
first-snoc x [] p = refl
first-snoc x (y ∷ ys) p = refl

-- `nod->prev = p` on the first node.
pub Chain-set_prev :
    (st : Store) (b p n : Ptr) (x : ℕ) (xs : List ℕ)
    → Fresh x xs
    → Chain st b (x ∷ xs) n
    → Chain (set_prev x p st) p (x ∷ xs) n
Chain-set_prev st b p n x xs f c = (
  rw (set_at-here st x (links p (st x).next) x refl) (ap (λ (v : Node). links p v.next) c.0),
  Chain-set_at x _ st (some x) n xs f c.1,
)

-- `nod->next = p` on the last node.
pub Chain-set_next :
    (st : Store) (b n p : Ptr) (x : ℕ) (xs : List ℕ)
    → Fresh x xs
    → Chain st b (xs ++ (x ∷ [])) n
    → Chain (set_next x p st) b (xs ++ (x ∷ [])) p
Chain-set_next st b n p x xs f c =
    let (front, e) = Chain-front st b n x xs c in
    Chain-snoc _ b p x xs (Chain-set_at x _ st b (some x) xs f front)
      (rw (set_at-here st x (links (st x).prev p) x refl) (ap (λ (v : Node). links v.prev p) e))
