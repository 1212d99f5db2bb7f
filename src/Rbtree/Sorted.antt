-- ===== src/Rbtree/Sorted.antt =====
-- Insertion and search by key: the tree against a sorted list.
use zinfo_tech.Base.{
  ◌≡◌, refl, Bool, List, [], ◌∷◌, ◌++◌, arith, ◌≢◌, ◌⊎◌, inl, inr, if◌then◌else◌, Err, ok, fail,
}
use zinfo_tech.Rbtree.{red, Sign, equal, great, little, Entry}

pub Sign-cases : (s : Sign) → (s ≡ little) ⊎ ((s ≡ equal) ⊎ (s ≡ great))
Sign-cases little = inl refl
Sign-cases equal = inr (inl refl)
Sign-cases great = inr (inr refl)

module _ {V : Type 0} (cmp : V → V → Sign) where
  -- The entries from here on stand above `v`.
  abbrev pub AllGreat : V → List (Entry V) → Type 0
  AllGreat v [] = Unit {0}
  AllGreat v (e ∷ es) = (cmp e.item v ≡ great) × AllGreat v es

  CutFrom : V → Sign → Type 0 → List (Entry V) → Type 0
  CutFrom v little later es = later
  CutFrom v _ later es = AllGreat v es

  -- The entries below `v` come first, then one equal to it at most, then those above it.
  unfoldable pub Cut : V → List (Entry V) → Type 0
  unfolding CutFrom
  Cut v [] = Unit {0}
  Cut v (e ∷ es) = CutFrom v (cmp e.item v) (Cut v es) es

  abbrev pub single : V → Entry V
  single v = record { item = v; next = [] }

  -- Insertion into a list of entries in order: a new entry before the first that is above `v`.
  unfoldable pub insert_sorted : Bool → V → List (Entry V) → Err × List (Entry V)
  insert_sorted multiple v [] = (ok, single v ∷ [])
  insert_sorted multiple v (e ∷ es) = elim (cmp e.item v) [
    | equal ↦ if multiple then (ok, record e { next = (red, v) ∷ e.next } ∷ es) else (fail, e ∷ es)
    | great ↦ (ok, single v ∷ e ∷ es)
    | little ↦ let (r, es') = insert_sorted multiple v es in (r, e ∷ es')
  ]

  AllGreat-mid :
      (v : V) (xs : List (Entry V)) (e : Entry V) (ys : List (Entry V))
      → AllGreat v (xs ++ (e ∷ ys))
      → cmp e.item v ≡ great
  AllGreat-mid v [] e ys h = h.0
  AllGreat-mid v (x ∷ xs) e ys h = AllGreat-mid v xs e ys h.1

  AllGreat-left :
      (v : V) (xs : List (Entry V)) (ys : List (Entry V)) → AllGreat v (xs ++ ys) → AllGreat v xs
  AllGreat-left v [] ys h = tt
  AllGreat-left v (x ∷ xs) ys h = (h.0, AllGreat-left v xs ys h.1)

  module _ (v : V) (x : Entry V) (xs : List (Entry V)) where
    Cut-little : cmp x.item v ≡ little → Cut v (x ∷ xs) → Cut v xs
    unfolding Cut
    Cut-little h cut = rw h at cut

    Cut-equal : cmp x.item v ≡ equal → Cut v (x ∷ xs) → AllGreat v xs
    unfolding Cut
    Cut-equal h cut = rw h at cut

    Cut-great : cmp x.item v ≡ great → Cut v (x ∷ xs) → AllGreat v xs
    unfolding Cut
    Cut-great h cut = rw h at cut

  -- An entry that is not above `v` has only entries below `v` in front of it.
  pub Cut-cons :
      (v : V) (x : Entry V) (xs : List (Entry V)) (e : Entry V) (ys : List (Entry V))
      → cmp e.item v ≢ great
      → Cut v (x ∷ xs ++ (e ∷ ys))
      → (cmp x.item v ≡ little) × Cut v (xs ++ (e ∷ ys))
  Cut-cons v x xs e ys h cut = elim (Sign-cases (cmp x.item v)) [
    | inl q ↦ (q, Cut-little v x (xs ++ (e ∷ ys)) q cut)
    | inr (inl q) ↦ absurd (h (AllGreat-mid v xs e ys (Cut-equal v x (xs ++ (e ∷ ys)) q cut)))
    | inr (inr q) ↦ absurd (h (AllGreat-mid v xs e ys (Cut-great v x (xs ++ (e ∷ ys)) q cut)))
  ]

  pub Cut-right :
      (v : V) (xs : List (Entry V)) (e : Entry V) (ys : List (Entry V))
      → cmp e.item v ≡ little
      → Cut v (xs ++ (e ∷ ys))
      → Cut v ys
  Cut-right v [] e ys h cut = Cut-little v e ys h cut
  Cut-right v (x ∷ xs) e ys h cut = Cut-right v xs e ys h (Cut-cons v x xs e ys (λ q. cc) cut).1

  pub Cut-left : (v : V) (xs : List (Entry V)) (ys : List (Entry V)) → Cut v (xs ++ ys) → Cut v xs
  unfolding Cut
  Cut-left v [] ys cut = tt
  Cut-left v (x ∷ xs) ys cut = elim (Sign-cases (cmp x.item v)) [
    | inl q ↦ rw q (Cut-left v xs ys (Cut-little v x (xs ++ ys) q cut))
    | inr (inl q) ↦ rw q (AllGreat-left v xs ys (Cut-equal v x (xs ++ ys) q cut))
    | inr (inr q) ↦ rw q (AllGreat-left v xs ys (Cut-great v x (xs ++ ys) q cut))
  ]

  module _ (multiple : Bool) (v : V) where
    -- Before an entry above `v` the insertion concerns the entries in front of it only.
    pub insert_sorted-great :
        (xs : List (Entry V)) (e : Entry V) (ys : List (Entry V))
        → cmp e.item v ≡ great
        → insert_sorted multiple v (xs ++ (e ∷ ys))
          ≡ ((insert_sorted multiple v xs).0, (insert_sorted multiple v xs).1 ++ (e ∷ ys))
    unfolding insert_sorted
    insert_sorted-great [] e ys h = rw h
    insert_sorted-great (x ∷ xs) e ys h = ground (arith, insert_sorted-great xs e ys h)

    -- Behind an entry below `v` it concerns the rest only.
    pub insert_sorted-little :
        (xs : List (Entry V)) (e : Entry V) (ys : List (Entry V))
        → cmp e.item v ≡ little
        → Cut v (xs ++ (e ∷ ys))
        → insert_sorted multiple v (xs ++ (e ∷ ys))
          ≡ ((insert_sorted multiple v ys).0, xs ++ (e ∷ (insert_sorted multiple v ys).1))
    unfolding insert_sorted
    insert_sorted-little [] e ys h cut = rw h
    insert_sorted-little (x ∷ xs) e ys h cut =
        let (q, rest) = Cut-cons v x xs e ys (λ q. cc) cut in
        rw (q, insert_sorted-little xs e ys h rest)

    -- At an equal entry it changes that one.
    pub insert_sorted-equal :
        (xs : List (Entry V)) (e : Entry V) (ys : List (Entry V))
        → cmp e.item v ≡ equal
        → Cut v (xs ++ (e ∷ ys))
        → insert_sorted multiple v (xs ++ (e ∷ ys)) ≡ (
            if multiple
            then (ok, xs ++ (record e { next = (red, v) ∷ e.next } ∷ ys))
            else (fail, xs ++ (e ∷ ys)))
    unfolding insert_sorted
    insert_sorted-equal [] e ys h cut = rw h
    insert_sorted-equal (x ∷ xs) e ys h cut =
        let (q, rest) = Cut-cons v x xs e ys (λ q. cc) cut in
        rw (q, insert_sorted-equal xs e ys h rest) (ground arith)
