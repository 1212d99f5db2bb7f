-- ===== src/Files/Paths.antt =====
-- The path of a walk over directories, kept in one buffer.
use zinfo_tech.Base.{
  if◌then◌else◌, ◌+◌, ◌-◌, ◌≤◌, ◌<◌, ◌≡◌, refl, sym, ap, ◌∙◌, true, Option, none, some, [], ◌∷◌,
  ◌++◌, append-nil, append_assoc, ◌==◌, by_test, Bool-cases, inl, inr, ltb, ◌>>=◌, arith,
}
use mathlib.Core.Path.{subst}
use zinfo_tech.Base.Lists.{length, length-append, take, take-append}
use zinfo_tech.Files.{
  Text, Flag, ftw_d, ftw_dnr, Tree, missing, file, unreadable, dir, ends_slash, slashed, store,
  Answer, Walked, call, open_path, close_path, enter,
}
use zinfo_tech.Files.Visits.{preorder, Fits, visits, visits-one}

module _ {S : Type 0} where
  -- What the walk returns is `a`, and its path still begins with `b`.
  pub record Agrees (a : Answer S) (b : Text) (w : Walked S) : Type 0 where
    pub same_ret : w.ret ≡ a.ret
    pub same_state : w.state ≡ a.state
    pub tail : Text
    pub starts : w.path ≡ b ++ tail

  abbrev pub Ends : Answer S → Text → Option (Walked S) → Type 0
  Ends a b none = ⊥
  Ends a b (some w) = Agrees a b w

  pub Ends-returned :
      (a : Answer S) (b : Text) (o : Option (Walked S))
      → Ends a b o
      → (w : Walked S) × (o ≡ some w) × (w.ret ≡ a.ret) × (w.state ≡ a.state)
  Ends-returned a b none h = absurd h
  Ends-returned a b (some w) h = (w, refl, h.same_ret, h.same_state)

  pub Ends-bind :
      (a a' : Answer S) (b b' : Text) (f : Walked S → Option (Walked S)) (o : Option (Walked S))
      → Ends a b o
      → ((w : Walked S) → Agrees a b w → Ends a' b' (f w))
      → Ends a' b' (o >>= f)
  Ends-bind a a' b b' f none h k = h
  Ends-bind a a' b b' f (some w) h k = k w h

pub store_lem : (p : Text) → length p < 512 → store p ≡ some p
store_lem p h = let t : ltb (length p) 512 ≡ true = ground arith in rw t refl

length-slashed : (p : Text) → length (slashed p) ≤ length p + 1
length-slashed p =
    by_test (λ t. length t ≤ length p + 1) (ends_slash p) p (p ++ (47 ∷ [])) (λ t. omega arith)
      (λ t. omega (arith, length-append p (47 ∷ [])))

pub slashed-starts :
    (b x : Text) → (tail : Text) × (slashed (b ++ x) ≡ b ++ tail) × (length x ≤ length tail)
slashed-starts b x = elim (Bool-cases (ends_slash (b ++ x))) [
  | inl e ↦ (x, rw e refl, omega arith)
  | inr e ↦
      (x ++ (47 ∷ []), rw e (append_assoc b x (47 ∷ [])), omega (arith, length-append x (47 ∷ [])))
]

pub prefix_kept : (base path tail : Text) → path ≡ base ++ tail → take (length base) path ≡ base
prefix_kept base path tail e =
    let z : length base - length base ≡ 0 = omega arith in
    ap (λ t. take (length base) t) e
    ∙ take-append (length base) base tail (omega arith)
    ∙ ap (λ k. base ++ take k tail) z
    ∙ append-nil base

pub Fits-length : (t : Tree) (p : Text) → Fits t p → length p < 512
Fits-length missing p h = h
Fits-length file p h = h
Fits-length unreadable p h = omega arith
Fits-length (dir es) p h = omega (arith, h.0)

pub open_path_lem : (p : Text) → 0 < length p → length p + 1 < 512 → open_path p ≡ some (slashed p)
open_path_lem [] h h' = absurd (omega arith)
open_path_lem (c ∷ cs) h h' = store_lem (slashed (c ∷ cs)) (omega (arith, length-slashed (c ∷ cs)))

module _ {S : Type 0} (func : Text → Flag → S → Answer S) where
  pub called :
      (b x : Text) (flag : Flag) (s : S)
      → Agrees (visits func (((b ++ x), flag) ∷ []) s) b (call func (b ++ x) flag s)
  called b x flag s =
      rw (visits-one func (b ++ x) flag s)
        (record { same_ret = refl; same_state = refl; tail = x; starts = refl })

  module _ (b x : Text) (s : S) (ne : 0 < length x) (fit : length (b ++ x) + 1 < 512) where
    abbrev pub entered : S
    entered = (func (b ++ x) ftw_d s).state

    pub enter-Ends :
        (rest : Answer S) (go : Text → S → Option (Walked S))
        → Ends rest b (go (slashed (b ++ x)) entered)
        → Ends
            (if (func (b ++ x) ftw_d s).ret == 0 then rest else func (b ++ x) ftw_d s)
            b
            (enter (b ++ x) go (call func (b ++ x) ftw_d s))
    enter-Ends rest go h = elim (Bool-cases ((func (b ++ x) ftw_d s).ret == 0)) [
      | inl e ↦ rw (e, open_path_lem (b ++ x) (omega (arith, length-append b x)) fit) h
      | inr e ↦ rw e (record { same_ret = refl; same_state = refl; tail = x; starts = refl })
    ]

    pub closed :
        (a : Answer S) (w : Walked S)
        → Agrees a (slashed (b ++ x)) w
        → Agrees a b (close_path (length (slashed (b ++ x))) w)
    closed a w h =
        let (r, e, le) = slashed-starts b x in
        record {
          same_ret = h.same_ret;
          same_state = h.same_state;
          tail = take (length (slashed (b ++ x)) - 1 - length b) (r ++ h.tail);
          starts =
              ap (λ t. take (length (slashed (b ++ x)) - 1) t)
                (h.starts ∙ ap (λ t. t ++ h.tail) e ∙ append_assoc b r h.tail)
              ∙ take-append (length (slashed (b ++ x)) - 1) b (r ++ h.tail)
                  (omega (arith, ap (λ (t : Text). length t) e, length-append b r));
        }

  pub unreadable-Ends :
      (b x : Text) (s : S)
      → 0 < length x
      → length (b ++ x) + 1 < 512
      → Ends
          (visits func (preorder unreadable (b ++ x)) s)
          b
          (enter (b ++ x) (λ base t. some (call func base ftw_dnr t)) (call func (b ++ x) ftw_d s))
  unreadable-Ends b x s ne fit =
      enter-Ends b x s ne fit
        (visits func ((slashed (b ++ x), ftw_dnr) ∷ []) (entered b x s ne fit))
        (λ base t. some (call func base ftw_dnr t))
        (let (r, e, le) = slashed-starts b x in
          subst
            (λ p.
              Agrees (visits func ((p, ftw_dnr) ∷ []) (entered b x s ne fit)) b
                (call func p ftw_dnr (entered b x s ne fit)))
            (sym e) (called b r ftw_dnr (entered b x s ne fit)))
