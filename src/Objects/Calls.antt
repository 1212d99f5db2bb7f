-- ===== src/Objects/Calls.antt =====
-- One call of a user on an object pool, as uses of the allocator.
use zinfo_tech.Base.{
  ok, ◌∙◌, ℕ, suc, ◌+◌, ◌-◌, ◌*◌, ◌^◌, ◌≤◌, ◌<◌, ◌≡◌, refl, sym, ap, false, Option, none, some, [],
  arith, ◌==◌, Err, Bool-cases, inl, inr, inc32, dec32, ◌>>=◌, by_test,
}
use mathlib.Core.Path.{subst}
use zinfo_tech.Alloc.{Alloc, Block, same, pop, push}
use zinfo_tech.Alloc.Valid.{IsAlloc}
use zinfo_tech.Alloc.Carve.{same_eq}
use zinfo_tech.Alloc.Pop.{IsNew}
use zinfo_tech.Alloc.Uses.{Uses, next, writes}
use zinfo_tech.Objects.{
  Mode, unset, by_ref, by_copy, Object, zeros, set, made, dress, pool_pop, copy_of, ref_release,
  clone_by, release_by, clone, release, Users, add, remove, Use, makes, clones, releases,
}
use zinfo_tech.Objects
use zinfo_tech.Objects.Lives.{
  CountsAs, IsCounted, Lives, pool, has, kept, no_block, new_block, changed, given_back,
}

made-IsCounted :
    {B : Type 0} (empty : B) (m : Mode) (size : ℕ) (o : Object B)
    → IsCounted (made empty m size o) 1
made-IsCounted empty unset size o = (refl, omega arith)
made-IsCounted empty by_ref size o = (refl, omega arith)
made-IsCounted empty by_copy size o = refl

counted_up :
    (m : Mode) (ref h : ℕ)
    → m ≡ by_ref
    → h + 1 < 2 ^ 32
    → CountsAs m ref h
    → CountsAs m (inc32 ref) (h + 1)
counted_up unset ref h e lt c = c
counted_up by_ref ref h e lt c = (ground (arith, c.0), lt)
counted_up by_copy ref h e lt c = absurd (ground arith)

counted_down :
    (m : Mode) (ref h : ℕ)
    → m ≡ by_ref
    → 0 < h
    → CountsAs m ref h
    → CountsAs m (dec32 ref) (h - 1) × (dec32 ref ≡ h - 1)
counted_down unset ref h e lt c = absurd c
counted_down by_ref ref h e lt c = ((ground (arith, c), ground (arith, c)), ground (arith, c))
counted_down by_copy ref h e lt c = absurd (ground arith)

pub has_functions : (m : Mode) (ref h : ℕ) → m ≡ unset → CountsAs m ref h → ⊥
has_functions unset ref h e c = c
has_functions by_ref ref h e c = ground arith
has_functions by_copy ref h e c = ground arith

copied_once : (m : Mode) (ref h : ℕ) → m ≡ by_copy → CountsAs m ref h → CountsAs m ref 1 × (h ≡ 1)
copied_once unset ref h e c = absurd c
copied_once by_ref ref h e c = absurd (ground arith)
copied_once by_copy ref h e c = (refl, c)

module _ {B : Type 0} (empty : B) (start : Alloc (Object B)) (v : IsAlloc (zeros empty) start [] [])
    {k : ℕ} {u : Users B} (l : Lives empty start k u) (small : 2 * k + 3 < 2 ^ 31) where
  abbrev Made : Option (Err × Option Block × Alloc (Object B)) → Type 0
  Made none = Unit {0}
  Made (some (e, b, a)) = Lives empty start (suc k) (record { alloc = a; holds = add b u.holds })

  abbrev Released : Block → Option (Err × Alloc (Object B)) → Type 0
  Released b none = Unit {0}
  Released b (some (e, a)) =
      e ≡ ok → Lives empty start (suc k) (record { alloc = a; holds = remove b u.holds })

  module _ (mem : Option ℕ) (new : IsNew u.alloc.chunks mem) where
    dress-Made :
        (m : Mode) (size : ℕ) (o : Option (Err × Option Block × Alloc (Object B)))
        → pop (zeros empty) mem u.alloc ≡ o
        → Made (o >>= dress empty m size)
    dress-Made m size none is = tt
    dress-Made m size (some (e, none, a)) is = no_block empty start v l small mem new e a is
    dress-Made m size (some (e, some c, a)) is =
        new_block empty start v l small mem new e c a (made empty m size (a.content c)) is
          (made-IsCounted empty m size (a.content c))

    copy_of-Made :
        (b : Block) (o : Option (Err × Option Block × Alloc (Object B)))
        → 0 < u.holds b
        → (u.alloc.content b).mode ≡ by_copy
        → pop (zeros empty) mem u.alloc ≡ o
        → Made (o >>= copy_of empty b)
    copy_of-Made b none h em is = tt
    copy_of-Made b (some (e, none, a)) h em is = no_block empty start v l small mem new e a is
    copy_of-Made b (some (e, some c, a)) h em is =
        let (one, single) =
          copied_once (u.alloc.content b).mode (u.alloc.content b).ref (u.holds b) em
            (l.counted b h) in
        new_block empty start v l small mem new e c a (a.content b) is (
          subst (λ o. IsCounted o 1) (sym (kept empty start v l small mem new e (some c) a is b h))
            one)

    clone_by-Made :
        (m : Mode) (b : Block)
        → 0 < u.holds b
        → u.holds b + 1 < 2 ^ 32
        → (u.alloc.content b).mode ≡ m
        → Made (clone_by empty m mem b u.alloc)
    clone_by-Made unset b h lt em = tt
    clone_by-Made by_ref b h lt em =
        changed empty start v l small b _ (u.holds b + 1) (add (some b) u.holds) h (omega arith)
          (λ d. elim (Bool-cases (same b d)) [
            | inl t ↦ rw (same_eq b d t) refl
            | inr t ↦ rw t refl
          ])
          (counted_up (u.alloc.content b).mode (u.alloc.content b).ref (u.holds b) em lt
            (l.counted b h))
    clone_by-Made by_copy b h lt em = copy_of-Made b (pop (zeros empty) mem u.alloc) h em refl

  module _ (b : Block) (mem : Option ℕ) (h : 0 < u.holds b) where
    push-Released :
        (a1 : Alloc (Object B)) (n1 : ℕ) (o : Option (Err × Alloc (Object B)))
        → u.holds b ≡ 1
        → Uses (zeros empty) (pool empty start start []) n1 (pool empty start a1 l.given)
        → n1 ≤ 2 * k + 1
        → ((d : Block) → same b d ≡ false → a1.content d ≡ u.alloc.content d)
        → push (zeros empty) mem b a1 ≡ o
        → Released b o
    push-Released a1 n1 none one uses1 few1 others is = tt
    push-Released a1 n1 (some (e, a)) one uses1 few1 others is = λ q.
        given_back empty start v l small b a1 n1 mem a one uses1 few1 others
          (is ∙ ap (λ x. some (x, a)) q)

    release_by-Released :
        (m : Mode) → (u.alloc.content b).mode ≡ m → Released b (release_by empty m mem b u.alloc)
    release_by-Released unset em = tt
    release_by-Released by_copy em =
        let (c, single) =
          copied_once (u.alloc.content b).mode (u.alloc.content b).ref (u.holds b) em
            (l.counted b h) in
        push-Released u.alloc l.n _ single l.uses (omega (arith, l.few)) (λ d t. refl) refl
    release_by-Released by_ref em =
        let x = record (u.alloc.content b) { ref = dec32 (u.alloc.content b).ref } in
        let (c, less) =
          counted_down (u.alloc.content b).mode (u.alloc.content b).ref (u.holds b) em h
            (l.counted b h) in
        by_test (Released b) (dec32 (u.alloc.content b).ref == 0) _ _
          (λ t.
            push-Released (set b x u.alloc) (suc l.n) _ (ground (arith, less))
              (next l.uses (writes b x (has empty start v l small b h))) (omega (arith, l.few))
              (λ d t'. rw t' refl) refl)
          (λ t q.
            changed empty start v l small b x (u.holds b - 1) (remove b u.holds) h
              (ground (arith, less))
              (λ d. elim (Bool-cases (same b d)) [
                | inl t' ↦ rw (same_eq b d t') refl
                | inr t' ↦ rw t' refl
              ])
              c)

  pub Use-Lives : {w : Users B} → Use empty u w → Lives empty start (suc k) w
  unfolding pool_pop clone release
  Use-Lives (makes m size mem new is) = subst Made is (dress-Made mem new m size _ refl)
  Use-Lives (clones b mem new h lt is) = subst Made is (clone_by-Made mem new _ b h lt refl)
  Use-Lives (Objects.writes b x h) =
      changed empty start v l small b (record (u.alloc.content b) { body = x }) (u.holds b) u.holds
        h h
        (λ d. elim (Bool-cases (same b d)) [
          | inl t ↦ rw t (ap (λ c. u.holds c) (sym (same_eq b d t)))
          | inr t ↦ rw t refl
        ])
        (l.counted b h)
  Use-Lives (releases b mem h is) = subst (Released b) is (release_by-Released b mem h _ refl) refl
