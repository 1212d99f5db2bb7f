-- ===== src/Objects/Runs.antt =====
-- Sequences of calls on an object pool.
use zinfo_tech.Base.{
  ℕ, suc, ◌+◌, ◌*◌, ◌^◌, ◌≤◌, ◌<◌, ◌≡◌, refl, Option, some, List, [], arith, ◌==◌, Err, ok, dec32,
  by_test,
}
use zinfo_tech.Alloc.{Alloc, Block, push}
use zinfo_tech.Alloc.Valid.{IsAlloc, count}
use zinfo_tech.Alloc.Push.{push-IsAlloc}
use zinfo_tech.Alloc.Uses.{Uses-InOrder, Uses, unused, next, writes}
use zinfo_tech.Objects.{
  Mode, unset, by_ref, by_copy, Object, zeros, set, release_by, release, Users, Use,
}
use zinfo_tech.Objects.Lives.{Lives, pool, has}
use zinfo_tech.Objects.Calls.{has_functions, Use-Lives}

module _ {B : Type 0} (empty : B) (start : Alloc (Object B)) where
  -- `k` calls from an allocator of which nobody has a block.
  pub data Runs : ℕ → Users B → Type 0 where
    begin : Runs 0 (record { alloc = start; holds = λ _. 0 })
    step : {k : ℕ} {u w : Users B} → Runs k u → Use empty u w → Runs (suc k) w

  begin-Lives : Lives empty start 0 (record { alloc = start; holds = λ _. 0 })
  begin-Lives = record {
    given = [];
    n = 0;
    uses = unused;
    few = omega arith;
    held = λ b. refl;
    counted = λ b h. absurd (omega arith);
  }

  module _ (v : IsAlloc (zeros empty) start [] []) where
    -- Whatever users do with objects to which they have references, in fewer than 2^30 calls of which
    -- each release answers ZEOK, as it does with memory for the queue of recycled blocks, the pool uses the allocator as one of its users is to: it takes blocks, writes into those that it has and
    -- gives each back at most once for each time that it got it. It has exactly the blocks of the objects
    -- to which there are references, so that none is used again before its last reference was released
    -- and none is kept after that; and each object that is cloned by reference counts its references.
    pub Runs-Lives : {k : ℕ} {u : Users B} → Runs k u → 2 * k + 3 < 2 ^ 31 → Lives empty start k u
    Runs-Lives begin small = begin-Lives
    Runs-Lives (step {k = k} r c) small =
        Use-Lives empty start v (Runs-Lives r (omega arith)) (omega arith) c

    abbrev Ends : Option (Err × Alloc (Object B)) → Type 0
    Ends o = (a : Alloc (Object B)) × (o ≡ some (ok, a))

    module _ {k : ℕ} {u : Users B} (r : Runs k u) (small : 2 * k + 3 < 2 ^ 31) (b : Block) (j : ℕ)
        (h : 0 < u.holds b) where
      push-Ends :
          (a1 : Alloc (Object B)) (given : List Block) (n1 : ℕ)
          → Uses (zeros empty) (pool empty start start []) n1 (pool empty start a1 given)
          → n1 ≤ 2 * k + 1
          → 0 < count b given
          → Ends (push (zeros empty) (some j) b a1)
      push-Ends a1 given n1 uses few hb =
          let (xs, le, w) = Uses-InOrder (zeros empty) uses refl (omega arith) v in
          let (a', is, w') = push-IsAlloc (zeros empty) j b a1 given xs w hb (omega arith) in
          (a', is)

      release_by-Ends :
          (l : Lives empty start k u) (m : Mode)
          → (u.alloc.content b).mode ≡ m
          → Ends (release_by empty m (some j) b u.alloc)
      release_by-Ends l unset em = absurd (
          has_functions (u.alloc.content b).mode (u.alloc.content b).ref (u.holds b) em
            (l.counted b h))
      release_by-Ends l by_copy em =
          push-Ends u.alloc l.given l.n l.uses (omega (arith, l.few))
            (has empty start v l small b h)
      release_by-Ends l by_ref em =
          let x = record (u.alloc.content b) { ref = dec32 (u.alloc.content b).ref } in
          by_test Ends (dec32 (u.alloc.content b).ref == 0) _ _
            (λ t.
              push-Ends (set b x u.alloc) l.given (suc l.n)
                (next l.uses (writes b x (has empty start v l small b h))) (omega (arith, l.few))
                (has empty start v l small b h))
            (λ t. (set b x u.alloc, refl))

      -- After fewer than 2^30 calls of which each release answered ZEOK, releasing a reference that a user
      -- has never fails, as long as there is memory for the queue of blocks that wait to be used again.
      pub release-Ends : Ends (release empty (some j) b u.alloc)
      unfolding release
      release-Ends = release_by-Ends (Runs-Lives r small) _ refl
