-- ===== src/Objects/Content.antt =====
-- What `zalloc_pop` and `zalloc_push` do to what lies in the blocks.
use zinfo_tech.Base.{
  ℕ, ◌≡◌, refl, ap, false, Option, none, some, List, [], ◌∷◌, Err, ok, ◌==◌, by_test, ltb, arith,
  ◌>>=◌, mem_insufficient, mem_outofbounds, param_invalid, not_exist, fail,
}
use zinfo_tech.Queue.Threads.{take_front}
use zinfo_tech.Queue.Locked.{Shared, lock_push}
use zinfo_tech.Alloc.{
  Alloc, Block, same, carve_at, grown, link, over_limit, from_memory, popped, pop, push, cleared,
  null_block,
}
use zinfo_tech.Alloc.Pop.{IsNew}
use zinfo_tech.Alloc.Valid.{within}
use zinfo_tech.Alloc.Carve.{same_refl}

module _ {A : Type 0} (zeros : A) (mem : Option ℕ) where
  -- What lies in the blocks of chunks that `a` has, is there afterwards.
  abbrev pub Keeps : Alloc A → Option (Err × Option Block × Alloc A) → Type 0
  Keeps a none = Unit {0}
  Keeps a (some (e, b, a')) = (d : Block) → within a.chunks d.chunk ≡ 1 → a'.content d ≡ a.content d

  carve-Keeps :
      (a a' : Alloc A) (cs : List ℕ)
      → ((d : Block) → within a.chunks d.chunk ≡ 1 → a'.content d ≡ a.content d)
      → Keeps a (carve_at cs a')
  carve-Keeps a a' [] h = tt
  carve-Keeps a a' (c ∷ cs) h =
      by_test (Keeps a) (ltb a'.end_pos a'.value_size) _ _ (λ _. tt) (λ _. h)

  link-Keeps : (m : Option ℕ) (a : Alloc A) → IsNew a.chunks m → Keeps a (link zeros m a)
  link-Keeps none a new = λ d h. refl
  link-Keeps (some c) a new = carve-Keeps a (grown zeros c a) (c ∷ a.chunks) (λ d h.
      by_test (λ x. x ≡ a.content d) (d.chunk == c) _ _
        (λ t.
          let e : d.chunk ≡ c = ground arith in
          absurd (omega (arith, ap (λ k. within a.chunks k) e)))
        (λ _. refl))

  from_memory-Keeps : (a : Alloc A) → IsNew a.chunks mem → Keeps a (from_memory zeros mem a)
  unfolding from_memory
  from_memory-Keeps a new =
      by_test (Keeps a) a.spin_mo _ _ (λ _. tt)
        (λ _.
          by_test (Keeps a) (a.end_pos == 0) _ _
            (λ _. by_test (Keeps a) (over_limit a) _ _ (λ _ d h. refl) (λ _. link-Keeps mem a new))
            (λ _. carve-Keeps a a a.chunks (λ d h. refl)))

  popped-Keeps :
      (e : Err) (b : Option Block) (a : Alloc A)
      → IsNew a.chunks mem
      → Keeps a (popped zeros mem e b a)
  unfolding popped
  popped-Keeps ok b a new = λ d h. refl
  popped-Keeps mem_insufficient b a new = from_memory-Keeps a new
  popped-Keeps param_invalid b a new = from_memory-Keeps a new
  popped-Keeps not_exist b a new = from_memory-Keeps a new
  popped-Keeps mem_outofbounds b a new = from_memory-Keeps a new
  popped-Keeps fail b a new = from_memory-Keeps a new

  pub pop-Keeps : (a : Alloc A) → IsNew a.chunks mem → Keeps a (pop zeros mem a)
  unfolding pop
  pop-Keeps a new = after (take_front (record { held = a.spin_ro; que = a.rec_que }))
    where
      after :
          (o : Option (Err × Option Block × Shared Block))
          → Keeps a (
              o >>= λ r.
              popped zeros mem r.0 r.1 (record a { rec_que = r.2.que; spin_ro = r.2.held }))
      after none = tt
      after (some (e, b, q)) = popped-Keeps e b (record a { rec_que = q.que; spin_ro = q.held }) new

module _ {A : Type 0} (zeros : A) where
  -- A block that is given back is zeroed, and nothing else changes in the blocks.
  abbrev pub Clears : Block → Alloc A → Option (Err × Alloc A) → Type 0
  Clears b a none = Unit {0}
  Clears b a (some (e, a')) =
      ((d : Block) → same b d ≡ false → a'.content d ≡ a.content d) × (a'.content b ≡ zeros)

  pub push-Clears : (mem : Option ℕ) (b : Block) (a : Alloc A) → Clears b a (push zeros mem b a)
  unfolding push
  push-Clears mem b a =
      after (lock_push null_block mem (record { held = a.spin_ri; que = a.rec_que }) b)
    where
      after :
          (o : Option (Err × Shared Block))
          → Clears b a (
              o >>= λ r.
              some (r.0, record (cleared zeros b a) { rec_que = r.1.que; spin_ri = r.1.held }))
      after none = tt
      after (some (e, q)) = (λ d t. rw t refl, rw (same_refl b) refl)
