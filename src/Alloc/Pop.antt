-- ===== src/Alloc/Pop.antt =====
-- `zalloc_pop` of zit/memory/alloc.h on an allocator that is in order.
use zinfo_tech.Base.{
  ◌>>=◌, ℕ, ◌*◌, ◌<◌, ◌≡◌, refl, sym, ap, ◌∙◌, Bool, true, false, Option, none, some, List, [], ◌∷◌,
  arith, if◌then◌else◌, ◌==◌, Err, ok, mem_insufficient, mem_outofbounds, not_exist, Bool-cases,
  inl, inr, ==_iff,
}
use zinfo_tech.Queue.{Queue}
use zinfo_tech.Queue.Refine.{IsQueue}
use zinfo_tech.Queue.Front.{pop-cons, pop-nil}
use zinfo_tech.Queue.Locked.{Shared, released}
use zinfo_tech.Queue.Threads.{take_front, take_front-lock_pop, locked_calls}
use zinfo_tech.Alloc.{
  Alloc, Block, carve, over_limit, grown, link, from_memory, popped, pop, null_block,
}
use zinfo_tech.Alloc.Valid.{IsAlloc, count, within}
use zinfo_tech.Alloc.Carve.{
  same_refl, within_le, carved-within, Got, carve_total, over_limit_is, grown-IsAlloc, chunk_pos,
}

-- What `zalloc_pop` answers, and what becomes of the allocator.
module _ {A : Type 0} (zeros : A) (mem : Option ℕ) (a : Alloc A) (given : List Block) where
  abbrev pub Outcome : List Block → Err → Option Block → Alloc A → Type 0
  Outcome [] ok (some b) a' = Got zeros given [] b a'
  Outcome [] mem_outofbounds none a' =
      (a' ≡ a) × (a.end_pos ≡ 0) × (a.max_mem < a.chunk_length * a.chk_cnt)
  Outcome [] mem_insufficient none a' = (a' ≡ a) × (a.end_pos ≡ 0) × (mem ≡ none)
  Outcome (x ∷ xs) ok (some b) a' = (b ≡ x) × Got zeros given xs b a'
  Outcome _ _ _ a' = ⊥

-- The system's allocator returns NULL, or an address that is none of these.
abbrev pub IsNew : List ℕ → Option ℕ → Type 0
IsNew cs none = Unit
IsNew cs (some c) = within cs c ≡ 0

module _ {A : Type 0} (zeros : A) where
  abbrev Answered :
      Option ℕ → Alloc A → List Block → List Block → Option (Err × Option Block × Alloc A) → Type 0
  Answered mem a given xs o =
      (e : Err) × (b : Option Block) × (a' : Alloc A) × (o ≡ some (e, b, a'))
      × Outcome zeros mem a given xs e b a'

  link-Answered :
      (mem : Option ℕ) (a : Alloc A) (given : List Block)
      → IsAlloc zeros a given []
      → IsNew a.chunks mem
      → a.end_pos ≡ 0
      → over_limit a ≡ false
      → Answered mem a given [] (link zeros mem a)
  link-Answered none a given v new empty below =
      (mem_insufficient, none, a, refl, (refl, empty, refl))
  link-Answered (some c) a given v new empty below =
      let w = grown-IsAlloc zeros c a given [] v new below in
      let (b, a', is, got) =
        carve_total zeros (grown zeros c a) given [] (c ∷ a.chunks) w refl (chunk_pos zeros a v) in
      (ok, some b, a', is, got)

  abbrev at_end : Option ℕ → Alloc A → Bool → Option (Err × Option Block × Alloc A)
  at_end mem a above = if above then some (mem_outofbounds, none, a) else link zeros mem a

  memory_unlocked :
      (mem : Option ℕ) (a : Alloc A) (t : Bool)
      → a.spin_mo ≡ false
      → (a.end_pos == 0) ≡ t
      → from_memory zeros mem a ≡ (if t then at_end mem a (over_limit a) else carve a)
  unfolding from_memory
  memory_unlocked mem a t free e =
      ap
        (λ h. if h then none else (if a.end_pos == 0 then at_end mem a (over_limit a) else carve a))
        free
      ∙ ap (λ h. if h then at_end mem a (over_limit a) else carve a) e

  end-Answered :
      (mem : Option ℕ) (a : Alloc A) (given : List Block) (above : Bool)
      → IsAlloc zeros a given []
      → IsNew a.chunks mem
      → a.end_pos ≡ 0
      → over_limit a ≡ above
      → Answered mem a given [] (at_end mem a above)
  end-Answered mem a given true v new empty above =
      (mem_outofbounds, none, a, refl, (refl, empty, ground (arith, over_limit_is zeros a v)))
  end-Answered mem a given false v new empty below = link-Answered mem a given v new empty below

  memory-Answered :
      (mem : Option ℕ) (a : Alloc A) (given : List Block)
      → IsAlloc zeros a given []
      → IsNew a.chunks mem
      → Answered mem a given [] (from_memory zeros mem a)
  memory-Answered mem a given v new = elim (Bool-cases (a.end_pos == 0)) [
    | inr more ↦
        let (b, a', is, got) = carve_total zeros a given [] a.chunks v refl (ground arith) in
        (ok, some b, a', memory_unlocked mem a false v.free_mo more ∙ is, got)
    | inl empty ↦
        let (e, b, a', is, out) =
          end-Answered mem a given (over_limit a) v new ((==_iff a.end_pos 0).0 empty) refl in
        (e, b, a', memory_unlocked mem a true v.free_mo empty ∙ is, out)
  ]

take_none :
    (q : Queue Block)
    → IsQueue 512 8 q []
    → take_front (released q) ≡ some (not_exist, none, released q)
take_none q is =
    take_front-lock_pop q ∙ (locked_calls null_block none q null_block).2 ∙ rw (pop-nil is) refl

take_some :
    (q : Queue Block) (b : Block) (xs : List Block)
    → IsQueue 512 8 q (b ∷ xs)
    → (q' : Queue Block) × (take_front (released q) ≡ some (ok, some b, released q'))
      × IsQueue 512 8 q' xs
take_some q b xs is =
    let (q', popped_is, is') = pop-cons is in
    (
      q',
      take_front-lock_pop q ∙ (locked_calls null_block none q null_block).2 ∙ rw popped_is refl,
      is',
    )

module _ {A : Type 0} (zeros : A) where
  unlocked_ro : (a : Alloc A) → a.spin_ro ≡ false → record a { spin_ro = false } ≡ a
  unlocked_ro a e = ap (λ h. record a { spin_ro = h }) (sym e)

  abbrev then_popped :
      Option ℕ
      → Alloc A
      → Option (Err × Option Block × Shared Block)
      → Option (Err × Option Block × Alloc A)
  then_popped mem a o =
      o >>= λ r. popped zeros mem r.0 r.1 (record a { rec_que = r.2.que; spin_ro = r.2.held })

  pop_unlocked :
      (mem : Option ℕ) (a : Alloc A)
      → a.spin_ro ≡ false
      → pop zeros mem a ≡ then_popped mem a (take_front (released a.rec_que))
  unfolding pop
  pop_unlocked mem a e =
      ap (λ h. then_popped mem a (take_front (record { held = h; que = a.rec_que }))) e

  reused-IsAlloc :
      (a : Alloc A) (given xs : List Block) (b : Block) (q : Queue Block)
      → IsAlloc zeros a given (b ∷ xs)
      → IsQueue 512 8 q xs
      → IsAlloc zeros (record a { rec_que = q; spin_ro = false }) (b ∷ given) xs
  reused-IsAlloc a given xs b q v is = record {
    free_mo = v.free_mo;
    free_ri = v.free_ri;
    free_ro = refl;
    waiting = is;
    positive = v.positive;
    filled = v.filled;
    lengths = v.lengths;
    small = v.small;
    limited = v.limited;
    left = v.left;
    left_is = v.left_is;
    left_le = v.left_le;
    counted = v.counted;
    bounded = v.bounded;
    apart = λ c. omega (arith, v.apart c);
    slots = λ c h. v.slots c (omega arith);
    blank = λ c h none_given. v.blank c h (omega arith);
  }

  reused-Got :
      (a : Alloc A) (given xs : List Block) (b : Block) (q : Queue Block)
      → IsAlloc zeros a given (b ∷ xs)
      → IsQueue 512 8 q xs
      → Got zeros given xs b (record a { rec_que = q; spin_ro = false })
  reused-Got a given xs b q v is =
      let once = v.apart b in
      let here : 0 < count b (b ∷ xs) = rw (same_refl b) (omega arith) in
      let inside : within a.chunks b.chunk ≡ 1 =
        omega (arith, once, here, carved-within a.chunks a.end_pos b, within_le a.chunks b.chunk) in
      let nobody : count b given ≡ 0 =
        omega (arith, once, here, carved-within a.chunks a.end_pos b, within_le a.chunks b.chunk) in
      (
        nobody,
        v.blank b inside nobody,
        v.slots b (omega (arith, here)),
        reused-IsAlloc a given xs b q v is,
      )

  -- `zalloc_pop` of an allocator that is in order returns. On ZEOK the block is a slot of a chunk,
  -- zeroed, which no user has, and it comes from the recycle queue if that has one. It
  -- fails only when the recycle queue is empty and the chunk used up: with ZEMEM_OUTOFBOUNDS if the chunks
  -- take more than the limit, with ZEMEM_INSUFFICIENT if the system has no memory, and then changes nothing.
  pub pop-Answered :
      (mem : Option ℕ) (a : Alloc A) (given xs : List Block)
      → IsAlloc zeros a given xs
      → IsNew a.chunks mem
      → (e : Err) × (b : Option Block) × (a' : Alloc A) × (pop zeros mem a ≡ some (e, b, a'))
        × Outcome zeros mem a given xs e b a'
  unfolding popped
  pop-Answered mem a given [] v new =
      let (e, b, a', is, out) = memory-Answered zeros mem a given v new in
      (
        e,
        b,
        a',
        pop_unlocked mem a v.free_ro
            ∙ ap (then_popped mem a) (take_none a.rec_que v.waiting)
            ∙ ap (from_memory zeros mem) (unlocked_ro a v.free_ro)
            ∙ is,
        out,
      )
  pop-Answered mem a given (b ∷ xs) v new =
      let (q, is, is') = take_some a.rec_que b xs v.waiting in
      (
        ok,
        some b,
        record a { rec_que = q; spin_ro = false },
        pop_unlocked mem a v.free_ro ∙ ap (then_popped mem a) is,
        (refl, reused-Got a given xs b q v is'),
      )
