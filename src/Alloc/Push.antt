-- ===== src/Alloc/Push.antt =====
-- `zalloc_push` of zit/memory/alloc.h on an allocator that is in order.
use zinfo_tech.Base.{
  sym, none, ◌⊎◌, inr, mem_insufficient, Option-cases, ◌>>=◌, ℕ, ◌+◌, ◌^◌, ◌<◌, ◌≡◌, refl, ap, ◌∙◌,
  false, Option, some, List, [], ◌∷◌, ◌++◌, arith, if◌then◌else◌, Err, ok, Bool-cases, inl, inr,
}
use zinfo_tech.Base.Lists.{length}
use zinfo_tech.Queue.{Queue}
use zinfo_tech.Queue.Refine.{push-snoc}
use zinfo_tech.Queue.Deque.{grows}
use zinfo_tech.Base.Int.{pos, ◌+ℤ◌, ltb_ℤ}
use zinfo_tech.Queue.{Queue, advance_end, take_chunk, store_end}
use zinfo_tech.Queue.Locked.{lock_push}
use zinfo_tech.Queue.Locked.{Shared, released, lock_push}
use zinfo_tech.Queue.Threads.{locked_calls}
use zinfo_tech.Alloc.{Alloc, Block, same, cleared, push, null_block}
use zinfo_tech.Alloc.Valid.{IsAlloc, count, within}
use zinfo_tech.Alloc.Carve.{same_eq}

-- The block is no longer the user's.
abbrev pub without : Block → List Block → List Block
without b [] = []
without b (x ∷ xs) = if same x b then xs else x ∷ without b xs

pub count-without :
    (b c : Block) (xs : List Block)
    → 0 < count b xs
    → count c (without b xs) + (if same b c then 1 else 0) ≡ count c xs
count-without b c [] h = absurd (omega arith)
count-without b c (x ∷ xs) h = elim (Bool-cases (same x b)) [
  | inl here ↦ rw here (rw (same_eq x b here) (omega arith))
  | inr other ↦ rw other (omega (arith, count-without b c xs (ground arith)))
]

count-snoc :
    (b c : Block) (xs : List Block)
    → count c (xs ++ (b ∷ [])) ≡ count c xs + (if same b c then 1 else 0)
count-snoc b c [] = omega arith
count-snoc b c (x ∷ xs) = omega (arith, count-snoc b c xs)

module _ {A : Type 0} (zeros : A) where
  push_unlocked :
      (mem : Option ℕ) (b : Block) (a : Alloc A) (q : Queue Block)
      → a.spin_ri ≡ false
      → lock_push null_block mem (released a.rec_que) b ≡ some (ok, released q)
      → push zeros mem b a ≡ some (ok, record (cleared zeros b a) { rec_que = q; spin_ri = false })
  unfolding push
  push_unlocked mem b a q e is =
      let then_cleared : Option (Err × Shared Block) → Option (Err × Alloc A) = λ o. o >>= λ r.
      some (r.0, record (cleared zeros b a) { rec_que = r.1.que; spin_ri = r.1.held }) in
      ap (λ h. then_cleared (lock_push null_block mem (record { held = h; que = a.rec_que }) b)) e
      ∙ ap then_cleared is

  blank_cleared :
      (b : Block) (a : Alloc A) (given : List Block)
      → ((c : Block) → within a.chunks c.chunk ≡ 1 → count c given ≡ 0 → a.content c ≡ zeros)
      → 0 < count b given
      → (c : Block) → within a.chunks c.chunk ≡ 1
      → count c (without b given) ≡ 0
      → (if same b c then zeros else a.content c) ≡ zeros
  blank_cleared b a given blank has c h none_given = elim (Bool-cases (same b c)) [
    | inl here ↦ rw here refl
    | inr other ↦
        let rest = count-without b c given has in
        let weight : ◌≡◌ {A = ℕ} (if same b c then 1 else 0) 0 = rw other refl in
        rw other (blank c h (omega arith))
  ]

  advance_starved :
      (q : Queue Block)
      → (advance_end null_block none q ≡ advance_end null_block (some 0) q)
        ⊎ ((q' : Queue Block) × (advance_end null_block none q ≡ (mem_insufficient, q')))
  unfolding advance_end take_chunk
  advance_starved q =
      elim (Bool-cases (ltb_ℤ (q.end_pos +ℤ pos q.value_size) (pos q.chunk_length))) [
        | inl t ↦ inl (rw t refl)
        | inr t ↦ elim (Option-cases q.spare_chunk) [
          | inl n ↦ inr (
            record q { end_pos = q.end_pos +ℤ pos q.value_size; spare_chunk = none },
            rw (t, n) refl,
          )
          | inr (c, n) ↦ inl (rw (t, n) refl)
        ]
      ]

  push_starved :
      (b : Block) (a : Alloc A)
      → (push zeros none b a ≡ push zeros (some 0) b a)
        ⊎ ((a' : Alloc A) × (push zeros none b a ≡ some (mem_insufficient, a')))
  unfolding push lock_push
  push_starved b a = elim (Bool-cases a.spin_ri) [
    | inl t ↦ inl (rw t refl)
    | inr t ↦ elim (Option-cases (store_end a.rec_que b)) [
      | inl n ↦ inl (rw (t, n) refl)
      | inr (q, n) ↦ elim (advance_starved q) [
        | inl e ↦ inl (rw (t, n, e) refl)
        | inr (q', e) ↦
            inr (record (cleared zeros b a) { rec_que = q'; spin_ri = false }, rw (t, n, e) refl)
      ]
    ]
  ]

  -- What `zalloc_push` does without memory, if it answers ZEOK, it does with memory too.
  pub push-some :
      (mem : Option ℕ) (b : Block) (a a' : Alloc A)
      → push zeros mem b a ≡ some (ok, a')
      → (k : ℕ) × (push zeros (some k) b a ≡ some (ok, a'))
  push-some (some k) b a a' is = (k, is)
  push-some none b a a' is = elim (push_starved b a) [
    | inl e ↦ (0, sym e ∙ is)
    | inr (a'', e) ↦ let no : some (mem_insufficient, a'') ≡ some (ok, a') = sym e ∙ is in cc (no)
  ]

  -- `zalloc_push` of a block that a user has, with memory for a chunk of the recycle queue, zeroes the block and
  -- keeps it to be used again, behind those that wait already. The count of those stays below 2^31.
  pub push-IsAlloc :
      (k : ℕ) (b : Block) (a : Alloc A) (given xs : List Block)
      → IsAlloc zeros a given xs
      → 0 < count b given
      → length xs + 1 < 2 ^ 31
      → (a' : Alloc A) × (push zeros (some k) b a ≡ some (ok, a'))
        × IsAlloc zeros a' (without b given) (xs ++ (b ∷ []))
  push-IsAlloc k b a given xs v has few =
      let (q, is, is') =
        push-snoc null_block (some k) b v.waiting (grows null_block a.rec_que k) few in
      (
        record (cleared zeros b a) { rec_que = q; spin_ri = false },
        push_unlocked (some k) b a q v.free_ri
            ((locked_calls null_block (some k) a.rec_que b).0 ∙ rw is refl),
        record {
          free_mo = v.free_mo;
          free_ri = refl;
          free_ro = v.free_ro;
          waiting = is';
          positive = v.positive;
          filled = v.filled;
          lengths = v.lengths;
          small = v.small;
          limited = v.limited;
          left = v.left;
          left_is = v.left_is;
          left_le = v.left_le;
          counted = v.counted;
          bounded = v.bounded;
          apart = λ c. omega (arith, v.apart c, count-without b c given has, count-snoc b c xs);
          slots = λ c h. v.slots c (omega (arith, count-without b c given has, count-snoc b c xs));
          blank = λ c h none_given. blank_cleared b a given v.blank has c h none_given;
        },
      )
