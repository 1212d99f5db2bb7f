-- ===== src/Alloc/Uses.antt =====
-- What users do with an allocator of zit/memory/alloc.h: they take blocks, write into those that they
-- have, and give them back.
use zinfo_tech.Base.{
  Bool, true, false, ◌≢◌, ℕ, suc, ◌+◌, ◌*◌, ◌^◌, ◌≤◌, ◌<◌, ◌≡◌, sym, ap, ◌∙◌, Option, none, some,
  List, [], ◌∷◌, ◌++◌, arith, if◌then◌else◌, Err, ok, mem_insufficient, mem_outofbounds,
  param_invalid, not_exist, fail, Bool-cases, inl, inr,
}
use mathlib.Core.Path.{subst}
use zinfo_tech.Base.Lists.{length, length-append}
use zinfo_tech.Alloc.{Alloc, Block, same, pop, push}
use zinfo_tech.Alloc.Valid.{IsAlloc, count}
use zinfo_tech.Alloc.Carve.{same_eq}
use zinfo_tech.Alloc.Pop.{IsNew, Outcome, pop-Answered}
use zinfo_tech.Alloc.Push.{without, push-IsAlloc, push-some}

-- An allocator, and the blocks that users have. `starved` is no part of the program: a block was given
-- back without memory for the queue of blocks that wait to be used again, which is unsound from then
-- on.
pub record Pool (A : Type 0) : Type 0 where
  pub alloc : Alloc A
  pub given : List Block
  pub starved : Bool

abbrev put_in : Option Block → List Block → List Block
put_in none bs = bs
put_in (some b) bs = b ∷ bs

module _ {A : Type 0} (zeros : A) where
  -- One call, or one write.
  pub data Step (p : Pool A) : Pool A → Type 0 where
    takes :
        {e : Err} {b : Option Block} {a : Alloc A} (mem : Option ℕ)
        → IsNew p.alloc.chunks mem
        → pop zeros mem p.alloc ≡ some (e, b, a)
        → Step p (record p { alloc = a; given = put_in b p.given })
    gives :
        {a : Alloc A} (b : Block) (mem : Option ℕ)
        → 0 < count b p.given
        → push zeros mem b p.alloc ≡ some (ok, a)
        → Step p (record p { alloc = a; given = without b p.given })
    gives_failed :
        {e : Err} {a : Alloc A} (b : Block) (mem : Option ℕ)
        → 0 < count b p.given
        → push zeros mem b p.alloc ≡ some (e, a)
        → e ≢ ok
        → Step p (record { alloc = a; given = without b p.given; starved = true })
    writes :
        (b : Block) (x : A)
        → 0 < count b p.given
        → Step p (record p {
          alloc = record p.alloc { content = λ c. if same b c then x else p.alloc.content c };
        })

  -- So many steps.
  pub data Uses (p : Pool A) : ℕ → Pool A → Type 0 where
    unused : Uses p 0 p
    next : {n : ℕ} {q r : Pool A} → Uses p n q → Step q r → Uses p (suc n) r

  -- In order, with at most `n` blocks that wait to be used again.
  abbrev Sound : ℕ → Alloc A → List Block → Type 0
  Sound n a given = (xs : List Block) × (length xs ≤ n) × IsAlloc zeros a given xs

  abbrev pub InOrder : ℕ → Pool A → Type 0
  InOrder n p = Sound n p.alloc p.given

  abbrev Taken : ℕ → List Block → Err → Option Block → Alloc A → Type 0
  Taken n given e b a = Sound n a (put_in b given)

  taken :
      (n : ℕ) (mem : Option ℕ) (a : Alloc A) (given xs : List Block)
      → IsAlloc zeros a given xs
      → length xs ≤ n
      → (e : Err) (b : Option Block) (a' : Alloc A) → Outcome zeros mem a given xs e b a'
      → Taken n given e b a'
  taken n mem a given [] v few ok (some b) a' out = ([], omega arith, out.3)
  taken n mem a given [] v few mem_outofbounds none a' out = ([], omega arith, rw (out.0) v)
  taken n mem a given [] v few mem_insufficient none a' out = ([], omega arith, rw (out.0) v)
  taken n mem a given (x ∷ xs) v few ok (some b) a' out = (xs, omega arith, out.1.3)
  taken n mem a given [] v few ok none a' out = elim out [ ]
  taken n mem a given [] v few mem_insufficient (some b) a' out = elim out [ ]
  taken n mem a given [] v few param_invalid b a' out = elim out [ ]
  taken n mem a given [] v few not_exist b a' out = elim out [ ]
  taken n mem a given [] v few mem_outofbounds (some b) a' out = elim out [ ]
  taken n mem a given [] v few fail b a' out = elim out [ ]
  taken n mem a given (x ∷ xs) v few ok none a' out = elim out [ ]
  taken n mem a given (x ∷ xs) v few mem_insufficient b a' out = elim out [ ]
  taken n mem a given (x ∷ xs) v few param_invalid b a' out = elim out [ ]
  taken n mem a given (x ∷ xs) v few not_exist b a' out = elim out [ ]
  taken n mem a given (x ∷ xs) v few mem_outofbounds b a' out = elim out [ ]
  taken n mem a given (x ∷ xs) v few fail b a' out = elim out [ ]

  -- What holds of the result of a `zalloc_pop`, and of a `zalloc_push`.
  abbrev AfterPop : ℕ → List Block → Option (Err × Option Block × Alloc A) → Type 0
  AfterPop n given none = ⊥
  AfterPop n given (some (e, b, a)) = Taken n given e b a

  abbrev AfterPush : ℕ → List Block → Option (Err × Alloc A) → Type 0
  AfterPush n given none = ⊥
  AfterPush n given (some (e, a)) = Sound n a given

  pop-InOrder :
      (n : ℕ) (mem : Option ℕ) (p : Pool A) {e : Err} {b : Option Block} {a : Alloc A}
      → InOrder n p
      → IsNew p.alloc.chunks mem
      → pop zeros mem p.alloc ≡ some (e, b, a)
      → Taken n p.given e b a
  pop-InOrder n mem p {e} {b} {a} (xs, few, v) new is =
      let (e', b', a', is', out) = pop-Answered zeros mem p.alloc p.given xs v new in
      subst (AfterPop n p.given) (sym is' ∙ is) (taken n mem p.alloc p.given xs v few e' b' a' out)

  push-InOrder :
      (n : ℕ) (b : Block) (mem : Option ℕ) (p : Pool A) {a : Alloc A}
      → InOrder n p
      → n + 1 < 2 ^ 31
      → 0 < count b p.given
      → push zeros mem b p.alloc ≡ some (ok, a)
      → Sound (suc n) a (without b p.given)
  push-InOrder n b mem p {a} (xs, few, v) small has starved_is =
      let (k, is) = push-some zeros mem b p.alloc a starved_is in
      let (a', is', v') = push-IsAlloc zeros k b p.alloc p.given xs v has (omega arith) in
      subst (AfterPush (suc n) (without b p.given)) (sym is' ∙ is)
        (xs ++ (b ∷ []), omega (arith, length-append xs (b ∷ [])), v')

  write-InOrder :
      (n : ℕ) (b : Block) (x : A) (p : Pool A)
      → InOrder n p
      → 0 < count b p.given
      → Sound n
          (record p.alloc { content = λ c. if same b c then x else p.alloc.content c })
          p.given
  write-InOrder n b x p (xs, few, v) has = (
    xs,
    few,
    record {
      free_mo = v.free_mo;
      free_ri = v.free_ri;
      free_ro = v.free_ro;
      waiting = v.waiting;
      positive = v.positive;
      filled = v.filled;
      lengths = v.lengths;
      small = v.small;
      limited = v.limited;
      left = v.left;
      left_is = v.left_is;
      left_le = v.left_le;
      counted = v.counted;
      bounded = v.bounded;
      apart = v.apart;
      slots = v.slots;
      blank = λ c h nobody. elim (Bool-cases (same b c)) [
        | inl here ↦ absurd (omega (arith, ap (λ d. count d p.given) (same_eq b c here)))
        | inr other ↦ rw other (v.blank c h nobody)
      ];
    },
  )

  Step-InOrder :
      (n : ℕ) {p q : Pool A}
      → Step p q
      → q.starved ≡ false
      → n + 1 < 2 ^ 31
      → InOrder n p
      → InOrder (suc n) q
  Step-InOrder n (gives_failed b mem has is bad) fed small o = cc (fed)
  Step-InOrder n {p} (takes mem new is) fed small o =
      let (xs, few, v) = pop-InOrder n mem p o new is in (xs, omega arith, v)
  Step-InOrder n {p} (gives b mem has is) fed small o = push-InOrder n b mem p o small has is
  Step-InOrder n {p} (writes b x has) fed small o =
      let (xs, few, v) = write-InOrder n b x p o has in (xs, omega arith, v)

  Step-starved : {p q : Pool A} → Step p q → q.starved ≡ false → p.starved ≡ false
  Step-starved (gives_failed b mem has is bad) fed = cc (fed)
  Step-starved (takes mem new is) fed = fed
  Step-starved (gives b mem has is) fed = fed
  Step-starved (writes b x has) fed = fed

  -- From an allocator in order, fewer than 2^31 steps lead to one in order again, as long as each block
  -- that was given back found memory for the queue of blocks that wait to be used again: whatever its
  -- users take, whether there is memory for it or not, write and give back, no block is with two users or with one and in the recycle queue, all are
  -- slots of chunks, and those that no user has are zeroed.
  pub Uses-InOrder :
      {p : Pool A} {n : ℕ} {q : Pool A}
      → Uses p n q
      → q.starved ≡ false
      → n + 1 < 2 ^ 31
      → IsAlloc zeros p.alloc p.given []
      → InOrder n q
  Uses-InOrder unused fed small v = ([], omega arith, v)
  Uses-InOrder (next {n = n} u st) fed small v =
      Step-InOrder n st fed (omega arith) (Uses-InOrder u (Step-starved st fed) (omega arith) v)

  -- In fewer than 2^31 steps from an allocator in order, as long as each block that was given back
  -- found memory for the queue of blocks that wait to be used again, the chunks never take more than
  -- the limit and two chunks.
  pub Uses-memory :
      {p : Pool A} {n : ℕ} {q : Pool A}
      → Uses p n q
      → q.starved ≡ false
      → n + 1 < 2 ^ 31
      → IsAlloc zeros p.alloc p.given []
      → q.alloc.chunk_length * length q.alloc.chunks ≤ q.alloc.max_mem + 2 * q.alloc.chunk_length
  Uses-memory {q = q} u fed small v =
      let (xs, few, w) = Uses-InOrder u fed small v in
      let s : q.alloc.chunk_length * (q.alloc.chk_cnt + 1)
          ≡ q.alloc.chunk_length * q.alloc.chk_cnt + q.alloc.chunk_length =
        grind arith in
      rw w.counted (omega (arith, w.bounded, s))
