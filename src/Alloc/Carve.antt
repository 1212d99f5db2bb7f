-- ===== src/Alloc/Carve.antt =====
-- Cutting a block off the memory queue of zit/memory/alloc.h, and growing it by a chunk.
use zinfo_tech.Base.{
  ℕ, zero, suc, ◌+◌, ◌-◌, ◌*◌, ◌%◌, ◌^◌, ◌≤◌, ◌<◌, ◌≡◌, refl, sym, ap, ◌∙◌, true, false, some, List,
  [], ◌∷◌, arith, if◌then◌else◌, ◌==◌, ltb, ok, Bool-cases, inl, inr, ==_iff, inc32,
}
use zinfo_tech.Base.Lists.{length}
use zinfo_tech.Alloc.{Alloc, Block, same, carve_at, over_limit, grown}
use zinfo_tech.Alloc.Valid.{IsAlloc, IsSlot, count, within, carved}

same_chunk : (b c : Block) → same b c ≡ true → b.chunk ≡ c.chunk
same_chunk b c e = ground (arith, ==_iff b.chunk c.chunk)

same_byte : (b c : Block) → same b c ≡ true → b.byte ≡ c.byte
same_byte b c e = ground (arith, ==_iff b.byte c.byte)

pub same_eq : (b c : Block) → same b c ≡ true → b ≡ c
same_eq b c e = ground (arith, ==_iff b.chunk c.chunk, ==_iff b.byte c.byte)

pub same_refl : (b : Block) → same b b ≡ true
same_refl b = ground arith

-- One more block is cut off below `p`.
carved_step :
    (c p q : ℕ) (cs : List ℕ) (b : Block)
    → q < p
    → (if same (record { chunk = c; byte = q }) b then 1 else 0) + carved (c ∷ cs) p b
      ≤ carved (c ∷ cs) q b
carved_step c p q cs b h = ground arith

carved_above :
    (c q : ℕ) (cs : List ℕ) (b : Block) (p : ℕ)
    → b.chunk ≡ c
    → b.byte ≡ q
    → q < p
    → carved (c ∷ cs) p b ≡ 0
carved_above c q cs b p e f h = ground arith

within_first : (c : ℕ) (cs : List ℕ) → within (c ∷ cs) c ≡ 1
within_first c cs = ground arith

pub within_le : (cs : List ℕ) (k : ℕ) → within cs k ≤ 1
within_le [] k = omega arith
within_le (c ∷ cs) k = ground (arith, within_le cs k)

pub carved-within : (cs : List ℕ) (p : ℕ) (b : Block) → carved cs p b ≤ within cs b.chunk
carved-within [] p b = omega arith
carved-within (c ∷ cs) p b = ground arith

-- A chunk at a new address has no block that was cut off, and the old ones have no other.
carved_grown :
    (c l : ℕ) (cs : List ℕ) (b : Block) → within cs c ≡ 0 → within cs b.chunk ≤ carved (c ∷ cs) l b
carved_grown c l cs b fresh = elim (Bool-cases (b.chunk == c)) [
  | inl here ↦ rw (here, (==_iff b.chunk c).0 here, fresh) (omega arith)
  | inr other ↦ rw other (omega arith)
]

slot_below :
    (l w p n : ℕ)
    → 0 < w
    → p ≡ l * w
    → l ≤ n
    → 0 < p
    → (p - w ≡ (l - 1) * w) × (p - w < p) × (l - 1 < n) × (w ≤ p)
slot_below zero w p n hw e le pos = absurd (omega arith)
slot_below (suc k) w p n hw e le pos =
    let s : suc k * w ≡ k * w + w = grind arith in
    let d : suc k - 1 ≡ k = omega arith in rw d (omega arith, omega arith, omega arith, omega arith)

-- What the user gets: a slot that nobody has, zeroed.
abbrev pub Got : {A : Type 0} → A → List Block → List Block → Block → Alloc A → Type 0
Got zeros given xs b a =
    (count b given ≡ 0) × (a.content b ≡ zeros) × IsSlot a b × IsAlloc zeros a (b ∷ given) xs

module _ {A : Type 0} (zeros : A) (a : Alloc A) (given xs : List Block)
    (v : IsAlloc zeros a given xs) (c : ℕ) (cs : List ℕ) (e : a.chunks ≡ c ∷ cs)
    (room : 0 < a.end_pos) where
  abbrev cut_pos : ℕ
  cut_pos = a.end_pos - a.value_size

  cut_pos_is :
      (cut_pos ≡ (v.left - 1) * a.value_size)
      × (cut_pos < a.end_pos)
      × ((v.left - 1) < a.chunk_size)
      × (a.value_size ≤ a.end_pos)
  cut_pos_is =
      slot_below v.left a.value_size a.end_pos a.chunk_size v.positive v.left_is v.left_le room

  abbrev cut : Block
  cut = record { chunk = c; byte = cut_pos }

  cut_apart : (b : Block) → count b (cut ∷ given) + count b xs ≤ carved a.chunks cut_pos b
  cut_apart b = rw e (
      omega (
        arith,
        v.apart b,
        ap (λ t. carved t a.end_pos b) e,
        carved_step c a.end_pos cut_pos cs b cut_pos_is.1,
      ))

  cut_fresh : (count cut given ≡ 0) × (count cut xs ≡ 0)
  cut_fresh =
      let none_above = carved_above c cut_pos cs cut a.end_pos refl refl cut_pos_is.1 in
      omega (arith, v.apart cut, ap (λ t. carved t a.end_pos cut) e, none_above)

  cut_slots : (b : Block) → 0 < count b (cut ∷ given) + count b xs → IsSlot a b
  cut_slots b h = elim (Bool-cases (same cut b)) [
    | inl here ↦ ((v.left - 1), sym (same_byte cut b here) ∙ cut_pos_is.0, cut_pos_is.2)
    | inr other ↦ v.slots b (ground arith)
  ]

  cut_blank :
      (b : Block) → within a.chunks b.chunk ≡ 1 → count b (cut ∷ given) ≡ 0 → a.content b ≡ zeros
  cut_blank b h none_given = v.blank b h (omega arith)

  carve-Got : Got zeros given xs cut (record a { end_pos = cut_pos })
  carve-Got = (
    cut_fresh.0,
    v.blank cut (rw e (within_first c cs)) cut_fresh.0,
    ((v.left - 1), cut_pos_is.0, cut_pos_is.2),
    record {
      free_mo = v.free_mo;
      free_ri = v.free_ri;
      free_ro = v.free_ro;
      waiting = v.waiting;
      positive = v.positive;
      filled = v.filled;
      lengths = v.lengths;
      small = v.small;
      limited = v.limited;
      left = (v.left - 1);
      left_is = cut_pos_is.0;
      left_le = omega (arith, cut_pos_is);
      counted = v.counted;
      bounded = v.bounded;
      apart = cut_apart;
      slots = cut_slots;
      blank = cut_blank;
    },
  )

module _ {A : Type 0} (zeros : A) where
  pub carve_total :
      (a : Alloc A) (given xs : List Block) (cs : List ℕ)
      → IsAlloc zeros a given xs
      → a.chunks ≡ cs
      → 0 < a.end_pos
      → (b : Block) × (a' : Alloc A) × (carve_at cs a ≡ some (ok, some b, a'))
        × Got zeros given xs b a'
  carve_total a given xs [] v e room = absurd (omega (arith, v.counted, ap length e))
  carve_total a given xs (c ∷ cs) v e room =
      let below = cut_pos_is zeros a given xs v c cs e room in
      let fits : ltb a.end_pos a.value_size ≡ false = ground (arith, below) in
      (
        cut zeros a given xs v c cs e room,
        record a { end_pos = a.end_pos - a.value_size },
        rw fits refl,
        carve-Got zeros a given xs v c cs e room,
      )

  mul_pos : (m n : ℕ) → 0 < m → 0 < n → 0 < m * n
  mul_pos m n p q = grind arith

  grown_limits :
      (cl cnt m : ℕ)
      → 0 < cl
      → cl < 2 ^ 31
      → m ≤ 2 ^ 29
      → cl * cnt ≤ m + cl
      → (cl * cnt < 2 ^ 32) × (cnt + 1 < 2 ^ 32) × (cl * (cnt + 1) ≡ cl * cnt + cl)
  grown_limits cl cnt m p q r b =
      let h : 0 < cl → cnt ≤ cl * cnt = λ pos. grind arith in
      (omega arith, omega (arith, h p), grind arith)

  pub chunk_pos :
      (a : Alloc A) {given xs : List Block} → IsAlloc zeros a given xs → 0 < a.chunk_length
  chunk_pos a v = omega (arith, mul_pos a.chunk_size a.value_size v.filled v.positive, v.lengths)

  limits :
      (a : Alloc A) {given xs : List Block}
      → IsAlloc zeros a given xs
      → (a.chunk_length * a.chk_cnt < 2 ^ 32)
        × (a.chk_cnt + 1 < 2 ^ 32)
        × (a.chunk_length * (a.chk_cnt + 1) ≡ a.chunk_length * a.chk_cnt + a.chunk_length)
  limits a v =
      grown_limits a.chunk_length a.chk_cnt a.max_mem (chunk_pos a v) v.small v.limited v.bounded

  pub over_limit_is :
      (a : Alloc A) {given xs : List Block}
      → IsAlloc zeros a given xs
      → over_limit a ≡ ltb a.max_mem (a.chunk_length * a.chk_cnt)
  over_limit_is a v =
      let e : a.chunk_size * a.value_size * a.chk_cnt ≡ a.chunk_length * a.chk_cnt =
        ap (λ t. t * a.chk_cnt) (sym v.lengths) in
      let r : (a.chunk_size * a.value_size * a.chk_cnt) % 2 ^ 32 ≡ a.chunk_length * a.chk_cnt =
        omega (arith, e, limits a v) in
      ap (ltb a.max_mem) r

  -- A chunk at a fresh address.
  pub grown-IsAlloc :
      (c : ℕ) (a : Alloc A) (given xs : List Block)
      → IsAlloc zeros a given xs
      → within a.chunks c ≡ 0
      → over_limit a ≡ false
      → IsAlloc zeros (grown zeros c a) given xs
  grown-IsAlloc c a given xs v fresh below = record {
    free_mo = v.free_mo;
    free_ri = v.free_ri;
    free_ro = v.free_ro;
    waiting = v.waiting;
    positive = v.positive;
    filled = v.filled;
    lengths = v.lengths;
    small = v.small;
    limited = v.limited;
    left = a.chunk_size;
    left_is = v.lengths;
    left_le = omega arith;
    counted = omega (arith, v.counted, limits a v);
    bounded =
        let (wide, narrow, next) = limits a v in
        let one_more : inc32 a.chk_cnt ≡ a.chk_cnt + 1 = omega arith in
        let enough : a.chunk_length * a.chk_cnt ≤ a.max_mem = ground (arith, over_limit_is a v) in
        rw one_more (omega arith);
    apart = λ b. omega (
      arith,
      v.apart b,
      carved-within a.chunks a.end_pos b,
      carved_grown c a.chunk_length a.chunks b fresh,
    );
    slots = v.slots;
    blank = λ b h none_given. ground (arith, v.blank b);
  }
