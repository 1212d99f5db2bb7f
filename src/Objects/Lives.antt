-- ===== src/Objects/Lives.antt =====
-- What the users of an object pool do, as a use of the allocator.
use zinfo_tech.Base.{
  refl, ok, ℕ, suc, ◌+◌, ◌*◌, ◌^◌, ◌≤◌, ◌<◌, ◌≡◌, sym, ap, ◌∙◌, false, Option, none, some, List, [],
  ◌∷◌, arith, if◌then◌else◌, ltb, Err, Bool-cases, inl, inr,
}
use mathlib.Core.Path.{subst}
use zinfo_tech.Base.Count.{bit}
use zinfo_tech.Alloc.{Alloc, Block, same, pop, push}
use zinfo_tech.Alloc.Valid.{IsAlloc, count, within}
use zinfo_tech.Alloc.Carve.{same_eq, same_refl, carved-within, within_le}
use zinfo_tech.Alloc.Pop.{IsNew}
use zinfo_tech.Alloc.Push.{without, count-without}
use zinfo_tech.Alloc.Uses.{Pool, Uses, next, takes, gives, writes, Uses-InOrder}
use zinfo_tech.Objects.{Mode, unset, by_ref, by_copy, Object, zeros, set, Users, add, remove}
use zinfo_tech.Objects.Content.{Keeps, pop-Keeps, Clears, push-Clears}

-- The reference count is that of the users; an object that is cloned by copy has one user.
abbrev pub CountsAs : Mode → ℕ → ℕ → Type 0
CountsAs unset ref h = ⊥
CountsAs by_ref ref h = (ref ≡ h) × (h < 2 ^ 32)
CountsAs by_copy ref h = h ≡ 1

abbrev pub IsCounted : {B : Type 0} → Object B → ℕ → Type 0
IsCounted o h = CountsAs o.mode o.ref h

module _ {B : Type 0} (empty : B) (start : Alloc (Object B)) where
  abbrev pub pool : Alloc (Object B) → List Block → Pool (Object B)
  pool a given = record { alloc = a; given = given; starved = false }

  -- After `k` calls the users hold references to the objects in the blocks that they have, and to no
  -- others, and each object counts its references.
  pub record Lives (k : ℕ) (u : Users B) : Type 0 where
    pub given : List Block
    pub n : ℕ
    pub uses : Uses (zeros empty) (pool start []) n (pool u.alloc given)
    pub few : n ≤ 2 * k
    pub held : (b : Block) → count b given ≡ bit (ltb 0 (u.holds b))
    pub counted : (b : Block) → 0 < u.holds b → IsCounted (u.alloc.content b) (u.holds b)

  module _ (v : IsAlloc (zeros empty) start [] []) {k : ℕ} {u : Users B} (l : Lives k u)
      (small : 2 * k + 3 < 2 ^ 31) where
    pub has : (b : Block) → 0 < u.holds b → 0 < count b l.given
    has b h = ground (arith, l.held b)

    there : (b : Block) → 0 < u.holds b → within u.alloc.chunks b.chunk ≡ 1
    there b h =
        let (xs, few, w) = Uses-InOrder (zeros empty) l.uses refl (omega (arith, l.few)) v in
        omega (
          arith,
          has b h,
          w.apart b,
          carved-within u.alloc.chunks u.alloc.end_pos b,
          within_le u.alloc.chunks b.chunk,
        )

    abbrev After : Option (Err × Option Block × Alloc (Object B)) → Type 0
    After none = ⊥
    After (some (e, b, a)) = Lives (suc k) (record { alloc = a; holds = add b u.holds })

    module _ (mem : Option ℕ) (new : IsNew u.alloc.chunks mem) where
      pub kept :
          (e : Err) (b : Option Block) (a : Alloc (Object B))
          → pop (zeros empty) mem u.alloc ≡ some (e, b, a)
          → (d : Block) → 0 < u.holds d
          → a.content d ≡ u.alloc.content d
      kept e b a is d h =
          subst (Keeps (zeros empty) mem u.alloc) is (pop-Keeps (zeros empty) mem u.alloc new) d
            (there d h)

      -- The allocator gives no block, or a block in which an object is put.
      pub no_block :
          (e : Err) (a : Alloc (Object B))
          → pop (zeros empty) mem u.alloc ≡ some (e, none, a)
          → Lives (suc k) (record { alloc = a; holds = u.holds })
      no_block e a is = record {
        given = l.given;
        n = suc l.n;
        uses = next l.uses (takes mem new is);
        few = omega (arith, l.few);
        held = l.held;
        counted = λ b h.
            subst (λ o. IsCounted o (u.holds b)) (sym (kept e none a is b h)) (l.counted b h);
      }

      fresh :
          (e : Err) (c : Block) (a : Alloc (Object B))
          → pop (zeros empty) mem u.alloc ≡ some (e, some c, a)
          → count c l.given ≡ 0
      fresh e c a is =
          let (xs, few, w) =
            Uses-InOrder (zeros empty) (next l.uses (takes mem new is)) refl (omega (arith, l.few))
              v in
          ground (
            arith,
            same_refl c,
            w.apart c,
            carved-within a.chunks a.end_pos c,
            within_le a.chunks c.chunk,
          )

      pub new_block :
          (e : Err) (c : Block) (a : Alloc (Object B)) (x : Object B)
          → pop (zeros empty) mem u.alloc ≡ some (e, some c, a)
          → IsCounted x 1
          → Lives (suc k) (record { alloc = set c x a; holds = add (some c) u.holds })
      new_block e c a x is cx = record {
        given = c ∷ l.given;
        n = suc (suc l.n);
        uses = next (next l.uses (takes mem new is)) (writes c x (ground (arith, same_refl c)));
        few = omega (arith, l.few);
        held = λ d. elim (Bool-cases (same c d)) [
          | inl t ↦
              let z : count d l.given ≡ 0 =
                ap (λ b. count b l.given) (sym (same_eq c d t)) ∙ fresh e c a is in
              rw t (ground arith)
          | inr t ↦ rw t (omega (arith, l.held d))
        ];
        counted = λ d h. elim (Bool-cases (same c d)) [
          | inl t ↦
              let z : count d l.given ≡ 0 =
                ap (λ b. count b l.given) (sym (same_eq c d t)) ∙ fresh e c a is in
              let one : 1 ≡ u.holds d + 1 = ground (arith, l.held d) in
              rw t (subst (λ n. IsCounted x n) one cx)
          | inr t ↦
              let h' : 0 < u.holds d = ground arith in
              rw t (
                subst (λ o. IsCounted o (u.holds d)) (sym (kept e (some c) a is d h'))
                  (l.counted d h'))
        ];
      }

    -- An object that stays gets other fields and `m` references.
    pub changed :
        (b : Block) (x : Object B) (m : ℕ) (hs : Block → ℕ)
        → 0 < u.holds b
        → 0 < m
        → ((d : Block) → hs d ≡ (if same b d then m else u.holds d))
        → IsCounted x m
        → Lives (suc k) (record { alloc = set b x u.alloc; holds = hs })
    changed b x m hs h hm is cx = record {
      given = l.given;
      n = suc l.n;
      uses = next l.uses (writes b x (has b h));
      few = omega (arith, l.few);
      held = λ d. elim (Bool-cases (same b d)) [
        | inl t ↦
            let hd : 0 < u.holds d = subst (λ c. 0 < u.holds c) (same_eq b d t) h in
            ground (arith, is d, l.held d)
        | inr t ↦ ground (arith, is d, l.held d)
      ];
      counted = λ d hd. elim (Bool-cases (same b d)) [
        | inl t ↦ let e : m ≡ hs d = ground (arith, is d) in rw t (subst (λ i. IsCounted x i) e cx)
        | inr t ↦
            let e : u.holds d ≡ hs d = ground (arith, is d) in
            let h' : 0 < u.holds d = omega arith in
            rw t (subst (λ i. IsCounted (u.alloc.content d) i) e (l.counted d h'))
      ];
    }

    -- The last reference to an object goes, and its block goes back to the allocator, which answers ZEOK.
    pub given_back :
        (b : Block) (a1 : Alloc (Object B)) (n1 : ℕ) (mem : Option ℕ) (a : Alloc (Object B))
        → u.holds b ≡ 1
        → Uses (zeros empty) (pool start []) n1 (pool a1 l.given)
        → n1 ≤ 2 * k + 1
        → ((d : Block) → same b d ≡ false → a1.content d ≡ u.alloc.content d)
        → push (zeros empty) mem b a1 ≡ some (ok, a)
        → Lives (suc k) (record { alloc = a; holds = remove b u.holds })
    given_back b a1 n1 mem a one uses1 few1 others is =
        let hb : 0 < count b l.given = has b (omega arith) in
        record {
          given = without b l.given;
          n = suc n1;
          uses = next uses1 (gives b mem hb is);
          few = omega arith;
          held = λ d. elim (Bool-cases (same b d)) [
            | inl t ↦
                let od : u.holds d ≡ 1 = ap (λ c. u.holds c) (sym (same_eq b d t)) ∙ one in
                ground (arith, count-without b d l.given hb, l.held d)
            | inr t ↦ ground (arith, count-without b d l.given hb, l.held d)
          ];
          counted = λ d hd. elim (Bool-cases (same b d)) [
            | inl t ↦
                let od : u.holds d ≡ 1 = ap (λ c. u.holds c) (sym (same_eq b d t)) ∙ one in
                absurd (ground arith)
            | inr t ↦
                let h' : 0 < u.holds d = ground arith in
                let (same_content, cleared) =
                  subst (Clears (zeros empty) b a1) is (push-Clears (zeros empty) mem b a1) in
                rw t (
                  subst (λ o. IsCounted o (u.holds d)) (sym (same_content d t ∙ others d t))
                    (l.counted d h'))
          ];
        }
