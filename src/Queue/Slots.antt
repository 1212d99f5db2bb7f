-- ===== src/Queue/Slots.antt =====
-- What the chunks of a queue hold, read slot by slot: a chunk has `n` slots of `w` bytes, slot `k`
-- starts at byte `k * w`, and the values run from slot `i` of the first chunk up to slot `j` of the
-- last.
use zinfo_tech.Base.{
  ℕ, zero, suc, ◌+◌, ◌-◌, ◌*◌, ◌≤◌, ◌<◌, ◌≡◌, refl, ap, ◌∙◌, Bool, true, false, List, [], ◌∷◌, ◌++◌,
  arith, if◌then◌else◌, ◌==◌, ==_refl,
}
use zinfo_tech.Queue.{Chunk, write, write_end}

pub mul_lt : (a b w : ℕ) → 0 < w → a < b → a * w < b * w
mul_lt a b w hw h = grind arith

pub mul_le : (a b w : ℕ) → a ≤ b → a * w ≤ b * w
mul_le a b w h = grind arith

pub mul_ne : (a b w : ℕ) → 0 < w → a < b → (a * w == b * w) ≡ false
mul_ne a b w hw h = ground (arith, mul_lt a b w hw h)

pub mul_ne' : (a b w : ℕ) → 0 < w → b < a → (a * w == b * w) ≡ false
mul_ne' a b w hw h = ground (arith, mul_lt b a w hw h)

abbrev pub null {ℓ} : {A : Type ℓ} → List A → Bool
null [] = true
null (x ∷ xs) = false

module _ {A : Type 0} where
  -- The `k` values from slot `i` on.
  unfoldable pub vals : (ℕ → A) → ℕ → ℕ → ℕ → List A
  vals f w i zero = []
  vals f w i (suc k) = f (i * w) ∷ vals f w (i + 1) k

  unfoldable pub items : ℕ → ℕ → ℕ → List (Chunk A) → ℕ → List A
  items n w i [] j = []
  items n w i (c ∷ r) j = vals c.value w i ((if null r then j else n) - i) ++ items n w 0 r j

  -- There is a chunk, and in a single one the values end no earlier than they begin.
  abbrev pub Spans : ℕ → List (Chunk A) → ℕ → Type 0
  Spans i [] j = ⊥
  Spans i (c ∷ []) j = i ≤ j
  Spans i (c ∷ d ∷ r) j = Unit {0}

  pub Spans-zero : (c : Chunk A) (r : List (Chunk A)) (j : ℕ) → Spans 0 (c ∷ r) j
  Spans-zero c [] j = omega arith
  Spans-zero c (d ∷ r) j = tt

  pub vals-snoc :
      (f : ℕ → A) (w i k : ℕ) → vals f w i (suc k) ≡ vals f w i k ++ (f ((i + k) * w) ∷ [])
  unfolding vals
  vals-snoc f w i zero = let e : i ≡ i + 0 = omega arith in ap (λ t. f (t * w) ∷ []) e
  vals-snoc f w i (suc k) =
      ap (λ t. f (i * w) ∷ t)
        (vals-snoc f w (i + 1) k ∙ ap (λ t. vals f w (i + 1) k ++ (f (t * w) ∷ [])) (omega arith))

  pub vals-write_after :
      (c : Chunk A) (v : A) (w j i k : ℕ)
      → 0 < w
      → i + k ≤ j
      → vals (write c (j * w) v).value w i k ≡ vals c.value w i k
  unfolding vals write
  vals-write_after c v w j i zero hw h = refl
  vals-write_after c v w j i (suc k) hw h =
      rw (mul_ne' j i w hw (omega arith), vals-write_after c v w j (i + 1) k hw (omega arith))

  pub vals-write_before :
      (c : Chunk A) (v : A) (w j i k : ℕ)
      → 0 < w
      → j < i
      → vals (write c (j * w) v).value w i k ≡ vals c.value w i k
  unfolding vals write
  vals-write_before c v w j i zero hw h = refl
  vals-write_before c v w j i (suc k) hw h =
      rw (mul_ne j i w hw h, vals-write_before c v w j (i + 1) k hw (omega arith))

  pub value-write_self : (c : Chunk A) (p : ℕ) (v : A) → (write c p v).value p ≡ v
  unfolding write
  value-write_self c p v = rw (==_refl p)

  pub null-write_end : (cs : List (Chunk A)) (p : ℕ) (v : A) → null (write_end cs p v) ≡ null cs
  unfolding write_end
  null-write_end [] p v = refl
  null-write_end (c ∷ []) p v = refl
  null-write_end (c ∷ d ∷ r) p v = refl

  pub null-snoc : (cs : List (Chunk A)) (c : Chunk A) → null (cs ++ (c ∷ [])) ≡ false
  null-snoc [] c = refl
  null-snoc (d ∷ r) c = refl
