-- ===== src/Base/Bytes.antt =====
-- The memory behind a pointer, and the bytes of a part of it.
use Prim.Native.Nat.{ℕ, zero, suc, ◌+◌}
use mathlib.Core.Path.{◌≡◌, refl, sym, ap, ◌∙◌}
use mathlib.Core.List.{List, [], ◌∷◌, ◌++◌, append_assoc}
use native.Mathlib.Omega.{arith}
use zinfo_tech.Base.Tests.{ltb, if◌then◌else◌}

-- The memory from the address of a buffer on, also behind its end.
abbrev pub Memory : Type 0 → Type 0
Memory A = ℕ → A

abbrev pub bytes : {A : Type 0} → Memory A → ℕ → ℕ → List A
bytes m o zero = []
bytes m o (suc n) = m o ∷ bytes m (suc o) n

abbrev pub least : ℕ → ℕ → ℕ
least a b = if ltb a b then a else b

module _ {A : Type 0} (m : Memory A) where
  pub bytes-+ : (o a b c n : ℕ) → o + a ≡ c → a + b ≡ n → bytes m o n ≡ bytes m o a ++ bytes m c b
  bytes-+ o zero b c n e f =
      let o≡ : o ≡ c = omega arith in let n≡ : n ≡ b = omega arith in rw (o≡, n≡) refl
  bytes-+ o (suc a) b c zero e f = absurd (omega arith)
  bytes-+ o (suc a) b c (suc n) e f =
      ap (λ t. m o ∷ t) (bytes-+ (suc o) a b c n (omega arith) (omega arith))

  pub bytes-next :
      (w wire : List A) (s n : ℕ)
      → wire ≡ w ++ bytes m 0 s
      → wire ++ bytes m s n ≡ w ++ bytes m 0 (s + n)
  bytes-next w wire s n e =
      ap (λ t. t ++ bytes m s n) e
      ∙ append_assoc w (bytes m 0 s) (bytes m s n)
      ∙ ap (λ t. w ++ t) (sym (bytes-+ 0 s n s (s + n) (omega arith) refl))
