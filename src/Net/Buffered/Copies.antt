-- ===== src/Net/Buffered/Copies.antt =====
-- The bytes of a block after `memcpy`.
use zinfo_tech.Base.{ℕ, zero, suc, ◌+◌, ◌<◌, ◌≡◌, refl, ap, ◌∙◌, ◌∷◌, ◌++◌, arith}
use zinfo_tech.Net.{Memory, bytes}
use zinfo_tech.Base.Bytes.{bytes-+}
use zinfo_tech.Net.Buffered.{copied}

module _ {A : Type 0} (m m' : Memory A) where
  pub bytes_same :
      (o o' n : ℕ)
      → ((i j k : ℕ) → i < n → j ≡ o + i → k ≡ o' + i → m j ≡ m' k)
      → bytes m o n ≡ bytes m' o' n
  bytes_same o o' zero h = refl
  bytes_same o o' (suc n) h =
      ap (λ t. t ∷ bytes m (suc o) n) (h 0 o o' (omega arith) (omega arith) (omega arith))
      ∙ ap (λ t. m' o' ∷ t)
          (bytes_same (suc o) (suc o') n
            (λ i j k lt e e'. h (suc i) j k (omega arith) (omega arith) (omega arith)))

module _ {A : Type 0} (m m' : Memory A) (l n : ℕ) where
  before-copied : bytes (copied m l m' n) 0 l ≡ bytes m 0 l
  before-copied = bytes_same (copied m l m' n) m 0 0 l (λ i j k lt e e'. ground arith)

  pub inside-copied : bytes (copied m l m' n) l n ≡ bytes m' 0 n
  inside-copied = bytes_same (copied m l m' n) m' l 0 n (λ i j k lt e e'. ground arith)

  pub bytes-copied : bytes (copied m l m' n) 0 (l + n) ≡ bytes m 0 l ++ bytes m' 0 n
  bytes-copied =
      bytes-+ (copied m l m' n) 0 l n l (l + n) (omega arith) refl
      ∙ ap (λ t. t ++ bytes (copied m l m' n) l n) before-copied
      ∙ ap (λ t. bytes m 0 l ++ t) inside-copied
