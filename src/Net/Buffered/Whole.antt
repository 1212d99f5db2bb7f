-- ===== src/Net/Buffered/Whole.antt =====
-- What `zemq_sendn` sends while the kernel takes all or nothing.
use zinfo_tech.Base.{
  ℕ, ◌+◌, ◌≤◌, ◌<◌, ◌≡◌, refl, sym, ap, ◌∙◌, List, [], ◌∷◌, ◌++◌, append-nil, arith, ◌==◌, true,
  false,
}
use zinfo_tech.Base.{by_test}
use mathlib.Core.Path.{subst}
use native.Mathlib.Decide.{ℕ_discrete}
use zinfo_tech.Net.{
  Reply, room, again, interrupted, broken, Memory, bytes, least, done, try_again, failed, waiting,
  Sent, stop, sendn_loop, sendn,
}

-- Whenever the kernel takes bytes it has room for `cap` of them.
abbrev pub IsRoomy : ℕ → List Reply → Type 0
IsRoomy cap [] = Unit {0}
IsRoomy cap (room k ∷ rs) = (cap ≤ k) × IsRoomy cap rs
IsRoomy cap (again ∷ rs) = IsRoomy cap rs
IsRoomy cap (interrupted ∷ rs) = IsRoomy cap rs
IsRoomy cap (broken ∷ rs) = IsRoomy cap rs

module _ {A : Type 0} (cap : ℕ) (buf : Memory A) (size : ℕ) (w : List A) where
  -- A call of `zemq_sendn` has sent all, or nothing and is not done.
  pub data AllOrNothing : Sent A → Type 0 where
    all_sent :
        (n : ℕ) (wire : List A) (rs : List Reply)
        → wire ≡ w ++ bytes buf 0 size
        → IsRoomy cap rs
        → AllOrNothing (stop done n wire rs)
    retry : (rs : List Reply) → AllOrNothing (stop try_again 0 w rs)
    broke : (rs : List Reply) → AllOrNothing (stop failed 0 w rs)
    blocked : (rs : List Reply) → AllOrNothing (stop waiting 0 w rs)

  sendn_loop-ended :
      (rs : List Reply) (s : ℕ) (wire : List A)
      → (s == size) ≡ true
      → sendn_loop buf size rs s wire ≡ stop done s wire rs
  unfolding sendn_loop
  sendn_loop-ended [] s wire h = rw h refl
  sendn_loop-ended (room k ∷ rs) s wire h = rw h refl
  sendn_loop-ended (again ∷ rs) s wire h = rw h refl
  sendn_loop-ended (interrupted ∷ rs) s wire h = rw h refl
  sendn_loop-ended (broken ∷ rs) s wire h = rw h refl

  sendn_loop-AllOrNothing :
      (rs : List Reply)
      → 0 < size
      → size ≤ cap
      → IsRoomy cap rs
      → AllOrNothing (sendn_loop buf size rs 0 w)
  unfolding sendn_loop
  sendn_loop-AllOrNothing [] p h roomy =
      let t : (0 == size) ≡ false = ground arith in rw t (blocked [])
  sendn_loop-AllOrNothing (room k ∷ rs) p h (enough, roomy) =
      by_test AllOrNothing (0 == size) _ _ (λ t. absurd (ground arith))
        (λ t.
          let e : least k size ≡ size = ground arith in
          rw e (
            subst AllOrNothing
              (sym (sendn_loop-ended rs (0 + size) (w ++ bytes buf 0 size) (ground arith)))
              (all_sent (0 + size) (w ++ bytes buf 0 size) rs refl roomy)))
  sendn_loop-AllOrNothing (again ∷ rs) p h roomy =
      let t : (0 == size) ≡ false = ground arith in rw t (retry rs)
  sendn_loop-AllOrNothing (interrupted ∷ rs) p h roomy =
      by_test AllOrNothing (0 == size) _ _ (λ t. absurd (ground arith))
        (λ t. sendn_loop-AllOrNothing rs p h roomy)
  sendn_loop-AllOrNothing (broken ∷ rs) p h roomy =
      let t : (0 == size) ≡ false = ground arith in rw t (broke rs)

  pub sendn-AllOrNothing :
      (rs : List Reply) → size ≤ cap → IsRoomy cap rs → AllOrNothing (sendn buf size rs w)
  sendn-AllOrNothing rs h roomy = elim (ℕ_discrete size 0) [
    | yes e ↦
        subst AllOrNothing (sym (sendn_loop-ended rs 0 w (ground arith)))
          (all_sent 0 w rs (sym (ap (λ n. w ++ bytes buf 0 n) e ∙ append-nil w)) roomy)
    | no ne ↦ sendn_loop-AllOrNothing rs (omega arith) h roomy
  ]
