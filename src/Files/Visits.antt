-- ===== src/Files/Visits.antt =====
-- What a walk over a directory tree is to visit: the paths from the top, each directory before what is
-- in it, until the callback stops it.
use zinfo_tech.Base.{
  ℕ, ◌+◌, ◌<◌, ◌≡◌, refl, List, [], ◌∷◌, ◌++◌, ◌==◌, if◌then◌else◌, Bool-cases, inl, inr, ap, arith,
}
use zinfo_tech.Base.Lists.{length}
use zinfo_tech.Files.{
  Text, Flag, ftw_f, ftw_d, ftw_dnr, ftw_ns, Tree, missing, file, unreadable, dir, Entries, end,
  entry, slashed, hidden, Answer,
}

abbrev mutual
  pub preorder : Tree → Text → List (Text × Flag)
  preorder missing path = (path, ftw_ns) ∷ []
  preorder file path = (path, ftw_f) ∷ []
  preorder unreadable path = (path, ftw_d) ∷ (slashed path, ftw_dnr) ∷ []
  preorder (dir es) path = (path, ftw_d) ∷ inside es (slashed path)

  pub inside : Entries → Text → List (Text × Flag)
  inside end base = []
  inside (entry name child es) base =
      if hidden name then inside es base else preorder child (base ++ name) ++ inside es base

-- Every path fits into the buffer of 512 bytes, and every entry has a name.
abbrev mutual
  pub Fits : Tree → Text → Type 0
  Fits missing path = length path < 512
  Fits file path = length path < 512
  Fits unreadable path = length path + 1 < 512
  Fits (dir es) path = (length path + 1 < 512) × FitsInside es (slashed path)

  pub FitsInside : Entries → Text → Type 0
  FitsInside end base = Unit {0}
  FitsInside (entry name child es) base =
      (0 < length name) × Fits child (base ++ name) × FitsInside es base

module _ {S : Type 0} (func : Text → Flag → S → Answer S) where
  abbrev pub visits : List (Text × Flag) → S → Answer S
  visits [] s = record { ret = 0; state = s }
  visits ((path, flag) ∷ vs) s =
      if (func path flag s).ret == 0 then visits vs (func path flag s).state else func path flag s

  abbrev pub go_on : List (Text × Flag) → Answer S → Answer S
  go_on vs a = if a.ret == 0 then visits vs a.state else a

  pub visits-append :
      (us vs : List (Text × Flag)) (s : S) → visits (us ++ vs) s ≡ go_on vs (visits us s)
  visits-append [] vs s = refl
  visits-append ((path, flag) ∷ us) vs s = elim (Bool-cases ((func path flag s).ret == 0)) [
    | inl e ↦ rw e (visits-append us vs (func path flag s).state)
    | inr e ↦ rw (e, e) refl
  ]

  pub visits-one :
      (path : Text) (flag : Flag) (s : S) → visits ((path, flag) ∷ []) s ≡ func path flag s
  visits-one path flag s = elim (Bool-cases ((func path flag s).ret == 0)) [
    | inl e ↦
        let z : 0 ≡ (func path flag s).ret = ground arith in
        rw e (ap (λ (r : ℕ). answer r (func path flag s).state) z)
    | inr e ↦ rw e refl
  ]
    where
      answer : ℕ → S → Answer S
      answer r t = record { ret = r; state = t }
