-- ===== src/Base/Count.antt =====
-- How often a number stands in a list, and Booleans as numbers.
use Prim.Native.Nat.{ℕ, ◌+◌, ◌≤◌}
use mathlib.Core.Path.{◌≡◌}
use mathlib.Core.Bool.{Bool, true, false}
use mathlib.Core.List.{List, [], ◌∷◌, ◌++◌}
use native.Mathlib.Omega.{arith}
use zinfo_tech.Base.Tests.{◌==◌, if◌then◌else◌}
use zinfo_tech.Base.Lists.{length}

abbrev pub bit : Bool → ℕ
bit true = 1
bit false = 0

pub bit_cases : (b : Bool) → bit b ≤ 1
bit_cases true = omega arith
bit_cases false = omega arith

abbrev pub occurrences : ℕ → List ℕ → ℕ
occurrences m [] = 0
occurrences m (k ∷ ks) = (if m == k then 1 else 0) + occurrences m ks

pub occurrences-append :
    (m : ℕ) (xs ys : List ℕ) → occurrences m (xs ++ ys) ≡ occurrences m xs + occurrences m ys
occurrences-append m [] ys = omega arith
occurrences-append m (x ∷ xs) ys = omega (arith, occurrences-append m xs ys)

pub occurrences-le : (m : ℕ) (ks : List ℕ) → occurrences m ks ≤ length ks
occurrences-le m [] = omega arith
occurrences-le m (k ∷ ks) = ground (arith, occurrences-le m ks)
