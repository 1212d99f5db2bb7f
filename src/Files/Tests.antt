-- ===== src/Files/Tests.antt =====
-- A walk over a small directory, and the theorems there.
use zinfo_tech.Base.{ℕ, zero, suc, ◌≡◌, some, List, [], ◌∷◌, arith}
use zinfo_tech.Files.{
  Text, Flag, Tree, missing, file, dir, end, entry, Answer, Walked, zftw, zftw_nr,
}
use zinfo_tech.Files.Visits.{preorder, visits}
use zinfo_tech.Files.Walk.{zftw-visits}
use zinfo_tech.Files.Listing.{reports, zftw_nr-reports}

-- "top" with ".", "a" and the directory "b" with "c"
abbrev top : Text
top = 116 ∷ 111 ∷ 112 ∷ []

abbrev small : Tree
small = dir (
    entry (46 ∷ []) missing
      (entry (97 ∷ []) file (entry (98 ∷ []) (dir (entry (99 ∷ []) file end)) end)))

-- A callback that notes the paths and stops when it has got as many as `limit`.
abbrev note : ℕ → Text → Flag → List Text → Answer (List Text)
note limit path flag s = record { ret = stop limit (path ∷ s); state = path ∷ s }
  where
    stop : ℕ → List Text → ℕ
    stop zero l = 1
    stop (suc n) [] = 0
    stop (suc n) (x ∷ l) = stop n l

zftw-visits_example :
    (w : Walked (List Text)) × (zftw (note 9) small top [] ≡ some w)
    × (w.ret ≡ (visits (note 9) (preorder small top) []).ret)
    × (w.state ≡ (visits (note 9) (preorder small top) []).state)
zftw-visits_example = zftw-visits (note 9) small top [] (omega arith) (omega arith)

zftw_nr-reports_example :
    (w : Walked (List Text)) × (zftw_nr (note 9) small top [] ≡ some w)
    × (w.ret ≡ (reports (note 9) small top []).ret)
    × (w.state ≡ (reports (note 9) small top []).state)
zftw_nr-reports_example = zftw_nr-reports (note 9) small top [] (omega arith) (omega arith)
