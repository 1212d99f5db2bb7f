-- ===== src/Trace/Tests.antt =====
-- Dumps of a few bytes, and the theorem there.
use zinfo_tech.Base.{ℕ, ◌+◌, ◌≤◌, ◌≡◌, refl, List, [], ◌∷◌, arith}
use zinfo_tech.Base.Lists.{length}
use zinfo_tech.Trace.{zdump_bin, zdump_mix}
use zinfo_tech.Trace.Bounds.{dump_bounds}

-- "A", a zero byte, and "B"
abbrev three : List ℕ
three = 65 ∷ 0 ∷ 66 ∷ []

-- "41 00 42 "
bin_text : (zdump_bin 64 three).text ≡ 52 ∷ 49 ∷ 32 ∷ 48 ∷ 48 ∷ 32 ∷ 52 ∷ 50 ∷ 32 ∷ []
unfolding zdump_bin
bin_text = refl

-- "A[0", of "A[00]B"
mix_text : (zdump_mix 64 three).text ≡ 65 ∷ 91 ∷ 48 ∷ []
unfolding zdump_mix
mix_text = refl

-- A buffer of four bytes, of which a fifth is touched.
mix_touches : (zdump_mix 4 (0 ∷ [])).touched ≡ 5
unfolding zdump_mix
mix_touches = refl

dump_bounds_example :
    ((zdump_bin 8 three).touched ≤ 8)
    × ((zdump_mix 8 three).touched ≤ 8 + 1)
    × (length (zdump_mix 8 three).text ≡ (zdump_mix 8 three).len)
dump_bounds_example = dump_bounds 8 three (omega arith)
