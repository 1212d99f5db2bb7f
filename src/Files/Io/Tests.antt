-- ===== src/Files/Io/Tests.antt =====
-- Runs of `zfwrite` and `zfreadx`, and their theorems there.
use zinfo_tech.Base.{ℕ, ◌≡◌, refl, Option, some, List, [], ◌∷◌, arith}
use zinfo_tech.Base.Bytes.{Memory}
use zinfo_tech.Files.Io.{zfwrite, zfreadx, zfreadx_loop}
use zinfo_tech.Files.Io.Complete.{Complete, zfwrite-Complete, Filled, zfreadx-Filled}

abbrev count_up : Memory ℕ
count_up i = i

abbrev content : List ℕ
content = 5 ∷ 6 ∷ 7 ∷ []

abbrev answers : List (Option ℕ)
answers = some 2 ∷ some 0 ∷ some 4 ∷ some 1 ∷ []

read_short : (zfreadx answers 4 content).got ≡ content
unfolding zfreadx_loop
read_short = refl

zfwrite-Complete_example : Complete count_up 4 content (zfwrite count_up 4 answers content)
zfwrite-Complete_example =
    zfwrite-Complete count_up 4 content answers tt (omega arith) (omega arith)

zfreadx-Filled_example : Filled 2 content (zfreadx answers 2 content)
zfreadx-Filled_example = zfreadx-Filled 2 content answers tt (omega arith) (omega arith)
