-- ===== src/Net/Buffered/Tests.antt =====
-- Runs of `zemq_send`, and its theorems there.
use zinfo_tech.Base.{ℕ, ◌+◌, ◌++◌, none, some, false, List, [], ◌∷◌, arith}
use zinfo_tech.Net.{room, again, Memory, bytes, sendn}
use zinfo_tech.Net.Buffered.{zemq_send}
use zinfo_tech.Net.Buffered.Calls.{Call}
use zinfo_tech.Net.Buffered.Loss.{Lost, sendn_overruns, Repeats, clear, zemq_send-Repeats}

abbrev count_up : Memory ℕ
count_up i = i

abbrev zeros : Memory ℕ
zeros i = 0

-- The kernel is full, then full again, and then takes what waits and what comes.
abbrev calls : List (Call ℕ)
calls =
    record { buf = some count_up; len = 3; spare = zeros; replies = again ∷ [] }
    ∷ record { buf = some count_up; len = 2; spare = zeros; replies = again ∷ [] }
    ∷ record { buf = none; len = 0; spare = zeros; replies = room 8 ∷ [] }
    ∷ record { buf = some count_up; len = 1; spare = zeros; replies = room 8 ∷ [] }
    ∷ []

sendn_overruns_example :
    Lost count_up 4 ([] ++ bytes count_up 0 (1 + 4)) (sendn count_up 4 (room 1 ∷ room 9 ∷ []) [])
sendn_overruns_example =
    sendn_overruns count_up 4 1 9 [] [] (omega arith) (omega arith) (omega arith)

zemq_send-Repeats_example : Repeats 8 8 zeros count_up 4 1 [] (
    zemq_send 8 8
      (some zeros)
      (some count_up)
      4
      (clear 8 8 zeros count_up 4 none 0 0 false)
      (room 1 ∷ again ∷ [])
      [])
zemq_send-Repeats_example =
    zemq_send-Repeats 8 8 zeros count_up 4 none 0 0 false 1 [] [] (omega arith) (omega arith)
      (omega arith)
