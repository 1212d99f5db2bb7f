-- ===== src/Net/Packet/Tests.antt =====
-- Packets between marks of the code 126, and the theorems there.
use zinfo_tech.Base.{ℕ, ◌+◌, ◌-◌, ◌≡◌, refl, Bool, some, ◌==◌, arith, if◌then◌else◌}
use zinfo_tech.Base.Bytes.{Memory}
use zinfo_tech.Net.Buffered.{copied}
use zinfo_tech.Net.Packet.{arrived, closed, packet, none_yet, Stream, moved_head, zrecv_packet}
use zinfo_tech.Net.Packet.Parts.{first_packet-found, next_packet-found, split_lost}

abbrev marks : ℕ → Bool
marks c = c == 126

-- 126, 1, 126, 126, 2, 126, and zeros
abbrev two : Memory ℕ
two i =
    if i == 0
    then 126
    else if i == 1
    then 1
    else if i == 2
    then 126
    else if i == 3
    then 126
    else if i == 4
    then 2
    else if i == 5
    then 126
    else 0

abbrev zeros : Memory ℕ
zeros i = 0

abbrev at_second : Stream ℕ
at_second = record { buf = copied zeros 0 two 6; offset = 3; len = 6 }

first_packet-found_example :
    zrecv_packet marks 64 (record { buf = zeros; offset = 0; len = 0 }) (arrived two 6)
    ≡ some (packet (2 + 1), record { buf = copied zeros 0 two 6; offset = 2 + 1; len = 6 })
first_packet-found_example =
    first_packet-found marks 64 zeros two 6 2 (omega arith) (omega arith) (omega arith) refl
      (λ i a b. ground arith)

next_packet-found_example :
    zrecv_packet marks 64 at_second closed
    ≡ some (
      packet (2 + 1),
      record { buf = moved_head (copied zeros 0 two 6) 3 (6 - 3); offset = 2 + 1; len = 6 - 3 },
    )
next_packet-found_example =
    next_packet-found marks 64 at_second 2 closed (omega arith) (omega arith) (omega arith) refl
      refl (λ i a b. ground arith)

split_lost_example :
    (s : Stream ℕ) × (zrecv_packet marks 64
        (record { buf = zeros; offset = 0; len = 0 })
        (arrived two 2)
      ≡ some (none_yet, s))
    × (zrecv_packet marks 64 s (arrived two 6)
        ≡ zrecv_packet marks 64 (record { buf = s.buf; offset = 0; len = 0 }) (arrived two 6))
split_lost_example =
    split_lost marks 64 zeros two 2 (arrived two 6) (omega arith) (omega arith)
      (λ i a b. ground arith) refl
