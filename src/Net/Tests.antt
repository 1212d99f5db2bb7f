-- ===== src/Net/Tests.antt =====
-- Runs of `zsend`, and its theorems there.
use zinfo_tech.Base.{ℕ, ◌≡◌, refl, List, [], ◌∷◌, arith}
use zinfo_tech.Net.{Reply, room, again, interrupted, Memory, zsend_loop, zsend}
use zinfo_tech.Net.Send.{Delivered, zsend-Delivered}

-- A buffer with the bytes 0, 1, 2 and so on.
abbrev count_up : Memory ℕ
count_up i = i

abbrev slow : List Reply
slow = room 2 ∷ again ∷ interrupted ∷ room 5 ∷ []

slow_wire : (zsend count_up 4 slow []).wire ≡ 0 ∷ 1 ∷ 2 ∷ 3 ∷ []
unfolding zsend_loop
slow_wire = refl

zsend-Delivered_example : Delivered count_up 4 [] (zsend count_up 4 slow [])
zsend-Delivered_example = zsend-Delivered count_up 4 [] slow tt (omega arith)
