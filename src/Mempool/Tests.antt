-- ===== src/Mempool/Tests.antt =====
-- The sizes of zit/memory/mem_pool.h for concrete requests.
use zinfo_tech.Base.{ℕ, ◌^◌, ◌≤◌, ◌<◌, ◌≡◌, refl, arith, some}
use zinfo_tech.Mempool.{power_of2}
use zinfo_tech.Mempool.Power.{power_of2_bounds}

size_of_100 : power_of2 10 100 ≡ some 128
unfolding power_of2
size_of_100 = refl

power_of2_bounds_example :
    (k : ℕ) × (power_of2 201 100 ≡ some (2 ^ k)) × (100 < 2 ^ k) × (2 ^ k ≤ 200)
power_of2_bounds_example = power_of2_bounds 201 100 (omega arith) (omega arith) (omega arith)
