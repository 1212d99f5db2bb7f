-- ===== src/Mempool.antt =====
-- The sizes of the buffers of zit/memory/mem_pool.h.
pub mod Bits
pub mod Power
mod Tests
use Prim.Native.Nat.{bit_and}
use zinfo_tech.Base.{ℕ, zero, suc, ◌-◌, ◌*◌, ◌%◌, ◌^◌, Option, none, some, ◌==◌, if◌then◌else◌}

-- `size &= size-1`
abbrev pub clear_lowest : ℕ → ℕ
clear_lowest n = bit_and n (n - 1)

-- The loop over `size`, where `old` is the size before; `none` when the fuel runs out.
unfoldable pub last_left : ℕ → ℕ → ℕ → Option ℕ
last_left zero old n = none
last_left (suc f) old n =
    let rest = last_left f n (clear_lowest n) in if n == 0 then some old else rest

unfoldable pub power_of2 : ℕ → ℕ → Option ℕ
unfolding last_left
power_of2 fuel size = last_left fuel size ((size * 2) % 2 ^ 32)
