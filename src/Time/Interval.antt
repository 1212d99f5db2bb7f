-- ===== src/Time/Interval.antt =====
-- The intervals that src/time.c and zit/base/time.h compute.
use zinfo_tech.Base.{ℕ, ◌+◌, ◌-◌, ◌*◌, ◌/◌, ◌%◌, ◌≤◌, ◌<◌, ◌≡◌, arith}
use zinfo_tech.Base.Int.{pos}
use zinfo_tech.Time.{Timeval, interval, stamp_interval}

-- In microseconds.
abbrev pub micros : Timeval → ℕ
micros t = t.tv_sec * 1000000 + t.tv_usec

-- For two readings of a clock, the second not before the first, `ztock` gives the time between them in whole
-- seconds and the microseconds left over, and `ztime_interval` the same time in microseconds.
pub interval-micros :
    (begin end : Timeval)
    → begin.tv_usec < 1000000
    → end.tv_usec < 1000000
    → micros begin ≤ micros end
    → (interval begin end ≡ (
      pos ((micros end - micros begin) / 1000000),
      pos ((micros end - micros begin) % 1000000),
    ))
      × (stamp_interval begin end ≡ pos (micros end - micros begin))
unfolding interval stamp_interval
interval-micros begin end hb he le = (ground arith, ground arith)
