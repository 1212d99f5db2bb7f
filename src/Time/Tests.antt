-- ===== src/Time/Tests.antt =====
-- Runs of src/time.c, and its theorems at concrete times.
use zinfo_tech.Base.{◌≡◌, refl, some, [], ◌∷◌, arith}
use zinfo_tech.Base.Int.{ℤ, pos, ◌+ℤ◌}
use zinfo_tech.Time.{Time, Tm, sec, microsec, str_systime, str2time, Timeval}
use zinfo_tech.Time.Text.{str2time-str_systime}

abbrev leap_day : Time
leap_day = record {
  year = 2016;
  month = 2;
  day = 29;
  hour = 7;
  minute = 5;
  second = 59;
  millisecond = 40;
  microsecond = 7;
  nanosecond = 0;
  day_of_week = 1;
}

written :
    str_systime leap_day sec
    ≡ b'2' ∷ b'0' ∷ b'1' ∷ b'6' ∷ b'-' ∷ b'0' ∷ b'2' ∷ b'-' ∷ b'2' ∷ b'9' ∷ b' ' ∷ b'0' ∷ b'7'
      ∷ b':' ∷ b'0' ∷ b'5' ∷ b':' ∷ b'5' ∷ b'9' ∷ []
unfolding str_systime
written = refl

-- A calendar that counts the seconds of the hour.
abbrev seconds_of_hour : Tm → ℤ
seconds_of_hour tm = tm.tm_sec +ℤ pos 60

str2time-str_systime_example :
    str2time seconds_of_hour (str_systime leap_day microsec) ≡ some (pos 119)
unfolding str_systime
str2time-str_systime_example = str2time-str_systime seconds_of_hour leap_day microsec (omega arith)

abbrev ten_to : Timeval
ten_to = record { tv_sec = 99; tv_usec = 999990 }

abbrev five_past : Timeval
five_past = record { tv_sec = 101; tv_usec = 5 }
