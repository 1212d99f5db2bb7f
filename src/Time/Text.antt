-- ===== src/Time/Text.antt =====
-- Texts that src/time.c writes and reads again.
use zinfo_tech.Base.{◌>>=◌, ℕ, ◌<◌, ◌≡◌, refl, ◌∙◌, Option, some, [], ◌∷◌, lt→ltb}
use zinfo_tech.Base.Lists.{length}
use zinfo_tech.Base.Int.{ℤ, pos, negsuc, ◌-ℤ◌}
use zinfo_tech.Time.{
  Text, Time, Tm, Precision, sec, millisec, microsec, nanosec, fraction, str_systime, cut, value,
  atoi, tm2time, str2time,
}
use zinfo_tech.Time.Decimal.{Prints, decimal-Prints, pad2-Prints, cut-Prints, atoi-Prints}

-- The fraction of a second is not read.
value-fraction : (n : ℕ) (p : Precision) (t : Time) → value n (fraction p t) ≡ n
unfolding value
value-fraction n sec t = refl
value-fraction n millisec t = refl
value-fraction n microsec t = refl
value-fraction n nanosec t = refl

abbrev read_tm : Text → Text → Text → Text → Text → Text → Tm
read_tm y mo d h mi s = record {
  tm_year = atoi y;
  tm_mon = atoi mo;
  tm_mday = atoi d;
  tm_hour = atoi h;
  tm_min = atoi mi;
  tm_sec = atoi s;
  tm_isdst = pos 0;
}

module _ (mktime : Tm → ℤ) where
  abbrev fields : Text → Option ℤ
  fields t = cut b'-' t >>= λ y. cut b'-' y.1 >>= λ mo. cut b' ' mo.1 >>= λ d. cut b':' d.1 >>= λ h.
      cut b':' h.1 >>= λ mi. some (tm2time mktime (read_tm y.0 mo.0 d.0 h.0 mi.0 mi.1))

  module _ {y mo d h mi s : ℕ} {py pmo pd ph pmi ps : Text → Text} (end : Text) (year : Prints y py)
      (month : Prints mo pmo) (day : Prints d pd) (hour : Prints h ph) (minute : Prints mi pmi)
      (second : Prints s ps) (value_end : value s end ≡ s) where
    abbrev after_day : Text
    after_day = ph (b':' ∷ pmi (b':' ∷ ps end))

    fields_cut :
        fields (py (b'-' ∷ pmo (b'-' ∷ pd (b' ' ∷ after_day))))
        ≡ some (tm2time mktime (read_tm (py []) (pmo []) (pd []) (ph []) (pmi []) (ps end)))
    fields_cut = rw (
      cut-Prints b'-' (pmo (b'-' ∷ pd (b' ' ∷ after_day))) year refl,
      cut-Prints b'-' (pd (b' ' ∷ after_day)) month refl,
      cut-Prints b' ' after_day day refl,
      cut-Prints b':' (pmi (b':' ∷ ps end)) hour refl,
      cut-Prints b':' (ps end) minute refl,
    )

    fields-print :
        fields (py (b'-' ∷ pmo (b'-' ∷ pd (b' ' ∷ after_day))))
        ≡ some (
            tm2time mktime (record {
              tm_year = pos y;
              tm_mon = pos mo;
              tm_mday = pos d;
              tm_hour = pos h;
              tm_min = pos mi;
              tm_sec = pos s;
              tm_isdst = pos 0;
            }))
    unfolding value
    fields-print =
        fields_cut
        ∙ rw (
          atoi-Prints [] year,
          atoi-Prints [] month,
          atoi-Prints [] day,
          atoi-Prints [] hour,
          atoi-Prints [] minute,
          atoi-Prints end second,
          value_end,
        )

  -- A time that `zstr_systime` writes, in any precision, is read again by `zstr2time`: the year, month,
  -- day, hour, minute and second go to `mktime`, the year counted from 1900, the month from 0, and
  -- the question of daylight saving left open. The text must fit in the 32 bytes of the buffer.
  pub str2time-str_systime :
      (t : Time) (p : Precision)
      → length (str_systime t p) < 32
      → str2time mktime (str_systime t p)
        ≡ some (
            mktime (record {
              tm_year = pos t.year -ℤ pos 1900;
              tm_mon = pos t.month -ℤ pos 1;
              tm_mday = pos t.day;
              tm_hour = pos t.hour;
              tm_min = pos t.minute;
              tm_sec = pos t.second;
              tm_isdst = negsuc 0;
            }))
  unfolding str_systime str2time tm2time
  str2time-str_systime t p fits = rw (lt→ltb _ _ fits) (
      fields-print (fraction p t) (decimal-Prints t.year) (pad2-Prints t.month) (pad2-Prints t.day)
        (pad2-Prints t.hour) (pad2-Prints t.minute) (pad2-Prints t.second)
        (value-fraction t.second p t))
