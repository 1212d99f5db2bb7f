-- ===== src/Time.antt =====
-- Times as texts, and intervals, of src/time.c.
-- A text is the list of its codes, without the 0 at its end. `none` is a fault: a text that does not
-- fit in its buffer, or a separator that is missed. `mktime` and `localtime` are the system's.
pub mod Decimal
pub mod Text
pub mod Interval
mod Tests
use zinfo_tech.Base.{
  ◌>>=◌, ℕ, zero, suc, ◌+◌, ◌-◌, ◌*◌, ◌/◌, ◌%◌, Bool, true, false, ◌&&◌, ◌||◌, Option, none, some,
  List, [], ◌∷◌, leb, ltb, ◌==◌, if◌then◌else◌,
}
use zinfo_tech.Base.Lists.{length}
use zinfo_tech.Base.Int.{ℤ, pos, negsuc, ◌+ℤ◌, ◌-ℤ◌}

abbrev pub Text : Type 0
Text = List ℕ

-- `ztime_t`; none of its fields is negative.
pub record Time : Type 0 where
  pub year : ℕ
  pub month : ℕ
  pub day : ℕ
  pub hour : ℕ
  pub minute : ℕ
  pub second : ℕ
  pub millisecond : ℕ
  pub microsecond : ℕ
  pub nanosecond : ℕ
  pub day_of_week : ℕ

-- `struct tm`
pub record Tm : Type 0 where
  pub tm_year : ℤ
  pub tm_mon : ℤ
  pub tm_mday : ℤ
  pub tm_hour : ℤ
  pub tm_min : ℤ
  pub tm_sec : ℤ
  pub tm_isdst : ℤ

pub data Precision : Type 0 where
  sec millisec microsec nanosec : Precision

-- "%d" of a number that is not negative, before `rest`.
unfoldable pub digits : ℕ → ℕ → Text → Text
digits zero n rest = rest
digits (suc f) n rest =
    let more = digits f (n / 10) ((48 + n % 10) ∷ rest) in
    if ltb n 10 then (48 + n) ∷ rest else more

abbrev pub decimal : ℕ → Text → Text
decimal n rest = digits (suc n) n rest

-- "%02d" and "%03d"
abbrev pub pad2 : ℕ → Text → Text
pad2 n rest = if ltb n 10 then 48 ∷ decimal n rest else decimal n rest

abbrev pub pad3 : ℕ → Text → Text
pad3 n rest = if ltb n 100 then 48 ∷ pad2 n rest else decimal n rest

abbrev pub fraction : Precision → Time → Text
fraction sec t = []
fraction microsec t = b'.' ∷ pad3 t.millisecond (pad3 t.microsecond [])
fraction millisec t = b'.' ∷ pad3 t.millisecond []
fraction nanosec t = b'.' ∷ pad3 t.millisecond []

unfoldable pub str_systime : Time → Precision → Text
unfolding digits
str_systime t p = decimal t.year (
    b'-'
    ∷ pad2 t.month (
        b'-'
        ∷ pad2 t.day
            (b' ' ∷ pad2 t.hour (b':' ∷ pad2 t.minute (b':' ∷ pad2 t.second (fraction p t))))))

-- `strstr` for one character, and a 0 written over it: the text before it, and the text behind it.
unfoldable pub cut : ℕ → Text → Option (Text × Text)
cut c [] = none
cut c (x ∷ xs) = if x == c then some ([], xs) else (cut c xs >>= λ r. some (x ∷ r.0, r.1))

abbrev pub is_digit : ℕ → Bool
is_digit c = leb 48 c && leb c 57

abbrev pub is_space : ℕ → Bool
is_space c = c == 32 || (leb 9 c && leb c 13)

-- `atoi`, on numbers that fit in an int.
unfoldable pub value : ℕ → Text → ℕ
value v [] = v
value v (c ∷ cs) = let more = value (v * 10 + (c - 48)) cs in if is_digit c then more else v

unfoldable pub atoi : Text → ℤ
unfolding value
atoi [] = pos 0
atoi (c ∷ cs) =
    let rest = atoi cs in
    if is_space c
    then rest
    else (if c == b'-'
        then pos 0 -ℤ pos (value 0 cs)
        else (if c == b'+' then pos (value 0 cs) else pos (value 0 (c ∷ cs))))

module _ (mktime : Tm → ℤ) where
  unfoldable pub tm2time : Tm → ℤ
  tm2time tm = mktime (record tm {
    tm_year = tm.tm_year -ℤ pos 1900;
    tm_mon = tm.tm_mon -ℤ pos 1;
    tm_isdst = negsuc 0;
  })

  unfoldable pub str2time : Text → Option ℤ
  unfolding tm2time cut atoi
  str2time t =
      if ltb (length t) 32
      then (cut b'-' t >>= λ y. cut b'-' y.1 >>= λ mo. cut b' ' mo.1 >>= λ d. cut b':' d.1 >>= λ h.
          cut b':' h.1 >>= λ mi. some (
            tm2time (record {
              tm_year = atoi y.0;
              tm_mon = atoi mo.0;
              tm_mday = atoi d.0;
              tm_hour = atoi h.0;
              tm_min = atoi mi.0;
              tm_sec = atoi mi.1;
              tm_isdst = pos 0;
            })))
      else none

-- `ztime2tm`, where `now` is what `localtime` gives.
unfoldable pub time2tm : Tm → Tm → Tm
time2tm now tm = record tm {
  tm_year = now.tm_year +ℤ pos 1900;
  tm_mon = tm.tm_mon +ℤ pos 1;
  tm_mday = now.tm_mday;
  tm_hour = now.tm_hour;
  tm_min = now.tm_min;
  tm_sec = now.tm_sec;
}

-- `struct timeval`
pub record Timeval : Type 0 where
  pub tv_sec : ℕ
  pub tv_usec : ℕ

-- What `zget_localtime` makes of the clock; `none` is the error of `gettimeofday`, `ZEFAIL`.
module _ (localtime : ℕ → Time) where
  unfoldable pub get_localtime : Option Timeval → Option Time
  get_localtime none = none
  get_localtime (some tv) =
      let now = localtime tv.tv_sec in
      some (record now {
        year = now.year + 1900;
        month = now.month + 1;
        millisecond = tv.tv_usec / 1000;
        microsecond = tv.tv_usec % 1000;
        nanosecond = 0;
      })

-- The interval of `ztock`.
unfoldable pub interval : Timeval → Timeval → ℤ × ℤ
interval begin end =
    let b = begin.tv_usec % 1000000 in
    let e = end.tv_usec % 1000000 in
    let s = pos end.tv_sec -ℤ pos begin.tv_sec in
    if ltb e b then (s -ℤ pos 1, pos (e + 1000000) -ℤ pos b) else (s, pos e -ℤ pos b)

-- `sec * 1000000`
abbrev pub scale : ℤ → ℤ
scale (pos n) = pos (n * 1000000)
scale (negsuc n) = pos 0 -ℤ pos (suc n * 1000000)

-- `ztime_interval`, in microseconds.
unfoldable pub stamp_interval : Timeval → Timeval → ℤ
stamp_interval begin end =
    let b = begin.tv_usec % 1000000 in
    let e = end.tv_usec % 1000000 in
    let s = pos end.tv_sec -ℤ pos begin.tv_sec in
    if ltb e b
    then (pos (e + 1000000) -ℤ pos b) +ℤ scale (s -ℤ pos 1)
    else (pos e -ℤ pos b) +ℤ scale s
