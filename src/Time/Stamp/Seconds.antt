-- ===== src/Time/Stamp/Seconds.antt =====
-- Timestamps from seconds, and the arithmetic on them: rust/src/update/time.rs.
use mathlib.Core.Option.{some_inj}
use pkgre.Prelude.{
  ℕ, ◌+◌, ◌*◌, ◌/◌, ◌%◌, ◌^◌, ◌≤◌, ◌<◌, ◌≡◌, ◌↔◌, inl, inr, refl, sym, ap, ◌∙◌, arith, Bytes, true,
  leb, ltb, leb→le, Bool-cases, Option, none, some, Result, ok, err, ok_inj,
}
use pkgre.Schema.{UtcTimestamp}
use pkgre.Time.{Civil, epoch_shift, civil_from_days}
use pkgre.Time.Calendar.{IsDate, days_of, days_from_civil_lem, months_before}
use pkgre.Time.Inverse.{days_from_civil-civil_from_days}
use pkgre.Time.Unique.{civil_from_days-days_from_civil}
use pkgre.Time.Stamp.{
  TimeError, Clock, parse, format, beyond_9999, from_civil, from_unix_seconds, duration_since,
  added_seconds, checked_add_days, convert,
}
use pkgre.Time.Stamp.Text.{IsClock, total, day_range, short_month, parse-format, parse_iff}

-- The years from a given one on begin with its first day.
from_year :
    (y m : ℕ)
    → 1 ≤ m
    → m ≤ 12
    → (1970 ≤ y → 719468 ≤ months_before y m)
      × (10000 ≤ y → 3652365 ≤ months_before y m)
      × (4294967296 ≤ y → 1568704592550 ≤ months_before y m)
from_year y m h h' = (λ e. ground arith, λ e. ground arith, λ e. ground arith)

until_year :
    (y m d : ℕ)
    → 1 ≤ m
    → m ≤ 12
    → d ≤ 31
    → (y ≤ 1969 → months_before y m + d ≤ 719468)
      × (y ≤ 9999 → months_before y m + d ≤ 3652365)
      × (y ≤ 4294967295 → months_before y m + d ≤ 1568704592550)
until_year y m d h h' hd = (λ e. ground arith, λ e. ground arith, λ e. ground arith)

threshold :
    (year first y day : ℕ)
    → (y < year → day < first)
    → (year ≤ y → first ≤ day)
    → (first ≤ day) ↔ (year ≤ y)
threshold year first y day before after = (
  λ h. elim (Bool-cases (leb year y)) [
    | inl yes' ↦ leb→le year y yes'
    | inr other ↦ let small : y < year = ground arith in absurd (omega (arith, before small, h))
  ],
  after,
)

-- The year of a date, from its day number.
year_of_day :
    (c : Civil)
    → IsDate c
    → ((719468 ≤ days_of c) ↔ (1970 ≤ c.year))
      × ((3652365 ≤ days_of c) ↔ (10000 ≤ c.year))
      × ((1568704592550 ≤ days_of c) ↔ (4294967296 ≤ c.year))
year_of_day c v =
    let lem = days_from_civil_lem c.year c.month c.day v.month_in.0 v.day_in.0 in
    let from = from_year c.year c.month v.month_in.0 v.month_in.1 in
    let until =
      until_year c.year c.month c.day v.month_in.0 v.month_in.1
        (omega (arith, v.day_in, short_month c.year c.month)) in
    (
      threshold 1970 719468 c.year (days_of c) (λ h. omega (arith, lem, until.0 (omega arith)))
          (λ h. omega (arith, lem, from.0 h, v.day_in)),
      threshold 10000 3652365 c.year (days_of c) (λ h. omega (arith, lem, until.1 (omega arith)))
          (λ h. omega (arith, lem, from.1 h, v.day_in)),
      threshold 4294967296 1568704592550 c.year (days_of c)
          (λ h. omega (arith, lem, until.2 (omega arith)))
          (λ h. omega (arith, lem, from.2 h, v.day_in)),
    )

-- The date and the time of the day that `from_unix_seconds` computes.
abbrev date_of : ℕ → Civil
date_of seconds = civil_from_days (seconds / 86400 + epoch_shift)

abbrev clock_of : ℕ → Clock
clock_of seconds = record {
  date = date_of seconds;
  hour = seconds % 86400 / (60 * 60);
  minute = seconds % 86400 % (60 * 60) / 60;
  second = seconds % 86400 % 60;
}

-- The range of the date, and its day number.
date_of_lem :
    (seconds : ℕ)
    → IsDate (date_of seconds)
      × (days_of (date_of seconds) ≡ seconds / 86400 + epoch_shift)
      × ((253402300800 ≤ seconds) ↔ (10000 ≤ (date_of seconds).year))
      × ((135536014634284800 ≤ seconds) ↔ (4294967296 ≤ (date_of seconds).year))
      × (1970 ≤ (date_of seconds).year)
date_of_lem seconds =
    let (valid, day) =
      days_from_civil-civil_from_days (seconds / 86400 + epoch_shift) (omega arith) in
    let (epoch, last, limit) = year_of_day (date_of seconds) valid in
    (
      valid,
      day,
      (λ h. last.0 (omega (arith, day, h)), λ h. omega (arith, day, last.1 h)),
      (λ h. limit.0 (omega (arith, day, h)), λ h. omega (arith, day, limit.1 h)),
      epoch.0 (omega (arith, day)),
    )

clock_of-IsClock : (seconds : ℕ) → seconds < 253402300800 → IsClock (clock_of seconds)
clock_of-IsClock seconds h =
    let (valid, day, last, limit, epoch) = date_of_lem seconds in
    let supported : (date_of seconds).year ≤ 9999 =
      elim (Bool-cases (leb (date_of seconds).year 9999)) [
        | inl small ↦ leb→le _ _ small
        | inr large ↦
            let late : 10000 ≤ (date_of seconds).year = ground arith in
            absurd (omega (arith, last.1 late, h))
      ] in
    record {
      year_in = (epoch, supported);
      month_in = valid.month_in;
      day_in = valid.day_in;
      hour_in = omega arith;
      minute_in = omega arith;
      second_in = omega arith;
    }

clock_of-total : (seconds : ℕ) → total (clock_of seconds) ≡ seconds
clock_of-total seconds = let (_, day, _, _, _) = date_of_lem seconds in omega (arith, day)

-- What the seconds are converted to.
pub data Converts (seconds : ℕ) : Option (Result TimeError UtcTimestamp) → Type 0 where
  supported :
      (t : UtcTimestamp)
      → seconds < 253402300800
      → t.seconds ≡ seconds
      → parse t.text ≡ ok t
      → Converts seconds (some (ok t))
  too_late :
      253402300800 ≤ seconds
      → seconds < 135536014634284800
      → Converts seconds (some (err beyond_9999))
  panics : 135536014634284800 ≤ seconds → Converts seconds none

stamp_of : (seconds : ℕ) → UtcTimestamp
stamp_of seconds = record { seconds = total (clock_of seconds); text = format (clock_of seconds) }

converted :
    (seconds : ℕ)
    → seconds < 253402300800
    → parse (format (clock_of seconds)) ≡ ok (stamp_of seconds)
unfolding stamp_of
converted seconds h = parse-format (clock_of seconds) (clock_of-IsClock seconds h)

below : (bound seconds year y : ℕ) → (bound ≤ seconds) ↔ (year ≤ y) → y < year → seconds < bound
below bound seconds year y same h = elim (Bool-cases (leb bound seconds)) [
  | inl reached ↦ absurd (omega (arith, same.0 (leb→le bound seconds reached), h))
  | inr under ↦ ground arith
]

from_civil-Converts :
    (seconds : ℕ) → Converts seconds (from_civil (date_of seconds) (seconds % 86400))
unfolding from_civil stamp_of
from_civil-Converts seconds =
    let (_, _, last, limit, _) = date_of_lem seconds in
    elim (Bool-cases (ltb (date_of seconds).year (2 ^ 32))) [
      | inr huge ↦ rw huge (panics (limit.1 (ground arith)))
      | inl fits ↦ elim (Bool-cases (leb (date_of seconds).year 9999)) [
        | inr late ↦
            rw (fits, late)
              (too_late (last.1 (ground arith)) (below _ seconds _ _ limit (ground arith)))
        | inl early ↦
            let h : seconds < 253402300800 = below _ seconds _ _ last (ground arith) in
            rw (fits, early, converted seconds h)
              (supported (stamp_of seconds) h (clock_of-total seconds) (converted seconds h))
      ]
    ]

-- Seconds up to the end of 9999 are converted to a timestamp of just those seconds, whose text is read
-- as that timestamp. Later ones are refused, but from 135536014634284800 on, in the year
-- 4294967296, the function panics.
pub from_unix_seconds-Converts : (seconds : ℕ) → Converts seconds (from_unix_seconds seconds)
unfolding from_unix_seconds
from_unix_seconds-Converts seconds = from_civil-Converts seconds

clock-IsDate : (c : Clock) → IsClock c → IsDate c.date
clock-IsDate c v = record {
  year_in = omega (arith, v.year_in);
  month_in = v.month_in;
  day_in = v.day_in;
}

-- The clock of the seconds of a valid clock.
clock_of_total : (c : Clock) → IsClock c → clock_of (total c) ≡ c
clock_of_total c v =
    let range = day_range c v in
    let day : total c / 86400 + epoch_shift ≡ days_of c.date =
      omega (arith, range, v.hour_in, v.minute_in, v.second_in) in
    let date = ap civil_from_days day ∙ civil_from_days-days_from_civil c.date (clock-IsDate c v) in
    let hour : total c % 86400 / (60 * 60) ≡ c.hour =
      omega (arith, v.hour_in, v.minute_in, v.second_in) in
    let minute : total c % 86400 % (60 * 60) / 60 ≡ c.minute =
      omega (arith, v.hour_in, v.minute_in, v.second_in) in
    let second : total c % 86400 % 60 ≡ c.second =
      omega (arith, v.hour_in, v.minute_in, v.second_in) in
    λ i. record { date = date i; hour = hour i; minute = minute i; second = second i }

from_clock :
    (seconds : ℕ) (c : Clock)
    → clock_of seconds ≡ c
    → IsClock c
    → from_unix_seconds seconds ≡ some (parse (format c))
unfolding from_unix_seconds from_civil
from_clock seconds c same v =
    let year : (date_of seconds).year ≡ c.date.year = ap (λ (x : Clock). x.date.year) same in
    let fits : ltb (date_of seconds).year (2 ^ 32) ≡ true = ground (arith, year, v.year_in) in
    let early : leb (date_of seconds).year 9999 ≡ true = ground (arith, year, v.year_in) in
    rw (fits, early) (ap (λ (x : Clock). some (parse (format x))) same)

-- Converting the seconds of a parsed timestamp gives the timestamp back, text included.
pub from_unix_seconds-parse :
    (value : Bytes) (t : UtcTimestamp)
    → parse value ≡ ok t
    → from_unix_seconds t.seconds ≡ some (ok t)
from_unix_seconds-parse value t h =
    let s = (parse_iff value t).0 h in
    ap from_unix_seconds s.seconds
    ∙ from_clock (total s.clock) s.clock (clock_of_total s.clock s.valid) s.valid
    ∙ ap (λ v. some (parse v)) (sym s.printed)
    ∙ ap some h

Converts-seconds :
    (seconds : ℕ) (r : Option (Result TimeError UtcTimestamp)) (t : UtcTimestamp)
    → Converts seconds r
    → r ≡ some (ok t)
    → t.seconds ≡ seconds
Converts-seconds seconds _ t (supported t' _ e _) h =
    sym (ap (λ (x : UtcTimestamp). x.seconds) (ok_inj (some_inj.0 h))) ∙ e
Converts-seconds seconds _ t (too_late _ _) h = absurd (cc)
Converts-seconds seconds _ t (panics _) h = absurd (cc)

added_value :
    (self : UtcTimestamp) (days seconds : ℕ)
    → added_seconds self days ≡ ok seconds
    → seconds ≡ self.seconds + days * 86400
unfolding added_seconds
added_value self days seconds s = ground arith

added :
    (self : UtcTimestamp) (days : ℕ) (sum : Result TimeError ℕ) (t : UtcTimestamp)
    → added_seconds self days ≡ sum
    → convert sum ≡ some (ok t)
    → t.seconds ≡ self.seconds + days * 86400
added self days (err e) t s h = absurd (cc)
added self days (ok seconds) t s h =
    Converts-seconds seconds (from_unix_seconds seconds) t (from_unix_seconds-Converts seconds) h
    ∙ added_value self days seconds s

-- A timestamp that `checked_add_days` returns is later by just that many days, and `duration_since`
-- says so.
pub duration_since-checked_add_days :
    (self t : UtcTimestamp) (days : ℕ)
    → checked_add_days self days ≡ some (ok t)
    → duration_since t self ≡ ok (days * 86400)
unfolding duration_since checked_add_days
duration_since-checked_add_days self t days h =
    let e = added self days (added_seconds self days) t refl h in ground (arith, e)
