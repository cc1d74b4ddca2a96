-- ===== src/Time/Stamp.antt =====
-- `UtcTimestamp` of rust/src/update/time.rs: its text, its seconds, and arithmetic on it. A
-- function that can panic returns an `Option`, `none` for the panic.
pub mod Text
pub mod Seconds
use pkgre.Prelude.{
  ℕ, zero, suc, ◌+◌, ◌-◌, ◌*◌, ◌/◌, ◌%◌, ◌^◌, [], ◌∷◌, ◌++◌, List, Bytes, length, all, Bool, true,
  false, not, ◌&&◌, ◌||◌, leb, ltb, ◌==◌, if◌then◌else◌, Option, none, some, Result, ok, err, ◌>>=◌,
  ◌>>◌, ensure, ok_or,
}
use pkgre.Schema.{UtcTimestamp}
use pkgre.Time.{
  Civil, seconds_per_day, epoch_shift, days_in_month, days_from_civil, civil_from_days,
}

pub data TimeError : Type 0 where
  bad_form bad_digits bad_year bad_month bad_day bad_hour bad_minute bad_second : TimeError
  before_epoch overflow beyond_9999 in_future : TimeError

-- `value.as_bytes()[i] == byte`, at an index that is in range.
abbrev pub has_byte : ℕ → ℕ → Bytes → Bool
has_byte i byte [] = false
has_byte zero byte (c ∷ value) = c == byte
has_byte (suc i) byte (c ∷ value) = has_byte i byte value

abbrev pub take : ℕ → Bytes → Bytes
take zero value = []
take (suc n) [] = []
take (suc n) (c ∷ value) = c ∷ take n value

abbrev pub drop : ℕ → Bytes → Bytes
drop zero value = value
drop (suc n) [] = []
drop (suc n) (c ∷ value) = drop n value

abbrev pub is_ascii_digit : ℕ → Bool
is_ascii_digit byte = leb b'0' byte && leb byte b'9'

-- `str::parse::<u32>` of at most four digits, with the value of those in front.
abbrev pub parse_u32 : ℕ → Bytes → ℕ
parse_u32 value [] = value
parse_u32 value (c ∷ text) = parse_u32 (value * 10 + (c - b'0')) text

-- `decimal`, on the bytes of the field.
unfoldable pub decimal : Bytes → Result TimeError ℕ
decimal field = do ensure (all is_ascii_digit field) bad_digits; ok (parse_u32 0 field)

unfoldable pub is_canonical_form : Bytes → Bool
is_canonical_form value =
    length value == 20
    && has_byte 4 b'-' value
    && has_byte 7 b'-' value
    && has_byte 10 b'T' value
    && has_byte 13 b':' value
    && has_byte 16 b':' value
    && has_byte 19 b'Z' value

abbrev pub checked_mul : ℕ → ℕ → Option ℕ
checked_mul a b = if ltb (a * b) (2 ^ 64) then some (a * b) else none

abbrev pub checked_add : ℕ → ℕ → Option ℕ
checked_add a b = if ltb (a + b) (2 ^ 64) then some (a + b) else none

pub record Clock : Type 0 where
  pub date : Civil
  pub hour : ℕ
  pub minute : ℕ
  pub second : ℕ

unfoldable pub read_fields : Bytes → Result TimeError Clock
unfolding decimal
read_fields value = do
  year ← decimal (take 4 value)
  month ← decimal (take 2 (drop 5 value))
  day ← decimal (take 2 (drop 8 value))
  hour ← decimal (take 2 (drop 11 value))
  minute ← decimal (take 2 (drop 14 value))
  second ← decimal (take 2 (drop 17 value))
  ok (record {
    date = record { year = year; month = month; day = day };
    hour = hour;
    minute = minute;
    second = second;
  })

unfoldable pub check_fields : Clock → Result TimeError (Unit {0})
check_fields c = do
  ensure (leb 1970 c.date.year && leb c.date.year 9999) bad_year
  ensure (leb 1 c.date.month && leb c.date.month 12) bad_month
  ensure (leb 1 c.date.day && leb c.date.day (days_in_month c.date.year c.date.month)) bad_day
  ensure (leb c.hour 23) bad_hour
  ensure (leb c.minute 59) bad_minute
  ensure (leb c.second 59) bad_second

-- The seconds since the epoch. `days_from_civil` stands with its shift, so the day count is negative
-- when it is below the shift.
unfoldable pub seconds_of : Clock → Result TimeError ℕ
seconds_of c = do
  let shifted = days_from_civil c.date.year c.date.month c.date.day
  ensure (leb epoch_shift shifted) before_epoch
  days ← ok_or (checked_mul (shifted - epoch_shift) seconds_per_day) overflow
  hours ← ok_or (checked_add days (c.hour * 60 * 60)) overflow
  minutes ← ok_or (checked_add hours (c.minute * 60)) overflow
  ok_or (checked_add minutes c.second) overflow

-- `UtcTimestamp::parse`.
unfoldable pub parse : Bytes → Result TimeError UtcTimestamp
unfolding is_canonical_form read_fields check_fields seconds_of
parse value = do
  ensure (is_canonical_form value) bad_form
  clock ← read_fields value
  check_fields clock
  seconds ← seconds_of clock
  ok (record { seconds = seconds; text = value })

-- `{:04}` and `{:02}`, of numbers of at most that many digits.
abbrev pub pad_four : ℕ → Bytes
pad_four n = (b'0' + n / 1000) ∷ (b'0' + n / 100 % 10) ∷ (b'0' + n / 10 % 10) ∷ (b'0' + n % 10) ∷ []

abbrev pub pad_two : ℕ → Bytes
pad_two n = (b'0' + n / 10) ∷ (b'0' + n % 10) ∷ []

-- `format!("{year:04}-{month:02}-{day:02}T{hour:02}:{minute:02}:{second:02}Z")`.
unfoldable pub format : Clock → Bytes
format c =
    pad_four c.date.year
    ++ (b'-' ∷ pad_two c.date.month
        ++ (b'-' ∷ pad_two c.date.day
            ++ (b'T' ∷ pad_two c.hour
                ++ (b':' ∷ pad_two c.minute ++ (b':' ∷ pad_two c.second ++ (b'Z' ∷ []))))))

-- `UtcTimestamp::from_unix_seconds`, behind `civil_from_days`. The conversion of the year to u32
-- panics if it does not fit.
unfoldable pub from_civil : Civil → ℕ → Option (Result TimeError UtcTimestamp)
unfolding format parse
from_civil date day_seconds =
    if not (ltb date.year (2 ^ 32))
    then none
    else if not (leb date.year 9999)
    then some (err beyond_9999)
    else some (
        parse (
          format (record {
            date = date;
            hour = day_seconds / (60 * 60);
            minute = day_seconds % (60 * 60) / 60;
            second = day_seconds % 60;
          })))

unfoldable pub from_unix_seconds : ℕ → Option (Result TimeError UtcTimestamp)
unfolding from_civil
from_unix_seconds seconds =
    from_civil (civil_from_days (seconds / seconds_per_day + epoch_shift))
      (seconds % seconds_per_day)

-- `UtcTimestamp::duration_since`.
unfoldable pub duration_since : UtcTimestamp → UtcTimestamp → Result TimeError ℕ
duration_since self earlier =
    if leb earlier.seconds self.seconds then ok (self.seconds - earlier.seconds) else err in_future

-- `UtcTimestamp::checked_add_days`.
unfoldable pub added_seconds : UtcTimestamp → ℕ → Result TimeError ℕ
added_seconds self days = do
  value ← ok_or (checked_mul days seconds_per_day) overflow
  ok_or (checked_add self.seconds value) overflow

abbrev pub convert : Result TimeError ℕ → Option (Result TimeError UtcTimestamp)
convert (ok seconds) = from_unix_seconds seconds
convert (err e) = some (err e)

unfoldable pub checked_add_days : UtcTimestamp → ℕ → Option (Result TimeError UtcTimestamp)
unfolding added_seconds
checked_add_days self days = convert (added_seconds self days)
