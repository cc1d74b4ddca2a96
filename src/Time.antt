-- ===== src/Time.antt =====
-- Whole-second UTC timestamps: rust/src/update/time.rs. Every signed value there is at least
-- -719468, and stands here with that shift, so that it is a natural number.
pub mod Calendar
pub mod Inverse
pub mod Unique
pub mod Stamp
use pkgre.Prelude.{
  ℕ, ◌+◌, ◌-◌, ◌*◌, ◌/◌, ◌%◌, ◌^◌, Bool, true, false, not, ◌&&◌, ◌||◌, leb, ltb, ◌==◌,
  if◌then◌else◌,
}

abbrev pub seconds_per_day : ℕ
seconds_per_day = 86400

-- The days from 0000-03-01 to 1970-01-01.
abbrev pub epoch_shift : ℕ
epoch_shift = 719468

pub record Civil : Type 0 where
  pub year : ℕ
  pub month : ℕ
  pub day : ℕ

unfoldable pub is_leap_year : ℕ → Bool
is_leap_year year = (year % 4 == 0) && (not (year % 100 == 0) || year % 400 == 0)

unfoldable pub days_in_month : ℕ → ℕ → ℕ
unfolding is_leap_year
days_in_month year month =
    if month == 1
      || month == 3
      || month == 5
      || month == 7
      || month == 8
      || month == 10
      || month == 12
    then 31
    else if month == 4 || month == 6 || month == 9 || month == 11
    then 30
    else if month == 2
    then (if is_leap_year year then 29 else 28)
    else 0

abbrev day_of_era : ℕ → ℕ → ℕ
day_of_era year_of_era day_of_year =
    year_of_era * 365 + year_of_era / 4 - year_of_era / 100 + day_of_year

abbrev day_of_year : ℕ → ℕ → ℕ
day_of_year shifted_month day = (153 * shifted_month + 2) / 5 + day - 1

-- `days_from_civil`, plus 719468.
unfoldable pub days_from_civil : ℕ → ℕ → ℕ → ℕ
days_from_civil year month day =
    let year' = if leb month 2 then year - 1 else year in
    let era = year' / 400 in
    let shifted_month = if ltb 2 month then month - 3 else month + 9 in
    era * 146097 + day_of_era (year' - era * 400) (day_of_year shifted_month day)

abbrev year_of_era : ℕ → ℕ
year_of_era day_of_era =
    (day_of_era - day_of_era / 1460 + day_of_era / 36524 - day_of_era / 146096) / 365

abbrev month_prime : ℕ → ℕ
month_prime day_of_year = (5 * day_of_year + 2) / 153

-- `civil_from_days`, at days plus 719468, before its conversions to u32.
unfoldable pub civil_from_days : ℕ → Civil
civil_from_days days =
    let era = days / 146097 in
    let doe = days - era * 146097 in
    let yoe = year_of_era doe in
    let doy = doe - (365 * yoe + yoe / 4 - yoe / 100) in
    let mp = month_prime doy in
    let month = if ltb mp 10 then mp + 3 else mp - 9 in
    record {
      year = yoe + era * 400 + (if leb month 2 then 1 else 0);
      month = month;
      day = doy - (153 * mp + 2) / 5 + 1;
    }
