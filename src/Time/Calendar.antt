-- ===== src/Time/Calendar.antt =====
-- The calendar of rust/src/update/time.rs.
use pkgre.Prelude.{
  ℕ, ◌+◌, ◌-◌, ◌*◌, ◌/◌, ◌≤◌, ◌<◌, ◌≡◌, ◌⊎◌, refl, zero, suc, arith, ltb, leb, if◌then◌else◌,
}
use pkgre.Time.{Civil, is_leap_year, days_in_month, days_from_civil}

-- The year of the era, from the centuries, the four-year cycles and the years that have passed.
pub year_digits :
    (doe c q y t : ℕ)
    → doe ≡ 36524 * c + 1461 * q + 365 * y + t
    → c ≤ 3
    → q ≤ 24
    → y ≤ 3
    → (t ≤ 364) ⊎ ((t ≡ 365) × (y ≡ 3) × ((q < 24) ⊎ (c ≡ 3)))
    → (doe - doe / 1460 + doe / 36524 - doe / 146096) / 365 ≡ 100 * c + 4 * q + y
year_digits doe c q y t e hc hq hy ht = omega arith

pub month_digits :
    (doy : ℕ)
    → doy ≤ 365
    → ((153 * ((5 * doy + 2) / 153) + 2) / 5 ≤ doy)
      × (doy - (153 * ((5 * doy + 2) / 153) + 2) / 5 ≤ 30)
      × ((5 * doy + 2) / 153 ≤ 11)
month_digits doy h = omega arith

pub record IsDate (c : Civil) : Type 0 where
  pub year_in : 1 ≤ c.year
  pub month_in : (1 ≤ c.month) × (c.month ≤ 12)
  pub day_in : (1 ≤ c.day) × (c.day ≤ days_in_month c.year c.month)

abbrev pub days_of : Civil → ℕ
days_of c = days_from_civil c.year c.month c.day

-- The day after, by the calendar.
unfoldable pub next : Civil → Civil
next c =
    if ltb c.day (days_in_month c.year c.month)
    then record c { day = c.day + 1 }
    else if ltb c.month 12
    then record { year = c.year; month = c.month + 1; day = 1 }
    else record { year = c.year + 1; month = 1; day = 1 }

-- The days before the first of March of a year.
abbrev pub years_before : ℕ → ℕ
years_before y = 365 * y + y / 4 - y / 100 + y / 400

years_before-suc :
    (y : ℕ) → years_before (y + 1) ≡ years_before y + (if is_leap_year (y + 1) then 366 else 365)
unfolding is_leap_year
years_before-suc y = ground arith

-- The days before the first of a month, from the two years that the source counts from.
abbrev pub months_before : ℕ → ℕ → ℕ
months_before y m =
    if leb m 2
    then years_before (y - 1) + (153 * (m + 9) + 2) / 5
    else years_before y + (153 * (m - 3) + 2) / 5

era_years :
    (y : ℕ)
    → y / 400 * 146097
        + ((y - y / 400 * 400) * 365 + (y - y / 400 * 400) / 4 - (y - y / 400 * 400) / 100)
      ≡ years_before y
era_years y = omega arith

pub days_from_civil_lem :
    (y m d : ℕ) → 1 ≤ m → 1 ≤ d → days_from_civil y m d + 1 ≡ months_before y m + d
unfolding days_from_civil
days_from_civil_lem y m d hm hd = ground (arith, era_years y, era_years (y - 1))

pub late_month :
    (y m : ℕ)
    → 3 ≤ m
    → m < 12
    → (153 * (m + 1 - 3) + 2) / 5 ≡ (153 * (m - 3) + 2) / 5 + days_in_month y m
unfolding days_in_month
late_month y m h lt = ground arith

pub february : (y : ℕ) → days_in_month y 2 ≡ (if is_leap_year y then 29 else 28)
unfolding days_in_month
february y = refl

pub january : (y : ℕ) → days_in_month y 1 ≡ 31
unfolding days_in_month
january y = refl

months_before-suc :
    (y m : ℕ)
    → 1 ≤ y
    → 1 ≤ m
    → m < 12
    → months_before y (m + 1) ≡ months_before y m + days_in_month y m
months_before-suc y zero hy hm h = absurd (omega arith)
months_before-suc y (suc zero) hy hm h = omega (arith, january y)
months_before-suc (suc y) (suc (suc zero)) hy hm h =
    ground (arith, february (suc y), years_before-suc y)
months_before-suc y (suc (suc (suc m))) hy hm h = ground (arith, late_month y (suc (suc (suc m))))
months_before-suc zero (suc (suc zero)) hy hm h = absurd (omega arith)

year_end : (y : ℕ) → 1 ≤ y → months_before (y + 1) 1 ≡ months_before y 12 + 31
year_end y hy = omega arith

pub december : (y : ℕ) → days_in_month y 12 ≡ 31
unfolding days_in_month
december y = refl

-- Day numbers count the days of the calendar, one after another.
pub days_from_civil-next : (c : Civil) → IsDate c → days_of (next c) ≡ days_of c + 1
unfolding next
days_from_civil-next c d = ground (
  arith,
  days_from_civil_lem c.year c.month c.day,
  days_from_civil_lem c.year c.month (c.day + 1),
  days_from_civil_lem c.year (c.month + 1) 1,
  days_from_civil_lem (c.year + 1) 1 1,
  months_before-suc c.year c.month,
  year_end c.year,
  december c.year,
)
