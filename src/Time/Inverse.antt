-- ===== src/Time/Inverse.antt =====
-- `civil_from_days` of rust/src/update/time.rs, by the March-based year that it goes through.
use mathlib.Core.Path.{subst}
use pkgre.Prelude.{
  ℕ, ◌+◌, ◌-◌, ◌*◌, ◌/◌, ◌≤◌, ◌<◌, ◌≡◌, ◌⊎◌, inl, inr, refl, sym, ap, ◌∙◌, arith, ltb, leb,
  if◌then◌else◌, true, ◌==◌, ==_iff, Bool-cases,
}
use pkgre.Time.{Civil, is_leap_year, days_in_month, civil_from_days, year_of_era, month_prime}
use pkgre.Time.Calendar.{
  IsDate, days_of, years_before, days_from_civil_lem, late_month, january, february, december,
  year_digits,
}

-- A number below a day's era, by centuries, four-year cycles, years and days.
record Digits (doe : ℕ) : Type 0 where
  century : ℕ
  cycle : ℕ
  year : ℕ
  day : ℕ
  sum : doe ≡ 36524 * century + 1461 * cycle + 365 * year + day
  century_in : century ≤ 3
  cycle_in : cycle ≤ 24
  year_in : year ≤ 3
  day_in : (day ≤ 364) ⊎ ((day ≡ 365) × (year ≡ 3) × ((cycle < 24) ⊎ (century ≡ 3)))

abbrev at_most_three : ℕ → ℕ
at_most_three n = if ltb n 3 then n else 3

Digits-of : (doe : ℕ) → doe < 146097 → Digits doe
Digits-of doe h =
    let c = at_most_three (doe / 36524) in
    let r = doe - 36524 * c in
    let q = r / 1461 in
    let s = r - 1461 * q in
    let y = at_most_three (s / 365) in
    record {
      century = c;
      cycle = q;
      year = y;
      day = s - 365 * y;
      sum = ground arith;
      century_in = ground arith;
      cycle_in = ground arith;
      year_in = ground arith;
      day_in = ground arith;
    }

-- A date from the March-based year and the day of that year.
abbrev pub assemble : ℕ → ℕ → Civil
assemble year day =
    let mp = month_prime day in
    let month = if ltb mp 10 then mp + 3 else mp - 9 in
    record {
      year = year + (if leb month 2 then 1 else 0);
      month = month;
      day = day - (153 * mp + 2) / 5 + 1;
    }

-- A day of a March-based year.
pub record IsDayOf (year day : ℕ) : Type 0 where
  pub within : day ≤ 365
  pub leap : day ≡ 365 → is_leap_year (year + 1) ≡ true

leap_end :
    (era c q y : ℕ)
    → y ≡ 3
    → q ≤ 24
    → (q < 24) ⊎ (c ≡ 3)
    → is_leap_year (100 * c + 4 * q + y + era * 400 + 1) ≡ true
unfolding is_leap_year
leap_end era c q y hy hq h = ground arith

assembled :
    (era doe : ℕ) (g : Digits doe)
    → (year_of_era doe ≡ 100 * g.century + 4 * g.cycle + g.year)
      × (years_before (100 * g.century + 4 * g.cycle + g.year + era * 400) + g.day
          ≡ era * 146097 + doe)
      × IsDayOf (100 * g.century + 4 * g.cycle + g.year + era * 400) g.day
assembled era doe g = (
  year_digits doe g.century g.cycle g.year g.day g.sum g.century_in g.cycle_in g.year_in g.day_in,
  omega (arith, g.sum, g.century_in, g.cycle_in, g.year_in, g.day_in),
  record {
    within = omega (arith, g.day_in);
    leap = λ e.
        leap_end era g.century g.cycle g.year (omega (arith, g.day_in, e)) g.cycle_in
          (last_cycle e g.day_in);
  },
)
  where
    last_cycle :
        g.day ≡ 365
        → (g.day ≤ 364) ⊎ ((g.day ≡ 365) × (g.year ≡ 3) × ((g.cycle < 24) ⊎ (g.century ≡ 3)))
        → (g.cycle < 24) ⊎ (g.century ≡ 3)
    last_cycle e (inl small) = absurd (omega (arith, small, e))
    last_cycle e (inr (_, _, h)) = h

-- The date that `civil_from_days` computes, by the year and the day that it goes through.
pub record Split (days : ℕ) : Type 0 where
  pub year : ℕ
  pub day : ℕ
  pub is_day : IsDayOf year day
  pub sum : years_before year + day ≡ days
  pub result : civil_from_days days ≡ assemble year day

pub Split-days : (days : ℕ) → Split days
unfolding civil_from_days
Split-days days =
    let era = days / 146097 in
    let doe = days - era * 146097 in
    let g = Digits-of doe (omega arith) in
    let (yoe, sum, is_day) = assembled era doe g in
    let doy : doe - (365 * year_of_era doe + year_of_era doe / 4 - year_of_era doe / 100) ≡ g.day =
      rw yoe (omega (arith, g.sum, g.century_in, g.cycle_in, g.year_in, g.day_in)) in
    record {
      year = 100 * g.century + 4 * g.cycle + g.year + era * 400;
      day = g.day;
      is_day = is_day;
      sum = omega (arith, sum);
      result =
          ap (λ (d : ℕ). assemble (year_of_era doe + era * 400) d) doy
          ∙ ap (λ (y : ℕ). assemble (y + era * 400) g.day) yoe;
    }

-- The month of a day of the March-based year, and the day of that month.
abbrev month_day : ℕ → ℕ → ℕ
month_day mp day = day - (153 * mp + 2) / 5 + 1

late_day :
    (year day mp : ℕ)
    → mp ≡ month_prime day
    → mp < 9
    → month_day mp day ≤ days_in_month year (mp + 3)
late_day year day mp e h = omega (arith, e, late_month year (mp + 3) (omega arith) (omega arith))

last_day :
    (year day : ℕ) → IsDayOf year day → 337 ≤ day → month_day 11 day ≤ days_in_month (year + 1) 2
last_day year day d h = elim (Bool-cases (day == 365)) [
  | inl end ↦
      let e : day ≡ 365 = (==_iff day 365).0 end in ground (arith, february (year + 1), d.leap e, e)
  | inr inside ↦ ground (arith, february (year + 1), d.within)
]

abbrev month_of : ℕ → ℕ
month_of mp = if ltb mp 10 then mp + 3 else mp - 9

abbrev Fits : ℕ → ℕ → ℕ → Type 0
Fits year day mp =
    month_day mp day ≤ days_in_month (year + (if leb (month_of mp) 2 then 1 else 0)) (month_of mp)

month_cases : (mp : ℕ) → mp ≤ 11 → (mp < 9) ⊎ (mp ≡ 9) ⊎ (mp ≡ 10) ⊎ (mp ≡ 11)
month_cases mp h = omega arith

early-Fits : (year day mp : ℕ) → mp ≡ month_prime day → mp < 9 → Fits year day mp
early-Fits year day mp e h =
    let month : month_of mp ≡ mp + 3 = ground arith in
    let same : ◌≡◌ {A = ℕ} (if leb (mp + 3) 2 then 1 else 0) 0 = ground arith in
    rw (month, same) (late_day (year + 0) day mp e h)

Fits-by_month :
    (year day mp : ℕ)
    → IsDayOf year day
    → mp ≡ month_prime day
    → (mp < 9) ⊎ (mp ≡ 9) ⊎ (mp ≡ 10) ⊎ (mp ≡ 11)
    → Fits year day mp
Fits-by_month year day mp d e (inl h) = early-Fits year day mp e h
Fits-by_month year day mp d e (inr (inl h)) =
    subst (Fits year day) (sym h) (omega (arith, december (year + 0), e, h))
Fits-by_month year day mp d e (inr (inr (inl h))) =
    subst (Fits year day) (sym h) (omega (arith, january (year + 1), e, h))
Fits-by_month year day mp d e (inr (inr (inr h))) =
    subst (Fits year day) (sym h) (last_day year day d (omega (arith, e, h)))

day_fits :
    (year day : ℕ)
    → IsDayOf year day
    → (assemble year day).day ≤ days_in_month (assemble year day).year (assemble year day).month
day_fits year day d =
    Fits-by_month year day (month_prime day) d refl
      (month_cases (month_prime day) (omega (arith, d.within)))

assemble-IsDate :
    (year day : ℕ) → IsDayOf year day → 306 ≤ years_before year + day → IsDate (assemble year day)
assemble-IsDate year day d h = record {
  year_in = ground (arith, d.within);
  month_in = ground (arith, d.within);
  day_in = (omega arith, day_fits year day d);
}

days_of-assemble :
    (year day : ℕ) → IsDayOf year day → days_of (assemble year day) ≡ years_before year + day
days_of-assemble year day d =
    let lem =
      days_from_civil_lem (assemble year day).year (assemble year day).month
        (assemble year day).day in
    ground (arith, d.within, lem)

-- Every day from 0001-01-01 on has a date, and it is the date with that day number.
pub days_from_civil-civil_from_days :
    (days : ℕ)
    → 306 ≤ days
    → IsDate (civil_from_days days) × (days_of (civil_from_days days) ≡ days)
days_from_civil-civil_from_days days h =
    let s = Split-days days in
    (
      subst IsDate (sym s.result) (assemble-IsDate s.year s.day s.is_day (omega (arith, s.sum, h))),
      ap days_of s.result ∙ days_of-assemble s.year s.day s.is_day ∙ s.sum,
    )
