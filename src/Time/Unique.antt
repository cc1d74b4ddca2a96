-- ===== src/Time/Unique.antt =====
-- `civil_from_days` of rust/src/update/time.rs undoes `days_from_civil`.
use mathlib.Core.Path.{subst}
use pkgre.Prelude.{
  ℕ, ◌+◌, ◌-◌, ◌*◌, ◌/◌, ◌≤◌, ◌<◌, ◌≡◌, ◌⊎◌, inl, inr, sym, ap, ◌∙◌, arith, ltb, leb, if◌then◌else◌,
  true, ◌==◌, ==_iff, Bool-cases,
}
use pkgre.Time.{Civil, is_leap_year, days_in_month, civil_from_days}
use pkgre.Time.Calendar.{
  IsDate, days_of, years_before, days_from_civil_lem, late_month, january, february, december,
}
use pkgre.Time.Inverse.{IsDayOf, Split-days, assemble}

common_year : (y : ℕ) → is_leap_year (y + 1) ≡ true → years_before (y + 1) ≡ years_before y + 366
unfolding is_leap_year
common_year y h = ground arith

before_year : (y z t s : ℕ) → IsDayOf y t → y < z → years_before y + t < years_before z + s
before_year y z t s d lt = elim (Bool-cases (t == 365)) [
  | inl end ↦ let e : t ≡ 365 = (==_iff t 365).0 end in omega (arith, common_year y (d.leap e), e)
  | inr inside ↦ let small : t ≤ 364 = ground (arith, d.within) in omega (arith, small)
]

split_unique :
    (y z t s : ℕ)
    → IsDayOf y t
    → IsDayOf z s
    → years_before y + t ≡ years_before z + s
    → (y ≡ z) × (t ≡ s)
split_unique y z t s d d' e = grind (arith, before_year y z t s d, before_year z y s t d')

-- The March-based month, year and day of a date.
abbrev shifted : ℕ → ℕ
shifted m = if ltb 2 m then m - 3 else m + 9

abbrev march_year : Civil → ℕ
march_year c = if leb c.month 2 then c.year - 1 else c.year

abbrev march_day : Civil → ℕ
march_day c = (153 * shifted c.month + 2) / 5 + c.day - 1

-- A month is one of January, February, December and those between.
month_kinds : (m : ℕ) → 1 ≤ m → m ≤ 12 → (m ≡ 1) ⊎ (m ≡ 2) ⊎ (m ≡ 12) ⊎ ((3 ≤ m) × (m < 12))
month_kinds m h h' = omega arith

-- The day of the year falls into its month.
abbrev Falls : ℕ → ℕ → Type 0
Falls sm day =
    (((153 * sm + 2) / 5 + day - 1) ≤ 365) × ((5 * ((153 * sm + 2) / 5 + day - 1) + 2) / 153 ≡ sm)

days_fall :
    (y m d : ℕ)
    → 1 ≤ d
    → d ≤ days_in_month y m
    → (m ≡ 1) ⊎ (m ≡ 2) ⊎ (m ≡ 12) ⊎ ((3 ≤ m) × (m < 12))
    → Falls (shifted m) d
days_fall y m d h le (inl e) =
    subst (λ (k : ℕ). Falls (shifted k) d) (sym e)
      (omega (arith, january y, ap (days_in_month y) e, le, h))
days_fall y m d h le (inr (inl e)) =
    let short : days_in_month y 2 ≤ 29 = ground (arith, february y) in
    subst (λ (k : ℕ). Falls (shifted k) d) (sym e)
      (omega (arith, short, ap (days_in_month y) e, le, h))
days_fall y m d h le (inr (inr (inl e))) =
    subst (λ (k : ℕ). Falls (shifted k) d) (sym e)
      (omega (arith, december y, ap (days_in_month y) e, le, h))
days_fall y m d h le (inr (inr (inr (lo, hi)))) =
    let month : shifted m ≡ m - 3 = ground arith in rw month (omega (arith, late_month y m lo hi))

falls : (c : Civil) → IsDate c → Falls (shifted c.month) c.day
falls c v =
    days_fall c.year c.month c.day v.day_in.0 v.day_in.1
      (month_kinds c.month v.month_in.0 v.month_in.1)

-- Only the 29th of February is the 366th day.
leap_day : (y m d : ℕ) → m ≡ 2 → d ≡ 29 → d ≤ days_in_month y m → is_leap_year y ≡ true
leap_day y m d hm hd le =
    let fits : 29 ≤ days_in_month y 2 = omega (arith, ap (days_in_month y) hm, hd, le) in
    ground (arith, february y)

march-IsDayOf : (c : Civil) → IsDate c → IsDayOf (march_year c) (march_day c)
march-IsDayOf c v = record {
  within = (falls c v).0;
  leap = λ e.
      let month : shifted c.month ≡ 11 = omega (arith, (falls c v).1, e) in
      let second : c.month ≡ 2 = ground (arith, month, v.month_in) in
      let last : c.day ≡ 29 = omega (arith, month, e, v.day_in) in
      let year : march_year c + 1 ≡ c.year = ground (arith, second, v.year_in) in
      ap is_leap_year year ∙ leap_day c.year c.month c.day second last v.day_in.1;
}

march_sum : (c : Civil) → IsDate c → years_before (march_year c) + march_day c ≡ days_of c
march_sum c v =
    let lem = days_from_civil_lem c.year c.month c.day v.month_in.0 v.day_in.0 in
    ground (arith, lem, v.day_in)

-- `assemble`, at a given month.
abbrev assemble_at : ℕ → ℕ → ℕ → Civil
assemble_at year day mp =
    let month = if ltb mp 10 then mp + 3 else mp - 9 in
    record {
      year = year + (if leb month 2 then 1 else 0);
      month = month;
      day = day - (153 * mp + 2) / 5 + 1;
    }

month_back :
    (m : ℕ) → 1 ≤ m → m ≤ 12 → (if ltb (shifted m) 10 then shifted m + 3 else shifted m - 9) ≡ m
month_back m h h' = ground arith

march-assemble : (c : Civil) → IsDate c → assemble (march_year c) (march_day c) ≡ c
march-assemble c v =
    let month = month_back c.month v.month_in.0 v.month_in.1 in
    let year : march_year c + (if leb c.month 2 then 1 else 0) ≡ c.year =
      ground (arith, v.year_in) in
    let day : march_day c - (153 * shifted c.month + 2) / 5 + 1 ≡ c.day =
      omega (arith, v.day_in.0) in
    ap (assemble_at (march_year c) (march_day c)) (falls c v).1
    ∙ (λ i. record {
      year = march_year c + (if leb (month i) 2 then 1 else 0);
      month = month i;
      day = day i;
    })
    ∙ (λ i. record { year = year i; month = c.month; day = c.day })

-- The date of the day number of a date is that date.
pub civil_from_days-days_from_civil : (c : Civil) → IsDate c → civil_from_days (days_of c) ≡ c
civil_from_days-days_from_civil c v =
    let s = Split-days (days_of c) in
    let (year, day) =
      split_unique s.year (march_year c) s.day (march_day c) s.is_day (march-IsDayOf c v)
        (s.sum ∙ sym (march_sum c v)) in
    s.result ∙ (λ i. assemble (year i) (day i)) ∙ march-assemble c v
