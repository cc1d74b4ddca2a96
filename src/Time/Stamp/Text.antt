-- ===== src/Time/Stamp/Text.antt =====
-- Which texts `UtcTimestamp::parse` of rust/src/update/time.rs accepts, and with which seconds.
use mathlib.Core.Path.{subst}
use pkgre.Prelude.{
  ℕ, ◌+◌, ◌-◌, ◌*◌, ◌/◌, ◌%◌, ◌≤◌, ◌≡◌, ◌↔◌, refl, sym, ap, ◌∙◌, arith, [], ◌∷◌, ◌++◌, Bytes, all,
  true, ok, ensure, >>=-eq-ok, ok_inj,
}
use pkgre.Schema.{UtcTimestamp}
use pkgre.Time.{epoch_shift, days_in_month}
use pkgre.Time.Calendar.{days_of, days_from_civil_lem, months_before}
use pkgre.Time.Stamp.{
  Clock, decimal, parse_u32, is_ascii_digit, take, drop, is_canonical_form, read_fields,
  check_fields, seconds_of, parse, format, pad_four, pad_two, bad_form,
}

-- A date from 1970 to 9999 and a time of its day.
pub record IsClock (c : Clock) : Type 0 where
  pub year_in : (1970 ≤ c.date.year) × (c.date.year ≤ 9999)
  pub month_in : (1 ≤ c.date.month) × (c.date.month ≤ 12)
  pub day_in : (1 ≤ c.date.day) × (c.date.day ≤ days_in_month c.date.year c.date.month)
  pub hour_in : c.hour ≤ 23
  pub minute_in : c.minute ≤ 59
  pub second_in : c.second ≤ 59

-- The seconds from the epoch.
abbrev pub total : Clock → ℕ
total c = (days_of c.date - epoch_shift) * 86400 + c.hour * 3600 + c.minute * 60 + c.second

check_fields_iff : (c : Clock) → (check_fields c ≡ ok tt) ↔ IsClock c
unfolding check_fields
check_fields_iff c = (λ h. ground arith, λ h. ground arith)

months_of_year :
    (y m d : ℕ)
    → 1970 ≤ y
    → y ≤ 9999
    → 1 ≤ m
    → m ≤ 12
    → 1 ≤ d
    → d ≤ 31
    → (epoch_shift + 1 ≤ months_before y m + d) × (months_before y m + d ≤ 3652425)
months_of_year y m d hy hy' hm hm' hd hd' = ground arith

pub short_month : (y m : ℕ) → days_in_month y m ≤ 31
unfolding days_in_month
short_month y m = ground arith

pub day_range :
    (c : Clock) → IsClock c → (epoch_shift ≤ days_of c.date) × (days_of c.date ≤ 3652424)
day_range c v = omega (
  arith,
  days_from_civil_lem c.date.year c.date.month c.date.day,
  v.month_in,
  v.day_in,
  short_month c.date.year c.date.month,
  months_of_year c.date.year c.date.month c.date.day v.year_in.0 v.year_in.1 v.month_in.0
      v.month_in.1 v.day_in.0 (omega (arith, v.day_in, short_month c.date.year c.date.month)),
)

seconds_of_lem : (c : Clock) → IsClock c → seconds_of c ≡ ok (total c)
unfolding seconds_of
seconds_of_lem c v =
    let range = day_range c v in
    ground (arith, range.0, range.1, v.hour_in, v.minute_in, v.second_in)

decimal-eq-ok :
    (field : Bytes) (n : ℕ)
    → decimal field ≡ ok n
    → (all is_ascii_digit field ≡ true) × (parse_u32 0 field ≡ n)
unfolding decimal
decimal-eq-ok field n h = (ground arith, ground arith)

two_digits : (a b n : ℕ) → decimal (a ∷ b ∷ []) ≡ ok n → pad_two n ≡ a ∷ b ∷ []
two_digits a b n h =
    let (digits, value) = decimal-eq-ok (a ∷ b ∷ []) n h in
    let tens : b'0' + n / 10 ≡ a = ground (arith, digits, value) in
    let ones : b'0' + n % 10 ≡ b = ground (arith, digits, value) in λ i. tens i ∷ ones i ∷ []

four_digits :
    (a b c d n : ℕ) → decimal (a ∷ b ∷ c ∷ d ∷ []) ≡ ok n → pad_four n ≡ a ∷ b ∷ c ∷ d ∷ []
four_digits a b c d n h =
    let (digits, value) = decimal-eq-ok (a ∷ b ∷ c ∷ d ∷ []) n h in
    let thousands : b'0' + n / 1000 ≡ a = ground (arith, digits, value) in
    let hundreds : b'0' + n / 100 % 10 ≡ b = ground (arith, digits, value) in
    let tens : b'0' + n / 10 % 10 ≡ c = ground (arith, digits, value) in
    let ones : b'0' + n % 10 ≡ d = ground (arith, digits, value) in
    λ i. thousands i ∷ hundreds i ∷ tens i ∷ ones i ∷ []

decimal-pad_two : (n : ℕ) → n ≤ 99 → decimal (pad_two n) ≡ ok n
unfolding decimal
decimal-pad_two n h = ground arith

decimal-pad_four : (n : ℕ) → n ≤ 9999 → decimal (pad_four n) ≡ ok n
unfolding decimal
decimal-pad_four n h = ground arith

-- What the six fields of a text are read as.
record Reads (value : Bytes) (c : Clock) : Type 0 where
  year : decimal (take 4 value) ≡ ok c.date.year
  month : decimal (take 2 (drop 5 value)) ≡ ok c.date.month
  day : decimal (take 2 (drop 8 value)) ≡ ok c.date.day
  hour : decimal (take 2 (drop 11 value)) ≡ ok c.hour
  minute : decimal (take 2 (drop 14 value)) ≡ ok c.minute
  second : decimal (take 2 (drop 17 value)) ≡ ok c.second

read_fields-Reads : (value : Bytes) (c : Clock) → read_fields value ≡ ok c → Reads value c
unfolding read_fields
read_fields-Reads value c h =
    let (y, ey, h1) = >>=-eq-ok (decimal (take 4 value)) _ h in
    let (m, em, h2) = >>=-eq-ok (decimal (take 2 (drop 5 value))) _ h1 in
    let (d, ed, h3) = >>=-eq-ok (decimal (take 2 (drop 8 value))) _ h2 in
    let (o, eo, h4) = >>=-eq-ok (decimal (take 2 (drop 11 value))) _ h3 in
    let (n, en, h5) = >>=-eq-ok (decimal (take 2 (drop 14 value))) _ h4 in
    let (s, es, h6) = >>=-eq-ok (decimal (take 2 (drop 17 value))) _ h5 in
    subst (Reads value) (ok_inj h6)
      (record { year = ey; month = em; day = ed; hour = eo; minute = en; second = es })

format-Reads :
    (value : Bytes) (c : Clock) → is_canonical_form value ≡ true → Reads value c → format c ≡ value
unfolding is_canonical_form format
format-Reads
      (y1 ∷ y2 ∷ y3 ∷ y4 ∷ s1 ∷ m1 ∷ m2 ∷ s2 ∷ d1 ∷ d2 ∷ s3 ∷ h1 ∷ h2 ∷ s4 ∷ n1 ∷ n2 ∷ s5 ∷ k1 ∷ k2
        ∷ s6 ∷ [])
      c form r =
    let e1 : b'-' ≡ s1 = ground arith in
    let e2 : b'-' ≡ s2 = ground arith in
    let e3 : b'T' ≡ s3 = ground arith in
    let e4 : b':' ≡ s4 = ground arith in
    let e5 : b':' ≡ s5 = ground arith in
    let e6 : b'Z' ≡ s6 = ground arith in
    let year = four_digits y1 y2 y3 y4 c.date.year r.year in
    let month = two_digits m1 m2 c.date.month r.month in
    let day = two_digits d1 d2 c.date.day r.day in
    let hour = two_digits h1 h2 c.hour r.hour in
    let minute = two_digits n1 n2 c.minute r.minute in
    let second = two_digits k1 k2 c.second r.second in
    λ i.
      year i
      ++ (e1 i ∷ month i
          ++ (e2 i ∷ day i
              ++ (e3 i ∷ hour i ++ (e4 i ∷ minute i ++ (e5 i ∷ second i ++ (e6 i ∷ []))))))
format-Reads _ c form r = absurd (ground arith)

read_fields-format : (c : Clock) → IsClock c → read_fields (format c) ≡ ok c
unfolding read_fields format
read_fields-format c v = rw (
  decimal-pad_four c.date.year v.year_in.1,
  decimal-pad_two c.date.month (omega (arith, v.month_in)),
  decimal-pad_two c.date.day (omega (arith, v.day_in, short_month c.date.year c.date.month)),
  decimal-pad_two c.hour (omega (arith, v.hour_in)),
  decimal-pad_two c.minute (omega (arith, v.minute_in)),
  decimal-pad_two c.second (omega (arith, v.second_in)),
)

format-is_canonical_form : (c : Clock) → is_canonical_form (format c) ≡ true
unfolding is_canonical_form format
format-is_canonical_form c = refl

pub parse-format :
    (c : Clock) → IsClock c → parse (format c) ≡ ok (record { seconds = total c; text = format c })
unfolding parse
parse-format c v = rw (
  format-is_canonical_form c,
  read_fields-format c v,
  (check_fields_iff c).1 v,
  seconds_of_lem c v,
)

-- What an accepted text stands for.
pub record IsStamp (value : Bytes) (t : UtcTimestamp) : Type 0 where
  pub clock : Clock
  pub valid : IsClock clock
  pub printed : value ≡ format clock
  pub seconds : t.seconds ≡ total clock
  pub text : t.text ≡ value

parse-IsStamp : (value : Bytes) (t : UtcTimestamp) → parse value ≡ ok t → IsStamp value t
unfolding parse
parse-IsStamp value t h =
    let (_, form, h1) = >>=-eq-ok (ensure (is_canonical_form value) bad_form) _ h in
    let (c, read, h2) = >>=-eq-ok (read_fields value) _ h1 in
    let (_, checked, h3) = >>=-eq-ok (check_fields c) _ h2 in
    let (seconds, counted, h4) = >>=-eq-ok (seconds_of c) _ h3 in
    let valid = (check_fields_iff c).0 checked in
    let made = ok_inj h4 in
    record {
      clock = c;
      valid = valid;
      printed = sym (format-Reads value c (ground (arith, form)) (read_fields-Reads value c read));
      seconds =
          sym (ap (λ (x : UtcTimestamp). x.seconds) made)
          ∙ ok_inj (sym counted ∙ seconds_of_lem c valid);
      text = sym (ap (λ (x : UtcTimestamp). x.text) made);
    }

-- A text is accepted exactly when it is the canonical form of a date from 1970 to 9999 and a time of
-- the day; the timestamp keeps the text and counts the seconds from the epoch.
pub parse_iff : (value : Bytes) (t : UtcTimestamp) → (parse value ≡ ok t) ↔ IsStamp value t
parse_iff value t = (
  parse-IsStamp value t,
  λ s.
      ap parse s.printed
      ∙ parse-format s.clock s.valid
      ∙ ap ok (λ i. record { seconds = sym s.seconds i; text = (sym s.printed ∙ sym s.text) i }),
)
