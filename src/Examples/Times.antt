-- ===== src/Examples/Times.antt =====
-- The calendar and the timestamps at concrete days and texts.
use pkgre.Prelude.{◌*◌, ◌≡◌, ◌↔◌, refl, arith, Bytes, codes, some, ok, err}
use pkgre.Schema.{UtcTimestamp}
use pkgre.Time.{Civil, days_in_month, days_from_civil, civil_from_days}
use pkgre.Time.Calendar.{IsDate, days_of}
use pkgre.Time.Unique.{civil_from_days-days_from_civil}
use pkgre.Time.Stamp.{bad_day, parse, from_unix_seconds, checked_add_days, duration_since}
use pkgre.Time.Stamp.Text.{IsStamp, parse_iff}
use pkgre.Time.Stamp.Seconds.{
  Converts, from_unix_seconds-Converts, from_unix_seconds-parse, duration_since-checked_add_days,
}

abbrev leap_day : Civil
leap_day = record { year = 2024; month = 2; day = 29 }

leap_day-IsDate : IsDate leap_day
unfolding days_in_month
leap_day-IsDate = omega arith

civil_from_days-days_from_civil_example : civil_from_days (days_of leap_day) ≡ leap_day
civil_from_days-days_from_civil_example = civil_from_days-days_from_civil leap_day leap_day-IsDate

epoch : days_from_civil 1970 1 1 ≡ 719468
unfolding days_from_civil
epoch = refl

abbrev leap_text : Bytes
leap_text = codes "2024-02-29T12:34:56Z"

abbrev leap_stamp : UtcTimestamp
leap_stamp = record { seconds = 1709210096; text = leap_text }

leap_parses : parse leap_text ≡ ok leap_stamp
unfolding parse days_in_month days_from_civil
leap_parses = refl

common_refused : parse (codes "2023-02-29T12:34:56Z") ≡ err bad_day
unfolding parse days_in_month
common_refused = refl

parse_iff_example : (parse leap_text ≡ ok leap_stamp) ↔ IsStamp leap_text leap_stamp
parse_iff_example = parse_iff leap_text leap_stamp

from_unix_seconds-Converts_example : Converts 1709210096 (from_unix_seconds 1709210096)
from_unix_seconds-Converts_example = from_unix_seconds-Converts 1709210096

from_unix_seconds-parse_example : from_unix_seconds 1709210096 ≡ some (ok leap_stamp)
from_unix_seconds-parse_example = from_unix_seconds-parse leap_text leap_stamp leap_parses

abbrev later_stamp : UtcTimestamp
later_stamp = record { seconds = 1709382896; text = codes "2024-03-02T12:34:56Z" }

two_days_later : checked_add_days leap_stamp 2 ≡ some (ok later_stamp)
unfolding checked_add_days from_unix_seconds civil_from_days days_in_month days_from_civil
two_days_later = refl

duration_since-checked_add_days_example : duration_since later_stamp leap_stamp ≡ ok (2 * 86400)
duration_since-checked_add_days_example =
    duration_since-checked_add_days leap_stamp later_stamp 2 two_days_later
