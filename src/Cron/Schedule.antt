-- ===== src/Cron/Schedule.antt =====
-- `Next` of shared/api/cron/schedule.go. What it calls of package time, in the location of its
-- argument, is a parameter. Parsing an expression is not modelled.
pub mod Next
pub mod Least
mod Tests
use ainsel.Prelude.{
  ℕ, zero, suc, ◌+◌, ◌-◌, ◌*◌, ◌/◌, ◌%◌, ◌^◌, Bool, true, false, not, ◌&&◌, ◌||◌, List, [], ◌∷◌,
  Option, none, some, if◌then◌else◌, nat_beq, ltb,
}
use ainsel.Prelude.Time.{Instant, minute}

-- A field that is nil is "*".
pub record Schedule : Type 0 where
  pub minute : Option ℕ
  pub hour : Option ℕ
  pub dom : Option ℕ
  pub month : Option ℕ
  pub dow : Option ℕ

-- `b & (1 << v) != 0`
abbrev pub has : ℕ → ℕ → Bool
has b v = nat_beq (b / 2 ^ v % 2) 1

abbrev pub allows : Option ℕ → ℕ → Bool
allows none v = true
allows (some b) v = has b v

pub record Date : Type 0 where
  pub month : ℕ
  pub day : ℕ
  pub weekday : ℕ

-- The methods and functions of package time: `Year`, `Month`, `Day`, `Weekday`, `Date` with a year, a
-- month, a day, an hour and a minute, and `AddDate` with years, months and days.
pub record TimePackage : Type 0 where
  pub year : Instant → ℕ
  pub month : Instant → ℕ
  pub day : Instant → ℕ
  pub weekday : Instant → ℕ
  pub date : ℕ → ℕ → ℕ → ℕ → ℕ → Instant
  pub add_date : Instant → ℕ → ℕ → ℕ → Instant

-- The values of the loop over `cur`: its dates in order, how many there are before the limit, and the
-- candidate of each hour and minute of a date.
pub record Calendar : Type 0 where
  pub date : ℕ → Date
  pub days : ℕ
  pub at : ℕ → ℕ → ℕ → Instant

abbrev pub either_day : Option ℕ → Option ℕ → Date → Bool
either_day (some dom) (some dow) d = has dom d.day || has dow d.weekday
either_day (some dom) none d = has dom d.day
either_day none (some dow) d = has dow d.weekday
either_day none none d = true

unfoldable pub matches_day : Schedule → Date → Bool
matches_day s d = allows s.month d.month && either_day s.dom s.dow d

-- A loop with an early return, over `count` numbers from a first one on.
abbrev pub first_from : (ℕ → Option Instant) → ℕ → ℕ → Option Instant
first_from f start zero = none
first_from f start (suc count) = elim (f start) [
  | some r ↦ some r
  | none ↦ first_from f (suc start) count
]

unfoldable pub at_minute : Schedule → Calendar → Instant → ℕ → ℕ → ℕ → Option Instant
at_minute s c t i h m = if allows s.minute m && ltb t (c.at i h m) then some (c.at i h m) else none

unfoldable pub in_hour : Schedule → Calendar → Instant → ℕ → ℕ → Option Instant
in_hour s c t i h = if allows s.hour h then first_from (at_minute s c t i h) 0 60 else none

unfoldable pub in_day : Schedule → Calendar → Instant → ℕ → Option Instant
in_day s c t i = if matches_day s (c.date i) then first_from (in_hour s c t i) 0 24 else none

-- The three loops; `none` is the zero time.
unfoldable pub scan : Schedule → Calendar → Instant → Option Instant
scan s c t = first_from (in_day s c t) 0 c.days

-- `t.Truncate(time.Minute).Add(time.Minute)`
unfoldable pub origin : Instant → Instant
origin t = t / minute * minute + minute

unfoldable pub limit : TimePackage → Instant → Instant
limit p t = p.add_date (origin t) 5 0 0

-- `cur` after a number of times `cur = cur.AddDate(0, 0, 1)`
unfoldable pub step : TimePackage → ℕ → Instant → Instant
step p zero cur = cur
step p (suc n) cur = step p n (p.add_date cur 0 0 1)

-- How often `cur.Before(limit)` holds, on fuel.
abbrev pub count_days : TimePackage → Instant → ℕ → Instant → ℕ
count_days p end zero cur = 0
count_days p end (suc fuel) cur = elim (ltb cur end) [
  | true ↦ suc (count_days p end fuel (p.add_date cur 0 0 1))
  | false ↦ 0
]

-- `time.Date(cur.Year(), cur.Month(), cur.Day(), h, m, 0, 0, loc)`
unfoldable pub candidate : TimePackage → Instant → ℕ → ℕ → Instant
candidate p cur h m = p.date (p.year cur) (p.month cur) (p.day cur) h m

unfoldable pub date_of : TimePackage → Instant → Date
date_of p cur = record { month = p.month cur; day = p.day cur; weekday = p.weekday cur }

-- The days of the loop. An `AddDate` of a day advances the time, so that there are no more of them
-- than nanoseconds between the origin and the limit.
unfoldable pub calendar : TimePackage → Instant → Calendar
calendar p t = record {
  date = λ i. date_of p (step p i (origin t));
  days = count_days p (limit p t) (limit p t - origin t) (origin t);
  at = λ i h m. candidate p (step p i (origin t)) h m;
}

unfoldable pub next_run : Schedule → TimePackage → Instant → Option Instant
next_run s p t = scan s (calendar p t) t
