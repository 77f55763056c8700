-- ===== src/Cron/Schedule/Tests.antt =====
-- Nine o'clock on the first of a month and on Sundays, in a calendar of twelve months of thirty days.
use ainsel.Prelude.{
  ℕ, suc, ◌+◌, ◌-◌, ◌*◌, ◌/◌, ◌%◌, ◌≤◌, ◌<◌, ◌≡◌, refl, ap, inr, none, some, arith,
}
use ainsel.Prelude.Time.{Instant, minute}
use ainsel.Cron.Schedule.{Schedule, TimePackage, Date, origin, limit, candidate, date_of, next_run}
use ainsel.Cron.Schedule.Least.{IsTimePackage, Names, NamesDay, Fires, next_run-IsLeast}

abbrev at_nine : Schedule
at_nine = record { minute = some 1; hour = some 512; dom = some 2; month = none; dow = some 1 }

-- The nanoseconds of a day and of an hour.
abbrev whole_day : ℕ
whole_day = 86400000000000

abbrev whole_hour : ℕ
whole_hour = 3600000000000

abbrev even_months : TimePackage
even_months = record {
  year = λ t. t / whole_day / 360;
  month = λ t. suc (t / whole_day / 30 % 12);
  day = λ t. suc (t / whole_day % 30);
  weekday = λ t. t / whole_day % 7;
  date =
      λ y mo d h m. (y * 360 + (mo - 1) * 30 + (d - 1)) * whole_day + h * whole_hour + m * minute;
  add_date = λ t y mo d. t + (y * 360 + mo * 30 + d) * whole_day;
}

days_of : (n : ℕ) → n / 360 * 360 + (suc (n / 30 % 12) - 1) * 30 + (suc (n % 30) - 1) ≡ n
days_of n = omega arith

candidate_is :
    (t : Instant) (h m : ℕ)
    → candidate even_months t h m ≡ t / whole_day * whole_day + h * whole_hour + m * minute
unfolding candidate
candidate_is t h m =
    ap (λ (n : ℕ). n * whole_day + h * whole_hour + m * minute) (days_of (t / whole_day))

abbrev of_day : ℕ → Date
of_day n = record { month = suc (n / 30 % 12); day = suc (n % 30); weekday = n % 7 }

even_months-IsTimePackage : IsTimePackage even_months
unfolding date_of
even_months-IsTimePackage = record {
  number = λ t. t / whole_day;
  in_order = λ t u le. omega (arith, le);
  next_day = λ t. omega arith;
  same_date = λ t u e. (
    ap of_day e,
    λ h m.
        rw (candidate_is t h m, candidate_is u h m)
          (ap (λ (n : ℕ). n * whole_day + h * whole_hour + m * minute) e),
  );
  on_day = λ t h m hh mh. rw (candidate_is t h m) (omega (arith, hh, mh));
  whole = λ t h m hh mh. rw (candidate_is t h m) (omega arith);
  by_hour = λ t h k m n less kh mh nh.
      omega (arith, candidate_is t h m, candidate_is t k n, less, kh, mh, nh);
  by_minute = λ t h m n le nh. omega (arith, candidate_is t h m, candidate_is t h n, le, nh);
}

-- Five past nine on the first of the first month, and the Sunday after it.
abbrev five_past_nine : Instant
five_past_nine = 32700000000000

abbrev sunday : Instant
sunday = 7 * whole_day

sunday-Fires : Fires at_nine even_months sunday 9 0
unfolding Names NamesDay
sunday-Fires = record {
  hour_within = omega arith;
  minute_within = omega arith;
  month = tt;
  day = inr refl;
  hour = refl;
  minute = refl;
}

next_run-IsLeast_example :
    (r : Instant) × (next_run at_nine even_months five_past_nine ≡ some r)
    × (r ≤ candidate even_months sunday 9 0)
    × (five_past_nine < r)
    × ((v : Instant) × (k n : ℕ) × Fires at_nine even_months v k n
        × (candidate even_months v k n ≡ r))
unfolding candidate limit origin even_months-IsTimePackage
next_run-IsLeast_example =
    next_run-IsLeast even_months even_months-IsTimePackage at_nine five_past_nine sunday 9 0
      sunday-Fires (omega arith) (omega arith)
