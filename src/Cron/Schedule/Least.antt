-- ===== src/Cron/Schedule/Least.antt =====
-- That `Next` of shared/api/cron/schedule.go skips no run, on the days that package time counts.
use ainsel.Prelude.{
  ℕ, zero, suc, ◌+◌, ◌-◌, ◌/◌, ◌%◌, ◌^◌, ◌<◌, ◌≤◌, true, false, ◌≡◌, refl, sym, subst, ◌⊎◌, ◌↔◌,
  inl, inr, Option, none, some, ltb, arith, Bool-cases, lt→ltb,
}
use ainsel.Prelude.Time.{Instant, minute}
use ainsel.Cron.Schedule.{
  Schedule, TimePackage, Date, allows, either_day, matches_day, origin, limit, step, count_days,
  candidate, date_of, calendar, next_run,
}
use ainsel.Cron.Schedule.Next.{IsRun, IsOrdered, scan-IsRun, scan-IsFirst}

-- What package time documents, for a location with a fixed offset of whole minutes from UTC:
-- instants lie on numbered days, in order; the fields of a date depend on the day only; `AddDate`
-- of one day goes to the next day; and `Date` gives whole minutes of its day, in order.
pub record IsTimePackage (p : TimePackage) : Type 0 where
  pub number : Instant → ℕ
  pub in_order : (t u : Instant) → t ≤ u → number t ≤ number u
  pub next_day : (t : Instant) → number (p.add_date t 0 0 1) ≡ suc (number t)
  pub same_date :
      (t u : Instant)
      → number t ≡ number u
      → (date_of p t ≡ date_of p u) × ((h m : ℕ) → candidate p t h m ≡ candidate p u h m)
  pub on_day : (t : Instant) (h m : ℕ) → h < 24 → m < 60 → number (candidate p t h m) ≡ number t
  pub whole : (t : Instant) (h m : ℕ) → h < 24 → m < 60 → candidate p t h m % minute ≡ 0
  pub by_hour :
      (t : Instant) (h k m n : ℕ)
      → h < k
      → k < 24
      → m < 60
      → n < 60
      → candidate p t h m ≤ candidate p t k n
  pub by_minute : (t : Instant) (h m n : ℕ) → m ≤ n → n < 60 → candidate p t h m ≤ candidate p t h n

-- A number that a field of the expression names; "*" names all.
unfoldable pub Names : Option ℕ → ℕ → Type 0
Names none v = Unit
Names (some bits) v = bits / 2 ^ v % 2 ≡ 1

-- The two fields for days: where both are restricted, one of them suffices.
unfoldable pub NamesDay : Option ℕ → Option ℕ → ℕ → ℕ → Type 0
NamesDay none none day weekday = Unit
NamesDay (some dom) none day weekday = Names (some dom) day
NamesDay none (some dow) day weekday = Names (some dow) weekday
NamesDay (some dom) (some dow) day weekday = Names (some dom) day ⊎ Names (some dow) weekday

-- The schedule fires at an hour and a minute of the day of an instant.
pub record Fires (s : Schedule) (p : TimePackage) (t : Instant) (h m : ℕ) : Type 0 where
  pub hour_within : h < 24
  pub minute_within : m < 60
  pub month : Names s.month (p.month t)
  pub day : NamesDay s.dom s.dow (p.day t) (p.weekday t)
  pub hour : Names s.hour h
  pub minute : Names s.minute m

allows_iff : (f : Option ℕ) (v : ℕ) → (allows f v ≡ true) ↔ Names f v
unfolding Names
allows_iff none v = (λ h. tt, λ h. refl)
allows_iff (some b) v = (λ h. ground (arith, h), λ h. ground (arith, h))

either_day_iff :
    (dom dow : Option ℕ) (d : Date)
    → (either_day dom dow d ≡ true) ↔ NamesDay dom dow d.day d.weekday
unfolding Names NamesDay
either_day_iff none none d = (λ h. tt, λ h. refl)
either_day_iff (some dom) none d = allows_iff (some dom) d.day
either_day_iff none (some dow) d = allows_iff (some dow) d.weekday
either_day_iff (some dom) (some dow) d = (
  λ h. elim (Bool-cases (allows (some dom) d.day)) [
    | inl e ↦ inl ((allows_iff (some dom) d.day).0 e)
    | inr e ↦ inr ((allows_iff (some dow) d.weekday).0 (rw e at h))
  ],
  λ h. elim h [
    | inl e ↦ ground (arith, (allows_iff (some dom) d.day).1 e)
    | inr e ↦ ground (arith, (allows_iff (some dow) d.weekday).1 e)
  ],
)

matches_day_iff :
    (s : Schedule) (d : Date)
    → (matches_day s d ≡ true) ↔ (Names s.month d.month × NamesDay s.dom s.dow d.day d.weekday)
unfolding matches_day
matches_day_iff s d = (
  λ h. elim (Bool-cases (allows s.month d.month)) [
    | inl e ↦ ((allows_iff s.month d.month).0 e, (either_day_iff s.dom s.dow d).0 (rw e at h))
    | inr e ↦ absurd (off (rw e at h))
  ],
  λ (m, d'). rw ((allows_iff s.month d.month).1 m, (either_day_iff s.dom s.dow d).1 d') refl,
)
  where
    off : false ≡ true → ⊥
    off h = cc h

module _ (p : TimePackage) (laws : IsTimePackage p) where
  later : (t u : Instant) → laws.number t < laws.number u → t < u
  later t u h = elim (Bool-cases (ltb t u)) [
    | inl e ↦ ground arith
    | inr e ↦
        let back : laws.number u ≤ laws.number t = laws.in_order u t (ground (arith, e)) in
        absurd (omega (arith, back, h))
  ]

  number-step : (n : ℕ) (t : Instant) → laws.number (step p n t) ≡ laws.number t + n
  unfolding step
  number-step zero t = omega arith
  number-step (suc n) t = omega (arith, number-step n (p.add_date t 0 0 1), laws.next_day t)

  step-advances : (n : ℕ) (t : Instant) → t + n ≤ step p n t
  unfolding step
  step-advances zero t = omega arith
  step-advances (suc n) t =
      let forward : t < p.add_date t 0 0 1 =
        later t (p.add_date t 0 0 1) (omega (arith, laws.next_day t)) in
      omega (arith, step-advances n (p.add_date t 0 0 1), forward)

  counted :
      (end cur : Instant) (fuel : ℕ)
      → cur < end
      → count_days p end (suc fuel) cur ≡ suc (count_days p end fuel (p.add_date cur 0 0 1))
  counted end cur fuel h = rw (count_days, lt→ltb cur end h) refl

  -- The fuel is enough: a day before the limit is counted.
  count_days-reaches :
      (end : Instant) (fuel i : ℕ) (cur : Instant)
      → i < fuel
      → step p i cur < end
      → i < count_days p end fuel cur
  unfolding step
  count_days-reaches end zero i cur less h = absurd (omega (arith, less))
  count_days-reaches end (suc fuel) zero cur less h = rw (counted end cur fuel h) (omega arith)
  count_days-reaches end (suc fuel) (suc i) cur less h =
      let here : cur < end = omega (arith, step-advances (suc i) cur, h) in
      let rest = count_days-reaches end fuel i (p.add_date cur 0 0 1) (omega (arith, less)) h in
      rw (counted end cur fuel here) (omega (arith, rest))

  calendar-IsOrdered : (t : Instant) → IsOrdered (calendar p t)
  unfolding calendar
  calendar-IsOrdered t = record {
    by_day = λ i j h k m n less hh mh kh nh.
        let a = laws.on_day (step p i (origin t)) h m hh mh in
        let b = laws.on_day (step p j (origin t)) k n kh nh in
        let before =
          later (candidate p (step p i (origin t)) h m) (candidate p (step p j (origin t)) k n)
            (omega (arith, a, b, number-step i (origin t), number-step j (origin t), less)) in
        omega (arith, before);
    by_hour = λ i h k m n. laws.by_hour (step p i (origin t)) h k m n;
    by_minute = λ i h m n. laws.by_minute (step p i (origin t)) h m n;
  }

  next_minute : (t r : Instant) → r % minute ≡ 0 → t < r → origin t ≤ r
  unfolding origin
  next_minute t r w h = omega (arith, w, h)

  -- `Next` loses no run and skips none. With package time as documented, in a location with a
  -- fixed offset of whole minutes from UTC (no clock changes): if the schedule fires at some minute
  -- after the time, on a day before the day of the limit (five years after the next minute), then
  -- `Next` returns an instant, which is not later than that minute, lies after the time, and is itself
  -- a minute at which the schedule fires. To fire on a day, the month must be named, and of the two fields for days each that is
  -- restricted, or one of them where both are.
  pub next_run-IsLeast :
      (s : Schedule) (t u : Instant) (h m : ℕ)
      → Fires s p u h m
      → t < candidate p u h m
      → laws.number u < laws.number (limit p t)
      → (r : Instant) × (next_run s p t ≡ some r)
        × (r ≤ candidate p u h m)
        × (t < r)
        × ((v : Instant) × (k n : ℕ) × Fires s p v k n × (candidate p v k n ≡ r))
  unfolding next_run calendar date_of
  next_run-IsLeast s t u h m fires after soon =
      let start = origin t in
      let on = laws.on_day u h m fires.hour_within fires.minute_within in
      let from_start = laws.in_order start (candidate p u h m) (
        next_minute t (candidate p u h m) (laws.whole u h m fires.hour_within fires.minute_within)
          after) in
      let i = laws.number u - laws.number start in
      let here : laws.number (step p i start) ≡ laws.number u =
        omega (arith, number-step i start, on, from_start) in
      let before : step p i start < limit p t =
        later (step p i start) (limit p t) (omega (arith, here, soon)) in
      let (same, at_same) = laws.same_date (step p i start) u here in
      let within =
        count_days-reaches (limit p t) (limit p t - start) i start
          (omega (arith, step-advances i start, before)) before in
      let run : IsRun s (calendar p t) i h m = record {
        within = within;
        hour_within = fires.hour_within;
        minute_within = fires.minute_within;
        day = (matches_day_iff s (date_of p (step p i start))).1 (
            subst (λ (d : Date). Names s.month d.month × NamesDay s.dom s.dow d.day d.weekday)
              (sym same) (fires.month, fires.day));
        hour = (allows_iff s.hour h).1 fires.hour;
        minute = (allows_iff s.minute m).1 fires.minute;
      } in
      let (r, found, le) =
        scan-IsFirst s (calendar p t) t (calendar-IsOrdered t) i h m run
          (subst (λ x. t < x) (sym (at_same h m)) after) in
      let (j, k, n, is_run, is_r, late) = scan-IsRun s (calendar p t) t r found in
      let (month, day) = (matches_day_iff s (date_of p (step p j start))).0 is_run.day in
      (
        r,
        found,
        subst (λ x. r ≤ x) (at_same h m) le,
        late,
        (
          step p j start,
          k,
          n,
          record {
            hour_within = is_run.hour_within;
            minute_within = is_run.minute_within;
            month = month;
            day = day;
            hour = (allows_iff s.hour k).0 is_run.hour;
            minute = (allows_iff s.minute n).0 is_run.minute;
          },
          is_r,
        ),
      )
