-- ===== src/Cron/Schedule/Next.antt =====
-- That `Next` of shared/api/cron/schedule.go finds the first run after a time.
use ainsel.Prelude.{
  ℕ, zero, suc, ◌+◌, ◌<◌, ◌≤◌, Bool, true, false, ◌&&◌, ◌≡◌, ◌∙◌, ◌≢◌, refl, sym, subst, inl, inr,
  Option, none, some, if◌then◌else◌, ltb, arith, Bool-cases, Option-cases, lt→ltb, ltb→lt,
}
use mathlib.Core.Option.{none-ne-some, some-injective}
use ainsel.Prelude.Time.{Instant}
use ainsel.Cron.Schedule.{
  Schedule, Calendar, allows, matches_day, first_from, at_minute, in_hour, in_day, scan,
}

-- The loop returns what its body returns for the first number with a result.
module _ (f : ℕ → Option Instant) where
  first_step :
      (start count : ℕ) (o : Option Instant)
      → f start ≡ o
      → first_from f start (suc count)
        ≡ elim o [ some r ↦ some r | none ↦ first_from f (suc start) count ]
  first_step start count o e = rw (first_from, e) refl

  pub first_from-found :
      (start count : ℕ) (r : Instant)
      → first_from f start count ≡ some r
      → (k : ℕ) × (start ≤ k) × (k < start + count) × (f k ≡ some r)
  first_from-found start zero r e = absurd (none-ne-some _ e)
  first_from-found start (suc count) r e = elim (Option-cases (f start)) [
    | inl miss ↦
        let (k, low, high, hit) =
          first_from-found (suc start) count r (sym (first_step start count none miss) ∙ e) in
        (k, omega (arith, low), omega (arith, high), hit)
    | inr (q, hit) ↦
        (start, omega arith, omega arith, hit ∙ sym (first_step start count (some q) hit) ∙ e)
  ]

  -- If some number has a result, the loop returns one of a number that is not later.
  pub first_from-finds :
      (start count k : ℕ) (r : Instant)
      → start ≤ k
      → k < start + count
      → f k ≡ some r
      → (q : Instant) × (j : ℕ) × (first_from f start count ≡ some q) × (j ≤ k) × (f j ≡ some q)
  first_from-finds start zero k r low high hit = absurd (omega (arith, low, high))
  first_from-finds start (suc count) k r low high hit = elim (Option-cases (f start)) [
    | inl miss ↦
        let other : start ≢ k =
          λ e. none-ne-some _ (sym miss ∙ subst (λ x. f x ≡ some r) (sym e) hit) in
        let (q, j, e, le, found) =
          first_from-finds (suc start) count k r (ground (arith, low, other)) (omega (arith, high))
            hit in
        (q, j, first_step start count none miss ∙ e, le, found)
    | inr (q, found) ↦ (q, start, first_step start count (some q) found, low, found)
  ]

-- A minute of a date before the limit at which the schedule fires.
pub record IsRun (s : Schedule) (c : Calendar) (i h m : ℕ) : Type 0 where
  pub within : i < c.days
  pub hour_within : h < 24
  pub minute_within : m < 60
  pub day : matches_day s (c.date i) ≡ true
  pub hour : allows s.hour h ≡ true
  pub minute : allows s.minute m ≡ true

-- Later dates, hours and minutes are no earlier instants.
pub record IsOrdered (c : Calendar) : Type 0 where
  pub by_day :
      (i j h k m n : ℕ) → i < j → h < 24 → m < 60 → k < 24 → n < 60 → c.at i h m ≤ c.at j k n
  pub by_hour : (i h k m n : ℕ) → h < k → k < 24 → m < 60 → n < 60 → c.at i h m ≤ c.at i k n
  pub by_minute : (i h m n : ℕ) → m ≤ n → n < 60 → c.at i h m ≤ c.at i h n

guarded :
    (b : Bool) (o : Option Instant) (r : Instant)
    → (if b then o else none) ≡ some r
    → (b ≡ true) × (o ≡ some r)
guarded true o r e = (refl, e)
guarded false o r e = absurd (none-ne-some _ e)

module _ (s : Schedule) (c : Calendar) (t : Instant) where
  minute-found :
      (i h m : ℕ) (r : Instant)
      → at_minute s c t i h m ≡ some r
      → (allows s.minute m ≡ true) × (t < c.at i h m) × (c.at i h m ≡ r)
  unfolding at_minute
  minute-found i h m r e =
      let (g, same) = guarded (allows s.minute m && ltb t (c.at i h m)) (some (c.at i h m)) r e in
      (ground arith, ground (arith, g), some-injective _ _ same)

  hour-found :
      (i h : ℕ) (r : Instant)
      → in_hour s c t i h ≡ some r
      → (m : ℕ) × (m < 60)
        × (allows s.hour h ≡ true)
        × (allows s.minute m ≡ true)
        × (t < c.at i h m)
        × (c.at i h m ≡ r)
  unfolding in_hour
  hour-found i h r e =
      let (a, loop) = guarded (allows s.hour h) _ r e in
      let (m, low, high, hit) = first_from-found (at_minute s c t i h) 0 60 r loop in
      let (b, later, same) = minute-found i h m r hit in (m, omega (arith, high), a, b, later, same)

  day-found :
      (i : ℕ) (r : Instant)
      → in_day s c t i ≡ some r
      → (h m : ℕ) × (h < 24)
        × (m < 60)
        × (matches_day s (c.date i) ≡ true)
        × (allows s.hour h ≡ true)
        × (allows s.minute m ≡ true)
        × (t < c.at i h m)
        × (c.at i h m ≡ r)
  unfolding in_day
  day-found i r e =
      let (d, loop) = guarded (matches_day s (c.date i)) _ r e in
      let (h, low, high, hit) = first_from-found (in_hour s c t i) 0 24 r loop in
      let (m, mh, a, b, later, same) = hour-found i h r hit in
      (h, m, omega (arith, high), mh, d, a, b, later, same)

  -- What `Next` returns is a run after the time.
  pub scan-IsRun :
      (r : Instant)
      → scan s c t ≡ some r
      → (i h m : ℕ) × IsRun s c i h m × (c.at i h m ≡ r) × (t < r)
  unfolding scan
  scan-IsRun r e =
      let (i, low, high, hit) = first_from-found (in_day s c t) 0 c.days r e in
      let (h, m, hh, mh, d, a, b, later, same) = day-found i r hit in
      (
        i,
        h,
        m,
        record {
          within = omega (arith, high);
          hour_within = hh;
          minute_within = mh;
          day = d;
          hour = a;
          minute = b;
        },
        same,
        subst (λ x. t < x) same later,
      )

  module _ (ordered : IsOrdered c) (i h m : ℕ) (run : IsRun s c i h m)
      (later : t < c.at i h m) where
    hour-finds : (r : Instant) × (in_hour s c t i h ≡ some r) × (r ≤ c.at i h m)
    unfolding in_hour at_minute
    hour-finds =
        let here : at_minute s c t i h m ≡ some (c.at i h m) =
          rw (run.minute, lt→ltb t (c.at i h m) later) refl in
        let (q, j, e, le, hit) =
          first_from-finds (at_minute s c t i h) 0 60 m (c.at i h m) (omega arith)
            (omega (arith, run.minute_within)) here in
        let (b, after, same) = minute-found i h j q hit in
        (
          q,
          rw (run.hour, if◌then◌else◌) e,
          subst (λ x. x ≤ c.at i h m) same (ordered.by_minute i h j m le run.minute_within),
        )

    day-finds : (r : Instant) × (in_day s c t i ≡ some r) × (r ≤ c.at i h m)
    unfolding in_day
    day-finds =
        let (p, found, before) = hour-finds in
        let (q, j, e, le, hit) =
          first_from-finds (in_hour s c t i) 0 24 h p (omega arith) (omega (arith, run.hour_within))
            found in
        let (n, nh, a, b, after, same) = hour-found i j q hit in
        (
          q,
          rw (run.day, if◌then◌else◌) e,
          elim (Bool-cases (ltb j h)) [
            | inl less ↦
                subst (λ x. x ≤ c.at i h m) same
                  (ordered.by_hour i j h n m (ltb→lt j h less) run.hour_within nh run.minute_within)
            | inr equal ↦
                let one : j ≡ h = ground (arith, le, equal) in
                let both : q ≡ p =
                  some-injective _ _
                    (sym hit ∙ subst (λ x. in_hour s c t i x ≡ some p) (sym one) found) in
                subst (λ x. x ≤ c.at i h m) (sym both) before
          ],
        )

    -- If there is a run after the time before the limit, `Next` returns one, and none is earlier.
    pub scan-IsFirst : (r : Instant) × (scan s c t ≡ some r) × (r ≤ c.at i h m)
    unfolding scan
    scan-IsFirst =
        let (p, found, before) = day-finds in
        let (q, j, e, le, hit) =
          first_from-finds (in_day s c t) 0 c.days i p (omega arith) (omega (arith, run.within))
            found in
        let (k, n, kh, nh, d, a, b, after, same) = day-found j q hit in
        (
          q,
          e,
          elim (Bool-cases (ltb j i)) [
            | inl less ↦
                subst (λ x. x ≤ c.at i h m) same
                  (ordered.by_day j i k h n m (ltb→lt j i less) kh nh run.hour_within
                    run.minute_within)
            | inr equal ↦
                let one : j ≡ i = ground (arith, le, equal) in
                let both : q ≡ p =
                  some-injective _ _
                    (sym hit ∙ subst (λ x. in_day s c t x ≡ some p) (sym one) found) in
                subst (λ x. x ≤ c.at i h m) (sym both) before
          ],
        )
