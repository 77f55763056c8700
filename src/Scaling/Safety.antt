-- ===== src/Scaling/Safety.antt =====
-- When operators/agent/internal/controller/scaling.go may take the last pod away, and that queued
-- work always finds one.
use ainsel.Prelude.{
  ◌+◌, ◌≤◌, ◌≡◌, ◌≢◌, refl, ◌⊎◌, inl, inr, Option, none, some, true, arith, Bool-cases,
}
use ainsel.Prelude.Int.{ℤ, pos, ◌≤ℤ◌, ltb_ℤ, ◌+ℤ◌, wrap32, IsInt32, wrap32_of_IsInt32}
use ainsel.Prelude.Time.{Instant, Duration, time_sub}
use ainsel.Scaling.Bounds.{floor_under}
use ainsel.Scaling.{
  Render, Reconciler, Agent, hold_stale, serve_queue, wind_down, by_signal, by_floor, max_replicas,
  min_replicas, resolve_replicas, scale_down_window, queue_signal, signal_at, is_usable,
  queue_signal_ttl, quiet_for,
}

-- What the code trusts: a stamp that is not the zero time, at most the TTL old, and at most 30
-- seconds ahead of this clock.
pub record IsFresh (agent : Agent) (now : Instant) (ttl : Duration) : Type 0 where
  pub observed : Instant
  pub stamped : agent.queue_observed_at ≡ some observed
  pub set : observed ≢ 0
  pub recent : time_sub now observed ≤ℤ ttl
  pub not_ahead : observed ≤ now + 30000000000

is_usable-fresh :
    (observed now : Instant) (ttl : Duration)
    → is_usable observed now ttl ≡ true
    → (observed ≢ 0) × (time_sub now observed ≤ℤ ttl) × (observed ≤ now + 30000000000)
unfolding is_usable time_sub
is_usable-fresh observed now ttl h = ground arith

signal_at-fresh :
    (o : Option Instant) (pending active : ℤ) (now : Instant) (ttl : Duration) {p a : ℤ}
    → signal_at o pending active now ttl ≡ some (p, a)
    → (observed : Instant) × (o ≡ some observed)
      × (is_usable observed now ttl ≡ true)
      × (p ≡ pending)
      × (a ≡ active)
unfolding signal_at
signal_at-fresh none pending active now ttl h = cc
signal_at-fresh (some observed) pending active now ttl h =
    elim (Bool-cases (is_usable observed now ttl)) [
      | inl e ↦ (observed, refl, e, ground arith, ground arith)
      | inr e ↦ absurd (ground arith)
    ]

pub queue_signal-IsFresh :
    (agent : Agent) (now : Instant) (ttl : Duration) {p a : ℤ}
    → queue_signal agent now ttl ≡ some (p, a)
    → IsFresh agent now ttl × (p ≡ agent.pending_tasks) × (a ≡ agent.active_tasks)
unfolding queue_signal
queue_signal-IsFresh agent now ttl h =
    let (observed, stamped, usable, same_p, same_a) =
      signal_at-fresh agent.queue_observed_at agent.pending_tasks agent.active_tasks now ttl h in
    let (set, recent, not_ahead) = is_usable-fresh observed now ttl usable in
    (
      record {
        observed = observed;
        stamped = stamped;
        set = set;
        recent = recent;
        not_ahead = not_ahead;
      },
      same_p,
      same_a,
    )

nothing_left :
    (p a : ℤ)
    → pos 0 ≤ℤ p
    → pos 0 ≤ℤ a
    → IsInt32 (p +ℤ a)
    → wrap32 (p +ℤ a) ≤ℤ pos 0
    → (p ≡ pos 0) × (a ≡ pos 0)
unfolding ◌+ℤ◌
nothing_left p a hp ha fits h = ground (arith, wrap32_of_IsInt32 (p +ℤ a) fits)

module _ (text : Render) where
  -- An agent that opted in and has a positive ceiling is decided on by its signal.
  pub resolve_replicas-by_signal :
      (r : Reconciler) (agent : Agent) (current : ℤ) (now : Instant) (m : ℤ)
      → min_replicas agent ≡ some m
      → pos 1 ≤ℤ max_replicas agent
      → resolve_replicas text r agent current now
        ≡ by_signal text
            (floor_under m (max_replicas agent))
            (max_replicas agent)
            current
            (scale_down_window r)
            (quiet_for agent now)
            (queue_signal agent now (queue_signal_ttl r))
  unfolding resolve_replicas by_floor
  resolve_replicas-by_signal r agent current now m e h = rw (e, by_floor) (ground arith)

  -- What has to be known before the last pod goes: the queue was measured to be empty, recently,
  -- the floor is zero, and the agent has been quiet for the whole window or never had work.
  pub record MaySleep (r : Reconciler) (agent : Agent) (now : Instant) (m : ℤ) : Type 0 where
    pub fresh : IsFresh agent now (queue_signal_ttl r)
    pub none_pending : agent.pending_tasks ≡ pos 0
    pub none_active : agent.active_tasks ≡ pos 0
    pub no_floor : floor_under m (max_replicas agent) ≤ℤ pos 0
    pub quiet :
        (quiet_for agent now ≡ none)
        ⊎ ((idle : Duration) × (quiet_for agent now ≡ some idle) × (scale_down_window r ≤ℤ idle))

  wind_down-zero :
      (min_p current : ℤ) (window : Duration) (idle : Option Duration)
      → pos 1 ≤ℤ current
      → (wind_down text min_p current window idle).replicas ≤ℤ pos 0
      → (min_p ≤ℤ pos 0)
        × ((idle ≡ none) ⊎ ((quiet : Duration) × (idle ≡ some quiet) × (window ≤ℤ quiet)))
  unfolding wind_down
  wind_down-zero min_p current window none c h = (h, inl refl)
  wind_down-zero min_p current window (some quiet) c h =
      (ground arith, inr (quiet, refl, ground arith))

  by_signal-zero :
      (min_p max current : ℤ) (window : Duration) (idle : Option Duration) (signal : Option (ℤ × ℤ))
      → pos 1 ≤ℤ max
      → pos 1 ≤ℤ current
      → (by_signal text min_p max current window idle signal).replicas ≤ℤ pos 0
      → (pending : ℤ) × (active : ℤ) × (signal ≡ some (pending, active))
        × (wrap32 (pending +ℤ active) ≤ℤ pos 0)
        × ((wind_down text min_p current window idle).replicas ≤ℤ pos 0)
  unfolding by_signal hold_stale serve_queue
  by_signal-zero min_p max current window idle none k c h = absurd (ground arith)
  by_signal-zero min_p max current window idle (some (pending, active)) k c h =
      elim (Bool-cases (ltb_ℤ (pos 0) (wrap32 (pending +ℤ active)))) [
        | inl work ↦ absurd (ground arith)
        | inr idle_now ↦ (pending, active, refl, ground arith, ground arith)
      ]

  -- The last pod of an agent that opted in, with a ceiling of at least one, is never taken away on
  -- an unproven claim of emptiness: if such an agent runs and is scaled to zero (or below), the hub's measurement was fresh, it said that
  -- nothing is pending and nothing in flight, the floor is zero, and the agent has been quiet past
  -- the window or was never given work. This is for published counts that are not negative and
  -- whose sum does not overflow an int32.
  pub resolve_replicas-zero :
      (r : Reconciler) (agent : Agent) (current : ℤ) (now : Instant) (m : ℤ)
      → min_replicas agent ≡ some m
      → pos 1 ≤ℤ max_replicas agent
      → pos 1 ≤ℤ current
      → pos 0 ≤ℤ agent.pending_tasks
      → pos 0 ≤ℤ agent.active_tasks
      → IsInt32 (agent.pending_tasks +ℤ agent.active_tasks)
      → (resolve_replicas text r agent current now).replicas ≤ℤ pos 0
      → MaySleep r agent now m
  resolve_replicas-zero r agent current now m e k c p a fits h =
      let floor = floor_under m (max_replicas agent) in
      let max = max_replicas agent in
      let window = scale_down_window r in
      let idle = quiet_for agent now in
      let signal = queue_signal agent now (queue_signal_ttl r) in
      let (pending, active, said, empty, sleeping) =
        by_signal-zero floor max current window idle signal k c
          (rw (resolve_replicas-by_signal r agent current now m e k) at h) in
      let (fresh, same_p, same_a) = queue_signal-IsFresh agent now (queue_signal_ttl r) said in
      let none_left =
        nothing_left agent.pending_tasks agent.active_tasks p a fits
          (rw (same_p, same_a) at empty) in
      let (no_floor, quiet) = wind_down-zero floor current window idle c sleeping in
      record {
        fresh = fresh;
        none_pending = none_left.0;
        none_active = none_left.1;
        no_floor = no_floor;
        quiet = quiet;
      }

  -- Work that the hub reports is never left without a pod: while a fresh measurement of an agent
  -- that opted in, with a positive ceiling, shows a task waiting or in flight, and the sum of the
  -- two counts is positive and does not overflow an int32, the agent gets at least one pod
  -- whatever runs now, and no more pods than tasks unless the floor asks for them.
  pub resolve_replicas-busy :
      (r : Reconciler) (agent : Agent) (current : ℤ) (now : Instant) (m : ℤ) {pending active : ℤ}
      → min_replicas agent ≡ some m
      → pos 1 ≤ℤ max_replicas agent
      → queue_signal agent now (queue_signal_ttl r) ≡ some (pending, active)
      → IsInt32 (pending +ℤ active)
      → pos 1 ≤ℤ pending +ℤ active
      → (pos 1 ≤ℤ (resolve_replicas text r agent current now).replicas)
        × (((resolve_replicas text r agent current now).replicas ≤ℤ pending +ℤ active)
            ⊎ ((resolve_replicas text r agent current now).replicas
                ≡ floor_under m (max_replicas agent)))
  unfolding by_signal serve_queue
  resolve_replicas-busy r agent current now m {pending} {active} e k said fits work =
      rw (resolve_replicas-by_signal r agent current now m e k, said, by_signal)
        (ground (arith, wrap32_of_IsInt32 (pending +ℤ active) fits))
