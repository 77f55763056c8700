-- ===== src/Scaling/Bounds.antt =====
-- The range of the pod count that operators/agent/internal/controller/scaling.go decides on.
use ainsel.Prelude.{◌≡◌, ◌⊎◌, Option, none, some, arith, if◌then◌else◌, if_elim}
use ainsel.Prelude.Int.{ℤ, pos, ◌≤ℤ◌, ltb_ℤ}
use ainsel.Prelude.Time.{Instant, Duration}
use ainsel.Scaling.{
  Render, Reconciler, Agent, ScaleDecision, idle_grace, hold_stale, serve_queue, wind_down,
  by_signal, by_floor, max_replicas, min_replicas, resolve_replicas, scale_down_window,
  queue_signal, queue_signal_ttl, quiet_for, is_zero,
}

-- The floor that the code works with: the requested one, but never above the ceiling.
abbrev pub floor_under : ℤ → ℤ → ℤ
floor_under m max = if ltb_ℤ max m then max else m

-- At most the ceiling, and at least the floor except inside the grace window.
pub record InRange (min_p max : ℤ) (d : ScaleDecision) : Type 0 where
  pub capped : d.replicas ≤ℤ max
  pub floored : (d.reason ≡ idle_grace) ⊎ (min_p ≤ℤ d.replicas)

module _ (text : Render) where
  hold_stale-InRange :
      (min_p max current : ℤ) → min_p ≤ℤ max → InRange min_p max (hold_stale text min_p max current)
  unfolding hold_stale
  hold_stale-InRange min_p max current h = ground arith

  serve_queue-InRange :
      (min_p max pending active : ℤ)
      → min_p ≤ℤ max
      → InRange min_p max (serve_queue text min_p max pending active)
  unfolding serve_queue
  serve_queue-InRange min_p max pending active h = ground arith

  wind_down-InRange :
      (min_p max current : ℤ) (window : Duration) (idle : Option Duration)
      → min_p ≤ℤ max
      → pos 1 ≤ℤ max
      → InRange min_p max (wind_down text min_p current window idle)
  unfolding wind_down
  wind_down-InRange min_p max current window none h k = ground arith
  wind_down-InRange min_p max current window (some idle) h k = ground arith

  by_signal-InRange :
      (min_p max current : ℤ) (window : Duration) (idle : Option Duration) (signal : Option (ℤ × ℤ))
      → min_p ≤ℤ max
      → pos 1 ≤ℤ max
      → InRange min_p max (by_signal text min_p max current window idle signal)
  unfolding by_signal
  by_signal-InRange min_p max current window idle none h k = hold_stale-InRange min_p max current h
  by_signal-InRange min_p max current window idle (some (pending, active)) h k =
      if_elim (InRange min_p max) _ (λ _. serve_queue-InRange min_p max pending active h)
        (λ _. wind_down-InRange min_p max current window idle h k)

  by_floor-InRange :
      (r : Reconciler) (agent : Agent) (current : ℤ) (now : Instant) (m : ℤ)
      → pos 0 ≤ℤ max_replicas agent
      → InRange
          (floor_under m (max_replicas agent))
          (max_replicas agent)
          (by_floor text r agent current now (some m))
  unfolding by_floor
  by_floor-InRange r agent current now m h =
      if_elim (InRange (floor_under m (max_replicas agent)) (max_replicas agent))
        (is_zero (max_replicas agent)) (λ z. ground arith)
        (λ z.
          by_signal-InRange (floor_under m (max_replicas agent)) (max_replicas agent) current
            (scale_down_window r) (quiet_for agent now)
            (queue_signal agent now (queue_signal_ttl r)) (ground arith) (ground arith))

  -- For an agent that opted into queue-driven scaling and whose ceiling is not negative, the
  -- decision never exceeds the ceiling, and it is at least the floor (lowered to the ceiling
  -- if it lies above) unless the reason is the grace window.
  pub resolve_replicas_bounds :
      (r : Reconciler) (agent : Agent) (current : ℤ) (now : Instant) (m : ℤ)
      → min_replicas agent ≡ some m
      → pos 0 ≤ℤ max_replicas agent
      → InRange
          (floor_under m (max_replicas agent))
          (max_replicas agent)
          (resolve_replicas text r agent current now)
  unfolding resolve_replicas
  resolve_replicas_bounds r agent current now m e h =
      rw (e, resolve_replicas) (by_floor-InRange r agent current now m h)
