-- ===== src/Scaling/Grace.antt =====
-- The grace window of operators/agent/internal/controller/scaling.go: how long it holds a warm
-- pod, and what it does to an agent with a floor.
use ainsel.Prelude.{◌+◌, ◌≤◌, ◌≡◌, inl, inr, some, arith, Option-cases}
use ainsel.Prelude.Int.{ℤ, pos, ◌≤ℤ◌, ◌<ℤ◌, ◌+ℤ◌, ◌-ℤ◌, wrap32, pos_part}
use ainsel.Prelude.Time.{Instant, Duration, time_sub, max_duration}
use ainsel.Scaling.Bounds.{floor_under}
use ainsel.Scaling.Safety.{resolve_replicas-by_signal}
use ainsel.Scaling.{
  Render, Reconciler, Agent, wind_down, by_signal, max_replicas, min_replicas, resolve_replicas,
  scale_down_window, queue_signal, queue_signal_ttl, quiet_for, quiet_since,
}

quiet_for-nonneg :
    (agent : Agent) (now : Instant) {idle : Duration}
    → quiet_for agent now ≡ some idle
    → pos 0 ≤ℤ idle
unfolding quiet_for quiet_since time_sub
quiet_for-nonneg agent now q = elim (Option-cases agent.last_invocation) [
  | inl e ↦ absurd (ground arith)
  | inr (stamp, e) ↦ ground arith
]

-- Quiet grows with the clock, until its subtraction saturates.
quiet_for-later :
    (agent : Agent) (now : Instant) (window idle : Duration) (stamp : Instant)
    → pos_part window ≤ max_duration
    → agent.last_invocation ≡ some stamp
    → stamp ≤ now
    → quiet_for agent now ≡ some idle
    → idle <ℤ window
    → (later : Duration) × (quiet_for agent (now + pos_part (window -ℤ idle)) ≡ some later)
      × (window ≤ℤ later)
unfolding quiet_for quiet_since time_sub ◌-ℤ◌
quiet_for-later agent now window idle stamp fits given past q short = (
  time_sub (now + pos_part (window -ℤ idle)) stamp,
  rw (given, quiet_since) (ground arith),
  ground arith,
)

module _ (text : Render) where
  -- Inside the window: nothing to do, and quiet for less than the window.
  pub record InGrace (r : Reconciler) (agent : Agent) (now : Instant) : Type 0 where
    pub pending : ℤ
    pub active : ℤ
    pub idle : Duration
    pub said : queue_signal agent now (queue_signal_ttl r) ≡ some (pending, active)
    pub empty : wrap32 (pending +ℤ active) ≤ℤ pos 0
    pub quiet : quiet_for agent now ≡ some idle
    pub short : idle <ℤ scale_down_window r

  grace-wind_down :
      (r : Reconciler) (agent : Agent) (current : ℤ) (now : Instant) (m : ℤ)
      → min_replicas agent ≡ some m
      → pos 1 ≤ℤ max_replicas agent
      → (g : InGrace r agent now)
      → resolve_replicas text r agent current now
        ≡ wind_down text
            (floor_under m (max_replicas agent))
            current
            (scale_down_window r)
            (some g.idle)
  unfolding by_signal
  grace-wind_down r agent current now m e k g =
      rw (resolve_replicas-by_signal text r agent current now m e k, g.said, g.quiet, by_signal)
        (ground (arith, g.empty))

  grace-requeue_after :
      (r : Reconciler) (agent : Agent) (current : ℤ) (now : Instant) (m : ℤ)
      → min_replicas agent ≡ some m
      → pos 1 ≤ℤ max_replicas agent
      → (g : InGrace r agent now)
      → ((resolve_replicas text r agent current now).requeue_after ≡ scale_down_window r -ℤ g.idle)
        × (pos 0 <ℤ scale_down_window r -ℤ g.idle)
        × (scale_down_window r -ℤ g.idle ≤ℤ scale_down_window r)
  unfolding wind_down ◌-ℤ◌
  grace-requeue_after r agent current now m e k g = (
    rw (grace-wind_down r agent current now m e k g) (ground (arith, g.short)),
    ground (arith, g.short),
    ground (arith, quiet_for-nonneg agent now g.quiet),
  )

  -- Past the window the decision is the floor, for good.
  resolve_replicas-quiet :
      (r : Reconciler) (agent : Agent) (current : ℤ) (now : Instant) (m : ℤ) {pending active : ℤ}
      {idle : Duration}
      → min_replicas agent ≡ some m
      → pos 1 ≤ℤ max_replicas agent
      → queue_signal agent now (queue_signal_ttl r) ≡ some (pending, active)
      → wrap32 (pending +ℤ active) ≤ℤ pos 0
      → quiet_for agent now ≡ some idle
      → scale_down_window r ≤ℤ idle
      → ((resolve_replicas text r agent current now).replicas ≡ floor_under m (max_replicas agent))
        × ((resolve_replicas text r agent current now).requeue_after ≡ pos 0)
  unfolding by_signal wind_down
  resolve_replicas-quiet r agent current now m e k said empty quiet over =
      rw (resolve_replicas-by_signal text r agent current now m e k, said, quiet, by_signal)
        (ground arith)

  -- For an agent that opted in, with a positive ceiling, whose last invocation is stamped at `now`
  -- or before (not ahead of this clock), and for a window within the range of a Go duration: inside
  -- the grace window the decision asks to be looked at again after a positive time, at most the
  -- window; and if by then the stamp and the counts are the same and the hub's signal is still
  -- fresh, that later decision sheds the warm pod: it is the floor, and no further recheck.
  pub grace_closes :
      (r : Reconciler) (agent : Agent) (current later : ℤ) (now : Instant) (m : ℤ) (stamp : Instant)
      → min_replicas agent ≡ some m
      → pos 1 ≤ℤ max_replicas agent
      → pos_part (scale_down_window r) ≤ max_duration
      → (g : InGrace r agent now) → agent.last_invocation ≡ some stamp
      → stamp ≤ now
      → queue_signal agent (now + pos_part (scale_down_window r -ℤ g.idle)) (queue_signal_ttl r)
        ≡ some (g.pending, g.active)
      → let first = resolve_replicas text r agent current now in
        let second = resolve_replicas text r agent later (now + pos_part first.requeue_after) in
        (pos 0 <ℤ first.requeue_after)
        × (first.requeue_after ≤ℤ scale_down_window r)
        × ((second.replicas ≡ floor_under m (max_replicas agent)) × (second.requeue_after ≡ pos 0))
  grace_closes r agent current later now m stamp e k fits g given past still =
      let (requeue, positive, short) = grace-requeue_after r agent current now m e k g in
      let (idle, quiet, over) =
        quiet_for-later agent now (scale_down_window r) g.idle stamp fits given past g.quiet
          g.short in
      rw requeue
        (positive, short, resolve_replicas-quiet r agent later _ m e k still g.empty quiet over)

  -- The floor is not kept inside the grace window: whenever the agent runs fewer pods than its
  -- floor there, the decision is to keep it below the floor, at the number it runs.
  pub grace_below_floor :
      (r : Reconciler) (agent : Agent) (current : ℤ) (now : Instant) (m : ℤ)
      → min_replicas agent ≡ some m
      → pos 1 ≤ℤ max_replicas agent
      → InGrace r agent now
      → current <ℤ floor_under m (max_replicas agent)
      → (resolve_replicas text r agent current now).replicas ≡ current
  unfolding wind_down
  grace_below_floor r agent current now m e k g low =
      rw (grace-wind_down r agent current now m e k g) (ground (arith, g.short))
