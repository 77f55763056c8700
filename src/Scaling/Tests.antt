-- ===== src/Scaling/Tests.antt =====
-- Runs of the scaling decision, and the theorems about it at concrete agents.
use ainsel.Prelude.{◌≡◌, refl, ◌⊎◌, some, ℕ, arith}
use ainsel.Prelude.Int.{pos, ◌≤ℤ◌, ◌+ℤ◌, ◌-ℤ◌, wrap32}
use ainsel.Scaling.{
  Render, Reconciler, Agent, resolve_replicas, min_replicas, max_replicas, queue_signal, quiet_for,
  scale_down_window, queue_signal_ttl, queue_signal_stale,
}
use ainsel.Scaling.Bounds.{InRange, resolve_replicas_bounds}
use ainsel.Scaling.Safety.{MaySleep, resolve_replicas-zero, resolve_replicas-busy}
use ainsel.Scaling.Grace.{InGrace, grace_closes, grace_below_floor}

abbrev plain : Render
plain = record { format_int = λ n. "n"; round_seconds = λ d. "d" }

abbrev defaults : Reconciler
defaults = record { scale_down_window = pos 0; queue_signal_ttl = pos 0 }

-- Measured at 990 s, last handed work at 900 s.
abbrev quiet_agent : ℕ → Agent
quiet_agent floor = record {
  scaling = some (record { replicas = some (pos 3); min_replicas = some (pos floor) });
  pending_tasks = pos 0;
  active_tasks = pos 0;
  queue_observed_at = some 990000000000;
  last_invocation = some 900000000000;
}

abbrev busy_agent : Agent
busy_agent = record {
  scaling = some (record { replicas = some (pos 3); min_replicas = some (pos 0) });
  pending_tasks = pos 7;
  active_tasks = pos 1;
  queue_observed_at = some 990000000000;
  last_invocation = some 900000000000;
}

queued_burst : (resolve_replicas plain defaults busy_agent (pos 0) 1000000000000).replicas ≡ pos 3
unfolding resolve_replicas min_replicas max_replicas queue_signal queue_signal_ttl wrap32 ◌+ℤ◌
queued_burst = refl

stale_signal :
    (resolve_replicas plain defaults busy_agent (pos 2) 2000000000000).reason ≡ queue_signal_stale
unfolding resolve_replicas min_replicas max_replicas queue_signal queue_signal_ttl
stale_signal = refl

resolve_replicas_bounds_example :
    InRange (pos 0) (pos 3) (resolve_replicas plain defaults busy_agent (pos 0) 1000000000000)
unfolding max_replicas min_replicas
resolve_replicas_bounds_example =
    resolve_replicas_bounds plain defaults busy_agent (pos 0) 1000000000000 (pos 0) refl
      (omega arith)

resolve_replicas-zero_example : MaySleep plain defaults (quiet_agent 0) 1100000000000 (pos 0)
unfolding resolve_replicas min_replicas max_replicas queue_signal queue_signal_ttl wrap32 ◌+ℤ◌
    quiet_for scale_down_window
resolve_replicas-zero_example =
    resolve_replicas-zero plain defaults (quiet_agent 0) (pos 1) 1100000000000 (pos 0) refl
      (omega arith) (omega arith) (omega arith) (omega arith) (omega arith) (omega arith)

resolve_replicas-busy_example :
    (pos 1 ≤ℤ (resolve_replicas plain defaults busy_agent (pos 0) 1000000000000).replicas)
    × (((resolve_replicas plain defaults busy_agent (pos 0) 1000000000000).replicas
          ≤ℤ pos 7 +ℤ pos 1)
        ⊎ ((resolve_replicas plain defaults busy_agent (pos 0) 1000000000000).replicas ≡ pos 0))
unfolding min_replicas max_replicas queue_signal queue_signal_ttl ◌+ℤ◌
resolve_replicas-busy_example =
    resolve_replicas-busy plain defaults busy_agent (pos 0) 1000000000000 (pos 0) {pending = pos 7}
      {active = pos 1} refl (omega arith) refl (omega arith) (omega arith)

quiet_agent-InGrace : (floor : ℕ) → InGrace plain defaults (quiet_agent floor) 1000000000000
unfolding queue_signal queue_signal_ttl quiet_for wrap32 ◌+ℤ◌ scale_down_window
quiet_agent-InGrace floor = record {
  pending = pos 0;
  active = pos 0;
  idle = pos 100000000000;
  said = refl;
  empty = omega arith;
  quiet = refl;
  short = omega arith;
}

grace_closes_example :
    (resolve_replicas plain defaults (quiet_agent 0) (pos 1) 1020000000000).replicas ≡ pos 0
unfolding min_replicas max_replicas queue_signal queue_signal_ttl quiet_agent-InGrace
    scale_down_window ◌-ℤ◌ resolve_replicas quiet_for wrap32 ◌+ℤ◌
grace_closes_example =
    (grace_closes plain defaults (quiet_agent 0) (pos 2) (pos 1) 1000000000000 (pos 0) 900000000000
      refl (omega arith) (omega arith) (quiet_agent-InGrace 0) refl (omega arith) refl).2.0

grace_below_floor_example :
    (resolve_replicas plain defaults (quiet_agent 2) (pos 0) 1000000000000).replicas ≡ pos 0
unfolding min_replicas max_replicas
grace_below_floor_example =
    grace_below_floor plain defaults (quiet_agent 2) (pos 0) 1000000000000 (pos 2) refl
      (omega arith) (quiet_agent-InGrace 2) (omega arith)
