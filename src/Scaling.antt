-- ===== src/Scaling.antt =====
-- operators/agent/internal/controller/scaling.go: how many pods an agent gets. `int32` counts are
-- integers, and the one sum of two of them wraps. The texts that `strconv` and
-- `time.Duration.String` render are a parameter, `Render`.
pub mod Bounds
pub mod Safety
pub mod Grace
mod Tests
use Prim.Native.String.{◌++◌ as str_append}
use ainsel.Prelude.{
  ℕ, ◌-◌, Bool, true, false, ◌&&◌, ◌||◌, Option, none, some, String, if◌then◌else◌, ltb, nat_beq,
}
use ainsel.Prelude.Int.{ℤ, pos, negsuc, ◌+ℤ◌, ◌-ℤ◌, ltb_ℤ, leb_ℤ, wrap32}
use ainsel.Prelude.Time.{Instant, Duration, second, minute, is_zero_time, time_sub}

pub data Reason : Type 0 where
  static queue_depth dormant idle_grace queue_signal_stale scaled_to_zero disabled : Reason

abbrev pub default_scale_down_window : Duration
default_scale_down_window = pos 120000000000

abbrev pub default_queue_signal_ttl : Duration
default_queue_signal_ttl = pos 300000000000

abbrev pub queue_stale_requeue : Duration
queue_stale_requeue = pos 15000000000

abbrev pub clock_skew_tolerance : ℕ
clock_skew_tolerance = 30000000000

pub record ScaleDecision : Type 0 where
  pub replicas : ℤ
  pub reason : Reason
  pub message : String
  pub requeue_after : Duration

-- `AgentScaling`, with nil pointers as `none`.
pub record AgentScaling : Type 0 where
  pub replicas : Option ℤ
  pub min_replicas : Option ℤ

-- The fields of the Agent resource that the decision reads.
pub record Agent : Type 0 where
  pub scaling : Option AgentScaling
  pub pending_tasks : ℤ
  pub active_tasks : ℤ
  pub queue_observed_at : Option Instant
  pub last_invocation : Option Instant

-- The settings of the reconciler that the decision reads.
pub record Reconciler : Type 0 where
  pub scale_down_window : Duration
  pub queue_signal_ttl : Duration

pub record Render : Type 0 where
  pub format_int : ℤ → String
  pub round_seconds : Duration → String

-- `d > 0`, else the default.
abbrev or_default : Duration → Duration → Duration
or_default d default = if ltb_ℤ (pos 0) d then d else default

pub scale_down_window : Reconciler → Duration
scale_down_window r = or_default r.scale_down_window default_scale_down_window

pub queue_signal_ttl : Reconciler → Duration
queue_signal_ttl r = or_default r.queue_signal_ttl default_queue_signal_ttl

replicas_of : Option ℤ → ℤ
replicas_of none = pos 1
replicas_of (some n) = n

max_of : Option AgentScaling → ℤ
unfolding replicas_of
max_of none = pos 1
max_of (some s) = replicas_of s.replicas

pub max_replicas : Agent → ℤ
unfolding max_of
max_replicas agent = max_of agent.scaling

floor_of : Option ℤ → Option ℤ
floor_of none = none
floor_of (some m) = some (if ltb_ℤ m (pos 0) then pos 0 else m)

min_of : Option AgentScaling → Option ℤ
unfolding floor_of
min_of none = none
min_of (some s) = floor_of s.min_replicas

-- `none` is the second result `false`: the agent did not opt in.
pub min_replicas : Agent → Option ℤ
unfolding min_of
min_replicas agent = min_of agent.scaling

is_usable : Instant → Instant → Duration → Bool
is_usable observed now ttl =
    let age = time_sub now observed in
    if is_zero_time observed || ltb_ℤ ttl age || ltb_ℤ age (negsuc (clock_skew_tolerance - 1))
    then false
    else true

signal_at : Option Instant → ℤ → ℤ → Instant → Duration → Option (ℤ × ℤ)
unfolding is_usable time_sub
signal_at none pending active now ttl = none
signal_at (some observed) pending active now ttl =
    if is_usable observed now ttl then some (pending, active) else none

-- The pending and active counts, if they are fresh.
pub queue_signal : Agent → Instant → Duration → Option (ℤ × ℤ)
unfolding signal_at
queue_signal agent now ttl =
    signal_at agent.queue_observed_at agent.pending_tasks agent.active_tasks now ttl

quiet_since : Option Instant → Instant → Option Duration
unfolding time_sub
quiet_since none now = none
quiet_since (some stamp) now =
    if is_zero_time stamp || ltb now stamp
    then (if ltb now stamp then some (pos 0) else none)
    else some (time_sub now stamp)

-- How long the agent has had nothing to do; `none` is the second result `false`.
pub quiet_for : Agent → Instant → Option Duration
unfolding quiet_since
quiet_for agent now = quiet_since agent.last_invocation now

pub clamp_int32 : ℤ → ℤ → ℤ → ℤ
clamp_int32 v low high = if ltb_ℤ v low then low else if ltb_ℤ high v then high else v

abbrev is_zero : ℤ → Bool
is_zero (pos n) = nat_beq n 0
is_zero (negsuc n) = false

abbrev is_one : ℤ → Bool
is_one (pos n) = nat_beq n 1
is_one (negsuc n) = false

module _ (text : Render) where
  active_label : ℤ → String
  active_label n =
      if is_zero n
      then "0 tasks in flight"
      else if is_one n
      then "1 task in flight"
      else str_append (text.format_int n) " tasks in flight"

  pending_label : ℤ → String
  pending_label n =
      if is_zero n
      then "none waiting"
      else if is_one n
      then "1 waiting"
      else str_append (text.format_int n) " waiting"

  queued_message : ℤ → ℤ → ℤ → ℤ → String
  queued_message target pending active max =
      let msg = str_append (active_label active) (str_append ", " (pending_label pending)) in
      if leb_ℤ max target && ltb_ℤ max (wrap32 (pending +ℤ active))
      then str_append msg (str_append "; capped at " (str_append (text.format_int max) " pods"))
      else msg

  -- Step 3: no usable signal.
  hold_stale : ℤ → ℤ → ℤ → ScaleDecision
  hold_stale min_p max current =
      let raised = if ltb_ℤ current min_p then min_p else current in
      record {
        replicas = if ltb_ℤ max raised then max else raised;
        reason = queue_signal_stale;
        message = "no recent queue signal from the hub; holding instead of scaling to zero";
        requeue_after = queue_stale_requeue;
      }

  -- Step 4: work is waiting or in flight.
  serve_queue : ℤ → ℤ → ℤ → ℤ → ScaleDecision
  unfolding clamp_int32
  serve_queue min_p max pending active =
      let target = clamp_int32 (wrap32 (pending +ℤ active)) min_p max in
      record {
        replicas = target;
        reason = queue_depth;
        message = queued_message target pending active max;
        requeue_after = pos 0;
      }

  -- The pods kept inside the grace window.
  abbrev warm : ℤ → ℤ → ℤ
  warm min_p current =
      let hold = if ltb_ℤ (pos 1) min_p then min_p else pos 1 in
      if ltb_ℤ current hold then current else hold

  -- Steps 5 and 6: nothing waits and nothing is in flight.
  wind_down : ℤ → ℤ → Duration → Option Duration → ScaleDecision
  wind_down min_p current window none = record {
    replicas = min_p;
    reason = dormant;
    message = "no work has ever been queued for this agent";
    requeue_after = pos 0;
  }
  wind_down min_p current window (some idle) =
      if leb_ℤ window idle
      then record {
        replicas = min_p;
        reason = if is_zero min_p then scaled_to_zero else dormant;
        message = str_append "quiet for " (text.round_seconds idle);
        requeue_after = pos 0;
      }
      else record {
        replicas = warm min_p current;
        reason = idle_grace;
        message = str_append "quiet, holding one pod for " (text.round_seconds (window -ℤ idle));
        requeue_after = window -ℤ idle;
      }

  -- Steps 3 to 6, for a usable signal or none.
  pub by_signal : ℤ → ℤ → ℤ → Duration → Option Duration → Option (ℤ × ℤ) → ScaleDecision
  unfolding hold_stale serve_queue wind_down
  by_signal min_p max current window idle none = hold_stale min_p max current
  by_signal min_p max current window idle (some (pending, active)) =
      if ltb_ℤ (pos 0) (wrap32 (pending +ℤ active))
      then serve_queue min_p max pending active
      else wind_down min_p current window idle

  by_floor : Reconciler → Agent → ℤ → Instant → Option ℤ → ScaleDecision
  unfolding by_signal
  by_floor r agent current now none = record {
    replicas = max_replicas agent;
    reason = static;
    message = "static replica count";
    requeue_after = pos 0;
  }
  by_floor r agent current now (some m) =
      let max = max_replicas agent in
      let min_p = if ltb_ℤ max m then max else m in
      if is_zero max
      then record {
        replicas = pos 0;
        reason = disabled;
        message = "replicas set to 0";
        requeue_after = pos 0;
      }
      else by_signal min_p max current (scale_down_window r) (quiet_for agent now)
          (queue_signal agent now (queue_signal_ttl r))

  pub resolve_replicas : Reconciler → Agent → ℤ → Instant → ScaleDecision
  unfolding by_floor
  resolve_replicas r agent current now = by_floor r agent current now (min_replicas agent)
