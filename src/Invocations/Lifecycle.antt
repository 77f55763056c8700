-- ===== src/Invocations/Lifecycle.antt =====
-- One invocation's way through the `MemoryStore` of services/hub/internal/invocations/store.go.
use ainsel.Prelude.{
  ◌≡◌, ◌≢◌, refl, ◌⊎◌, arith, Bool-cases, ==_false, inl, inr, true, false, none, some, String,
  if◌then◌else◌, ◌==◌, string_eq, ==_refl, Option-cases,
}
use ainsel.Prelude.Dict.{lookup, lookup-insert}
use ainsel.Prelude.Int.{pos, div_ℤ}
use ainsel.Prelude.Time.{Instant, is_zero_time, time_sub}
use ainsel.Invocations.{
  Invocation, MemoryStore, completed_fields, add, record_invocation, complete, complete_found,
  finish, get, or_else, milliseconds,
}

-- Completing an id that the store does not hold changes nothing and answers false; completing one
-- that it holds answers true, gives its record the status, the message, the end time (now, if none
-- is given) and the duration, and leaves every other record as it was.
pub complete-get :
    (s : MemoryStore) (now : Instant) (id status message : String) (ended : Instant)
    → ((get s id ≡ none) × (complete s now id status message ended ≡ (s, false)))
      ⊎ ((rec : Invocation) × (get s id ≡ some rec)
          × ((complete s now id status message ended).1 ≡ true)
          × ((j : String)
              → get (complete s now id status message ended).0 j ≡ (
                  if id == j
                  then some (finish status message (if is_zero_time ended then now else ended) rec)
                  else get s j)))
unfolding complete complete_found get
complete-get s now id status message ended = elim (Option-cases (lookup id s.by_id)) [
  | inl e ↦ inl (e, rw (e, complete_found) refl)
  | inr (rec, e) ↦
      inr (rec, e, rw (e, complete_found) refl, λ j. rw (e, complete_found, lookup-insert) refl)
]

recorded_is_found :
    (s : MemoryStore) (generated : String) (now : Instant) (inv : Invocation)
    → get (record_invocation s generated now inv).0 (record_invocation s generated now inv).1.id
      ≡ some (record_invocation s generated now inv).1
unfolding record_invocation add get
recorded_is_found s generated now inv =
    rw (lookup-insert, ==_refl (completed_fields generated now inv).id, if◌then◌else◌) refl

-- An outcome beside what the caller of `Record` asked for, field by field, with the id and the times
-- that stand in for what was left out.
pub record IsOutcome (inv : Invocation) (generated : String) (start now : Instant)
    (given_status message : String) (ended : Instant) (rec : Invocation) : Type 0 where
  pub id : ((inv.id ≡ "") × (rec.id ≡ generated)) ⊎ ((inv.id ≢ "") × (rec.id ≡ inv.id))
  pub agent_name : rec.agent_name ≡ inv.agent_name
  pub trigger_name : rec.trigger_name ≡ inv.trigger_name
  pub event_id : rec.event_id ≡ inv.event_id
  pub connector : rec.connector ≡ inv.connector
  pub start_time :
      ((inv.start_time ≡ 0) × (rec.start_time ≡ start))
      ⊎ ((inv.start_time ≢ 0) × (rec.start_time ≡ inv.start_time))
  pub status : rec.status ≡ given_status
  pub error : rec.error ≡ message
  pub end :
      (at : Instant) × (rec.end_time ≡ some at)
      × (((ended ≡ 0) × (at ≡ now)) ⊎ ((ended ≢ 0) × (at ≡ ended)))
      × (rec.duration_ms ≡ some (div_ℤ (time_sub at rec.start_time) (pos 1000000)))

or_else-cases :
    (default given : String)
    → ((given ≡ "") × (or_else default given ≡ default))
      ⊎ ((given ≢ "") × (or_else default given ≡ given))
unfolding or_else
or_else-cases default given = elim (Bool-cases (given == "")) [
  | inl e ↦ inl ((string_eq.beq_iff given "").0 e, rw (e, if◌then◌else◌) refl)
  | inr e ↦ inr (λ same. cc (e, (string_eq.beq_iff given "").1 same), rw (e, if◌then◌else◌) refl)
]

time-cases :
    (default given : Instant)
    → ((given ≡ 0) × ((if is_zero_time given then default else given) ≡ default))
      ⊎ ((given ≢ 0) × ((if is_zero_time given then default else given) ≡ given))
time-cases default given = elim (Bool-cases (is_zero_time given)) [
  | inl e ↦ inl (ground arith, rw (e, if◌then◌else◌) refl)
  | inr e ↦ inr (ground arith, rw (e, if◌then◌else◌) refl)
]

finish-IsOutcome :
    (generated : String) (start now : Instant) (inv : Invocation) (status message : String)
    (ended : Instant)
    → IsOutcome inv generated start now status message ended (
        finish status message
          (if is_zero_time ended then now else ended)
          (completed_fields generated start inv))
unfolding finish completed_fields milliseconds
finish-IsOutcome generated start now inv status message ended = record {
  id = or_else-cases generated inv.id;
  agent_name = refl;
  trigger_name = refl;
  event_id = refl;
  connector = refl;
  start_time = time-cases start inv.start_time;
  status = refl;
  error = refl;
  end = (_, refl, time-cases now ended, refl);
}

-- Whatever the store holds and evicts, an invocation that was just recorded can be completed under
-- the id that `Record` returned. It is then found under that id with the fields that were recorded,
-- the given status and message, the end time, and the milliseconds between start and end; a missing
-- id is the generated one, a missing start or end time that of the call. Every other id is found as
-- before the completion.
pub record_invocation-complete :
    (s : MemoryStore) (generated : String) (start now : Instant) (inv : Invocation)
    (status message : String) (ended : Instant)
    → let (stored, made) = record_invocation s generated start inv in
      let done = complete stored now made.id status message ended in
      (done.1 ≡ true)
      × ((rec : Invocation) × (get done.0 made.id ≡ some rec)
          × IsOutcome inv generated start now status message ended rec)
      × ((j : String) → made.id ≢ j → get done.0 j ≡ get stored j)
unfolding complete complete_found get
record_invocation-complete s generated start now inv status message ended =
    let found = recorded_is_found s generated start inv in
    let made = (record_invocation s generated start inv).1 in
    rw (found, complete_found)
      (
        refl,
        (
          finish status message (if is_zero_time ended then now else ended) made,
          rw (lookup-insert, ==_refl made.id, if◌then◌else◌) refl,
          unfold record_invocation in finish-IsOutcome generated start now inv status message ended,
        ),
        λ j other. rw (lookup-insert, ==_false made.id j other, if◌then◌else◌) refl,
      )
