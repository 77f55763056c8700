-- ===== src/Cron/Tests.antt =====
-- A trigger that fires every ten units of time.
use ainsel.Prelude.{string_eq, ℕ, ◌+◌, ◌==◌, ◌≡◌, ◌⊎◌, refl, true, false, [], ◌∷◌, some, none}
use ainsel.Prelude.Dict.{lookup}
use ainsel.Queue.{has_event}
use ainsel.Invocations.{MemoryStore}
use ainsel.Cron.{Entry, Wiring, Emitter, fire_entry}
use ainsel.Cron.Publishing.{KeepsRows, fails}
use ainsel.Cron.Firing.{IsFired, IsAborted, fire_entry-IsDelivered}

abbrev wiring : Wiring ℕ
wiring = record {
  parse = λ s. some 10;
  next = λ period t. t + period;
  inbox_of = none;
  transfer = none;
  encode_data = λ id prompt. prompt;
  encode_headers = λ h. "{}";
  new_event_id = λ id t. "cron-1";
  new_id = λ id t. "inv-1";
  insert_fails = λ evt. false;
  mark_fails = λ event. false;
  enqueue_fails = λ task. false;
  notify_fails = λ event agent. agent == "planner";
  failure_text = "cron publish failed";
}

abbrev nightly : Entry ℕ
nightly = record {
  id = "nightly";
  agent_ref = "reviewer";
  prompt = "review";
  schedule = 10;
  enabled = true;
  last_fired = 20;
  next_run = 30;
}

abbrev log : MemoryStore
log = record { capacity = 10; order = []; by_id = [] }

abbrev emitter : Emitter ℕ
emitter = record {
  entries = ("nightly", nightly) ∷ [];
  hub = record {
    queue = record { events = []; tasks = []; next_id = 1; observed = []; notified = [] };
    invocations = some log;
    activity = [];
  };
}

fire_entry-IsDelivered_example :
    ((fails ℕ wiring 31 "cron-1" nightly "inv-1" ≡ false)
      × IsFired ℕ wiring 31 30 nightly nightly (fire_entry ℕ wiring 31 nightly emitter))
    ⊎ ((fails ℕ wiring 31 "cron-1" nightly "inv-1" ≡ true)
        × IsAborted ℕ wiring 31 nightly emitter (fire_entry ℕ wiring 31 nightly emitter))
unfolding KeepsRows lookup has_event
fire_entry-IsDelivered_example =
    fire_entry-IsDelivered ℕ wiring 31 nightly nightly emitter log tt refl refl refl refl refl
      (λ m. m)

went_well : fails ℕ wiring 31 "cron-1" nightly "inv-1" ≡ false
went_well = refl
