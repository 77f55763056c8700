-- ===== src/Publisher/Tests.antt =====
-- Runs of the queue-signal publisher, and the theorems about it at concrete rounds.
use ainsel.Publisher.{
  after_patch, is_repeat, verdict, act, publish_measured, Publisher, World, publish_one, published,
  publish_round, signal_of, is_edge, finished,
}
use ainsel.Publisher.Report.{same_counts, Signal, written, empty}
use ainsel.Prelude.{ℕ, ◌≡◌, refl, true, false, [], ◌∷◌, some, string_eq}
use ainsel.Prelude.Dict.{lookup}
use ainsel.Queue.{QueueDepth}
use ainsel.Publisher.Delivery.{IsDirty, IsCovered}
use ainsel.Publisher.Rounds.{publish_round-covers}

abbrev depth : ℕ → ℕ → QueueDepth
depth pending active = record { pending = pending; active = active }

abbrev report : Signal
report = record { pending = 2; active = 1; observed_at = 100; last_invocation = 100 }

-- Three tasks wait and one is in flight; the API server is well.
abbrev well : World
well = record {
  measure = λ n. some (depth 3 1);
  patch = λ n s. written;
  now = λ n. 150;
  arrivals = λ n. [];
}

abbrev busy : Publisher
busy = record {
  debounce = 100;
  dirty = ("reviewer", true) ∷ [];
  last = ("reviewer", report) ∷ [];
  next_pub = ("reviewer", 200) ∷ [];
}

abbrev idle : World
idle = record well { measure = λ n. some (depth 0 0) }

drained : (publish_one idle busy "reviewer" false).1 ≡ finished
unfolding publish_one publish_measured act verdict is_repeat lookup same_counts signal_of is_edge
    empty after_patch
drained = refl

publish_round-covers_example :
    IsCovered well false (some report) (publish_round well false busy) "reviewer"
unfolding IsDirty lookup published
publish_round-covers_example = publish_round-covers well false busy "reviewer" refl
