-- ===== src/Router/Handling.antt =====
-- What one event's handling in services/hub/internal/router/router.go achieves, from the index to
-- the task queue.
use ainsel.Prelude.{
  ◌≡◌, refl, inl, inr, true, List, [], ◌∷◌, Option, none, some, String, ◌==◌, string_eq, All, Has,
  map, if◌then◌else◌, Bool-cases,
}
use ainsel.Prelude.Time.{Instant}
use ainsel.Trigger.Index.{MatchResult, index_match}
use ainsel.Trigger.Dedup.{deduplicate_by_agent}
use ainsel.Trigger.Dedup.Laws.{deduplicate_by_agent-IsDeduplicated}
use ainsel.Queue.{Queue, has_event, mark_routed}
use ainsel.Queue.Rows.{EventRow}
use ainsel.Queue.Deliveries.{IsDelivered}
use ainsel.Router.{
  Router, Hub, Headers, Transferer, TransferResult, after_transfer, has_channel, route_via_triggers,
  route_via_bridges, conclude, handle_matches, handle_event, shared_event,
}
use ainsel.Router.Delivery.{route_each-IsDelivered}

-- A transfer takes no task away.
unfoldable pub KeepsTasks : Option Transferer → Type 0
KeepsTasks none = Unit
KeepsTasks (some apply) =
    (hub : Hub) (evt : EventRow) (headers : Headers) (delivered : List String)
    (event agent : String)
    → IsDelivered hub.queue event agent
    → IsDelivered (apply hub evt headers delivered).0.queue event agent

-- Every row of the event carries the time at which it was routed.
unfoldable pub IsRouted : Queue → Instant → String → Type 0
IsRouted q now id = All (λ e. e.id ≡ id → e.routed_at ≡ some now) q.events

marked_rows :
    (now : Instant) (id : String) (es : List EventRow)
    → All
        (λ (e : EventRow). e.id ≡ id → e.routed_at ≡ some now)
        (map (λ (e : EventRow). if e.id == id then record e { routed_at = some now } else e) es)
marked_rows now id [] = tt
marked_rows now id (e ∷ es) = elim (Bool-cases (e.id == id)) [
  | inl hit ↦ rw (hit, if◌then◌else◌) (λ s. refl, marked_rows now id es)
  | inr miss ↦
      rw (miss, if◌then◌else◌)
        (λ s. absurd (cc (miss, (string_eq.beq_iff e.id id).1 s)), marked_rows now id es)
]

pub after_transfer-hub : (p : Hub × Option (List TransferResult)) → (after_transfer p).0 ≡ p.0
unfolding after_transfer
after_transfer-hub (hub, none) = refl
after_transfer-hub (hub, some results) = refl

pub route_via_bridges-keeps :
    (t : Option Transferer) (evt : EventRow) (headers : Headers) (delivered : List String)
    (hub : Hub) (event agent : String)
    → KeepsTasks t
    → IsDelivered hub.queue event agent
    → IsDelivered (route_via_bridges t evt headers delivered hub).0.queue event agent
unfolding route_via_bridges KeepsTasks
route_via_bridges-keeps none evt headers delivered hub event agent k h = h
route_via_bridges-keeps (some apply) evt headers delivered hub event agent k h =
    elim (Bool-cases (has_channel evt.channel_id)) [
      | inl c ↦
          rw (c, if◌then◌else◌, after_transfer-hub (apply hub evt headers delivered))
            (k hub evt headers delivered event agent h)
      | inr c ↦ rw (c, if◌then◌else◌) h
    ]

-- No wake-up is lost. When the router handles a stored event whose matching returns, the handling
-- returns too; afterwards every agent that some trigger matched has a task for the event, and the
-- event is marked as routed at that time, so that it is not fetched again; whatever the order of the
-- index, the deduplication, the earlier tasks and the channel transfer do, provided that the transfer
-- takes no task away.
pub handle_event-delivers :
    (r : Router) (now : Instant) (evt : EventRow) (hub : Hub) {results : List MatchResult}
    → has_event evt.id hub.queue.events ≡ true
    → KeepsTasks r.transfers
    → index_match r.go r.index (shared_event r now evt) ≡ some results
    → (after : Hub) × (handle_event r now evt hub ≡ some after)
      × ((m : MatchResult) → Has m results → IsDelivered after.queue evt.id m.agent_ref)
      × IsRouted after.queue now evt.id
unfolding handle_event handle_matches conclude mark_routed route_via_triggers IsRouted
handle_event-delivers r now evt hub {results} known keeps matched = (
  handle_matches r now evt hub results,
  rw matched refl,
  λ m h. route_via_bridges-keeps r.transfers evt _ _ _ evt.id m.agent_ref keeps (
      route_each-IsDelivered r now evt (r.decode_headers evt.headers)
        (deduplicate_by_agent r.sort results) _ m known
        ((deduplicate_by_agent-IsDeduplicated r.sort results).least m h)),
  marked_rows now evt.id _,
)
