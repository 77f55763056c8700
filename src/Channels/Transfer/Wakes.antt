-- ===== src/Channels/Transfer/Wakes.antt =====
-- From an event in services/hub/internal/router/router.go to the tasks of the agents whose inboxes
-- the bridges of services/hub/internal/channels/store.go reach.
use ainsel.Prelude.{
  ℕ, ◌≤◌, ◌≡◌, ◌≢◌, refl, sym, subst, inl, inr, true, false, List, [], Option, none, some, String,
  if◌then◌else◌, ◌==◌, string_eq, any, All, All-Has, Has, Bool-cases, any_found, ==_false,
}
use ainsel.Prelude.Time.{Instant}
use ainsel.Trigger.Index.{MatchResult, index_match}
use ainsel.Trigger.Dedup.{deduplicate_by_agent}
use ainsel.Queue.{has_event, mark_routed}
use ainsel.Queue.Rows.{EventRow}
use ainsel.Queue.Deliveries.{IsDelivered}
use ainsel.Router.{
  Router, Routed, Hub, Headers, has_channel, route_via_triggers, route_via_bridges, conclude,
  handle_matches, handle_event, shared_event,
}
use ainsel.Router.Delivery.{route_each-delivered, route_each-events}
use ainsel.Router.Handling.{after_transfer-hub, route_via_bridges-keeps}
use ainsel.Channels.Rows.{Channel, ref_of, kind_agent}
use ainsel.Channels.Walk.{max_walk_depth, deliveries}
use ainsel.Channels.Walk.Depth.{LeadsIn}
use ainsel.Channels.Walk.Inboxes.Exact.{deliveries-IsComplete}
use ainsel.Channels.Invariant.{IsSound, IsSound-HasEnds}
use ainsel.Channels.Transfer.{Transfer, or_blank, birth_channel, transfer_each, apply_each, apply}
use ainsel.Channels.Transfer.Keeps.{apply-KeepsTasks, transfer_each-IsDelivered}

-- An agent's inbox that a path of at most eight bridges reaches from a channel.
pub record IsInReach (t : Transfer) (birth : String) (c : Channel) : Type 0 where
  pub stored : Has c t.store.channels
  pub kind : c.kind ≡ kind_agent
  pub named : ref_of c ≢ ""
  pub other : c.id ≢ birth
  pub bridges : ℕ
  pub bounded : bridges ≤ max_walk_depth
  pub leads : LeadsIn t.store.bridges birth bridges c.id

channel_known : (o : Option String) → or_blank o ≢ "" → has_channel o ≡ true
unfolding or_blank has_channel
channel_known none known = absurd (known refl)
channel_known (some c) known = rw (==_false c "" known, if◌then◌else◌) refl

module _ (t : Transfer) (now : Instant) (evt : EventRow) (headers : Headers) (c : Channel)
    (sound : IsSound t.store) (known : birth_channel evt ≢ "")
    (reach : IsInReach t (birth_channel evt) c) where
  apply-IsDelivered :
      (delivered : List String) (hub : Hub)
      → has_event evt.id hub.queue.events ≡ true
      → any (λ name. name == ref_of c) delivered ≡ false
      → IsDelivered (apply t now hub evt headers delivered).0.queue evt.id (ref_of c)
  unfolding apply apply_each
  apply-IsDelivered delivered hub stored fresh =
      let birth = birth_channel evt in
      let (d, m, at, name) =
        deliveries-IsComplete t.db t.store birth delivered c reach.bridges
          (IsSound-HasEnds t.store sound) sound.keys known reach.stored reach.kind reach.named fresh
          reach.other reach.bounded reach.leads in
      let moved = transfer_each t now evt headers (deliveries t.db t.store birth delivered) hub in
      rw (==_false (birth_channel evt) "" known, if◌then◌else◌)
        (subst (IsDelivered moved.0.queue evt.id) name (
          transfer_each-IsDelivered t now evt headers (deliveries t.db t.store birth delivered) hub
            d stored m))

  -- The inbox's agent has a task after the transfer, by a trigger or by a bridge.
  bridges-IsDelivered :
      (delivered : List String) (hub : Hub)
      → has_event evt.id hub.queue.events ≡ true
      → All (IsDelivered hub.queue evt.id) delivered
      → IsDelivered
          (route_via_bridges (some (apply t now)) evt headers delivered hub).0.queue
          evt.id
          (ref_of c)
  unfolding route_via_bridges birth_channel
  bridges-IsDelivered delivered hub stored had =
      elim (Bool-cases (any (λ name. name == ref_of c) delivered)) [
        | inl before ↦
            let (name, m, same) = any_found (λ n. n == ref_of c) delivered before in
            route_via_bridges-keeps (some (apply t now)) evt headers delivered hub evt.id (ref_of c)
              (apply-KeepsTasks t now)
              (subst (IsDelivered hub.queue evt.id) ((string_eq.beq_iff name (ref_of c)).0 same)
                (All-Has (IsDelivered hub.queue evt.id) delivered had m))
        | inr fresh ↦
            rw
              (
                channel_known evt.channel_id known,
                if◌then◌else◌,
                after_transfer-hub (apply t now hub evt headers delivered),
              )
              (apply-IsDelivered delivered hub stored fresh)
      ]

-- No inbox in reach is left out. When the router, with the channel graph's transfer, handles a stored
-- event whose matching returns, the handling returns too; afterwards an agent has a task for the
-- event if a path of at most eight bridges leads from the event's channel to its inbox, whatever
-- the triggers did, provided that the tables of the channels are sound.
pub handle_event-reaches :
    (r : Router) (t : Transfer) (now : Instant) (evt : EventRow) (hub : Hub) (c : Channel)
    {results : List MatchResult}
    → r.transfers ≡ some (apply t now)
    → IsSound t.store
    → birth_channel evt ≢ ""
    → IsInReach t (birth_channel evt) c
    → has_event evt.id hub.queue.events ≡ true
    → index_match r.go r.index (shared_event r now evt) ≡ some results
    → (after : Hub) × (handle_event r now evt hub ≡ some after)
      × IsDelivered after.queue evt.id (ref_of c)
unfolding handle_event handle_matches conclude mark_routed route_via_triggers
handle_event-reaches r t now evt hub c {results} wired sound known reach stored matched =
    let headers = r.decode_headers evt.headers in
    let matches = deduplicate_by_agent r.sort results in
    let none_yet : Routed = record {
      hub = hub;
      matches = [];
      delivered = [];
      all_enqueued = true;
    } in
    let routed = route_via_triggers r now evt headers matches hub in
    (
      handle_matches r now evt hub results,
      rw matched refl,
      subst
          (λ o.
            IsDelivered (route_via_bridges o evt headers routed.delivered routed.hub).0.queue evt.id
              (ref_of c))
          (sym wired)
          (bridges-IsDelivered t now evt headers c sound known reach routed.delivered routed.hub
            (route_each-events r now evt headers matches none_yet stored)
            (route_each-delivered r now evt headers matches none_yet stored tt)),
    )
