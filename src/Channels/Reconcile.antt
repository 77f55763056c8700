-- ===== src/Channels/Reconcile.antt =====
-- services/hub/internal/channels/reconcile.go, and `Entity` as registry_kube.go makes it. What the
-- registry lists, what the event queue reports and how it stamps its events are parameters, in
-- which `none` is an error; so is the generated id of each call of `Ensure`.
pub mod Present
pub mod Settled
pub mod Ensured
pub mod Synced
mod Tests
use ainsel.Prelude.{
  ℕ, suc, ◌+◌, Bool, true, false, not, ◌&&◌, ◌||◌, List, [], ◌∷◌, ◌++◌, Option, none, some, String,
  if◌then◌else◌, ◌==◌, string_eq, map, keep,
}
use ainsel.Prelude.Order.{SortSlice}
use ainsel.Prelude.Time.{Instant}
use ainsel.Channels.Rows.{
  Kind, kind_connector, kind_agent, Channel, ref_of, Entity, default_description,
}
use ainsel.Channels.{Store, Result, ok, err, ensure, mark_orphans}

-- An entity of the Kubernetes registry, by its name, display name and description.
unfoldable pub entity_of : String → String → String → Entity
entity_of name display_name description = record {
  ref = name;
  name = if display_name == "" then name else display_name;
  description = description;
}

pub record ChannelStamp : Type 0 where
  pub label : String
  pub channel_id : String

pub record Registry : Type 0 where
  pub agents : Option (List Entity)
  pub connectors : Option (List Entity)

-- `ORDER BY kind, name, id`
abbrev pub channel_less : (String → String → Bool) → Channel → Channel → Bool
channel_less text_less a b =
    text_less a.kind b.kind
    || a.kind == b.kind && (text_less a.name b.name || a.name == b.name && text_less a.id b.id)

-- `List` of the store.
unfoldable pub list_channels :
    (text_less : String → String → Bool)
    → SortSlice (channel_less text_less)
    → Store
    → Kind
    → List Channel
list_channels text_less order s kind =
    order.sort (keep (λ (c : Channel). kind == "" || c.kind == kind) s.channels)

pub record History : Type 0 where
  pub text_less : String → String → Bool
  pub order : SortSlice (channel_less text_less)
  pub unstamped_labels : Option (List String)
  pub inbox_agents : Option (List String)
  pub stamp_births : List ChannelStamp → Option ℕ
  pub stamp_inboxes : List ChannelStamp → Option ℕ

pub record SyncResult : Type 0 where
  pub provisioned : ℕ
  pub orphaned : ℕ
  pub stamped_events : ℕ

-- The arguments of one call of `Ensure`.
pub record Wanted : Type 0 where
  pub kind : Kind
  pub ref : String
  pub name : String
  pub description : String

unfoldable pub entity_description : Kind → Entity → String
entity_description kind e =
    if e.description == "" then default_description kind e.name else e.description

abbrev pub of_entity : Kind → Entity → Wanted
of_entity kind e = record {
  kind = kind;
  ref = e.ref;
  name = e.name;
  description = entity_description kind e;
}

abbrev pub of_label : Kind → String → Wanted
of_label kind label = record {
  kind = kind;
  ref = label;
  name = label;
  description = default_description kind label;
}

-- `ainselapishared.IsDirectSource`
unfoldable pub is_direct_source : String → Bool
is_direct_source label = label == "cron" || label == "chat"

-- The store and `res.Provisioned`, and whether no call has failed.
pub record Pass : Type 0 where
  pub store : Store
  pub provisioned : ℕ
  pub going : Bool

unfoldable pub after_ensure : Pass → Store × Result Channel → Pass
after_ensure p (s, err e) = record { store = s; provisioned = p.provisioned; going = false }
after_ensure p (s, ok c) = record { store = s; provisioned = suc p.provisioned; going = p.going }

-- One round of a loop over `Ensure`; after a failed call nothing is called.
unfoldable pub ensure_one : Instant → (ℕ → String) → Pass → Wanted → Pass
ensure_one now new_id p w =
    if p.going
    then after_ensure p
        (ensure p.store now (new_id p.provisioned) w.kind w.ref w.name w.description)
    else p

unfoldable pub ensure_each : Instant → (ℕ → String) → List Wanted → Pass → Pass
ensure_each now new_id [] p = p
ensure_each now new_id (w ∷ ws) p = ensure_each now new_id ws (ensure_one now new_id p w)

-- The loop over what the queue reports, whose error ends the pass.
unfoldable pub ensure_listed : Instant → (ℕ → String) → Option (List Wanted) → Pass → Pass
ensure_listed now new_id none p = record p { going = false }
ensure_listed now new_id (some ws) p = ensure_each now new_id ws p

unfoldable pub label_wants : Option (List String) → Option (List Wanted)
label_wants none = none
label_wants (some labels) =
    some (map (of_label kind_connector) (keep (λ l. not (is_direct_source l)) labels))

unfoldable pub inbox_wants : Option (List String) → Option (List Wanted)
inbox_wants none = none
inbox_wants (some names) = some (map (of_label kind_agent) names)

abbrev pub entity_refs : List Entity → List String
entity_refs = map (λ (e : Entity). e.ref)

abbrev pub stamp_of : Channel → ChannelStamp
stamp_of c = record { label = ref_of c; channel_id = c.id }

abbrev pub stamps_for : Kind → List Channel → List ChannelStamp
stamps_for kind channels =
    map stamp_of (keep (λ (c : Channel). not (ref_of c == "") && c.kind == kind) channels)

-- `stampHistory`, with what it has stamped when the second stamping fails.
unfoldable pub stamp_history : History → Store → ℕ × Bool
stamp_history h s =
    elim (h.stamp_births (stamps_for kind_connector (list_channels h.text_less h.order s ""))) [
      | none ↦ (0, false)
      | some births ↦
          elim (h.stamp_inboxes (stamps_for kind_agent (list_channels h.text_less h.order s ""))) [
            | none ↦ (births, false)
            | some inboxes ↦ (births + inboxes, true)
          ]
    ]

unfoldable pub provision :
    Instant → (ℕ → String) → History → List Entity → List Entity → Store → Pass
provision now new_id h agents connectors s = ensure_listed now new_id (inbox_wants h.inbox_agents) (
    ensure_listed now new_id (label_wants h.unstamped_labels) (
      ensure_each now new_id
        (map (of_entity kind_connector) connectors ++ map (of_entity kind_agent) agents)
        (record { store = s; provisioned = 0; going = true })))

-- The number of orphans, or 0 on an error.
unfoldable pub count_of : Result ℕ → ℕ
count_of (ok n) = n
count_of (err e) = 0

-- The end of `Sync`, after every `Ensure` has succeeded. Neither call of `MarkOrphans` is of a kind
-- that it refuses.
unfoldable pub settle :
    Instant → History → List Entity → List Entity → Pass → Store × (SyncResult × Bool)
settle now h agents connectors p =
    let by_connectors = mark_orphans p.store now kind_connector (entity_refs connectors) in
    let by_agents = mark_orphans by_connectors.0 now kind_agent (entity_refs agents) in
    let stamped = stamp_history h by_agents.0 in
    (
      by_agents.0,
      (
        record {
          provisioned = p.provisioned;
          orphaned = count_of by_connectors.1 + count_of by_agents.1;
          stamped_events = if stamped.1 then stamped.0 else 0;
        },
        stamped.1,
      ),
    )

unfoldable pub failed_pass : Pass → Store × (SyncResult × Bool)
failed_pass p =
    (p.store, (record { provisioned = p.provisioned; orphaned = 0; stamped_events = 0 }, false))

unfoldable pub finish_pass :
    Instant → History → List Entity → List Entity → Pass → Store × (SyncResult × Bool)
finish_pass now h agents connectors p =
    if p.going then settle now h agents connectors p else failed_pass p

-- `Sync`, with its result and whether it returned no error.
unfoldable pub sync :
    Instant → (ℕ → String) → Registry → History → Store → Store × (SyncResult × Bool)
sync now new_id r h s = elim r.agents [
  | none ↦ failed_pass (record { store = s; provisioned = 0; going = false })
  | some agents ↦ elim r.connectors [
    | none ↦ failed_pass (record { store = s; provisioned = 0; going = false })
    | some connectors ↦
        finish_pass now h agents connectors (provision now new_id h agents connectors s)
  ]
]
