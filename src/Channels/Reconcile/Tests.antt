-- ===== src/Channels/Reconcile/Tests.antt =====
-- A pass over one connector and one agent, with a channel of an agent that is gone.
use ainsel.Prelude.{
  ◌≡◌, refl, true, false, [], ◌∷◌, some, String, arith, ℕ, Bool, if◌then◌else◌, nat_beq,
}
use ainsel.Prelude.Order.Insertion.{sorter}
use ainsel.Channels.Rows.{
  Channel, Entity, valid, default_description, unless_empty, kind_connector, kind_agent,
}
use ainsel.Channels.{
  Store, ensure, upsert, upsert_found, find, is_entity, is_ref, entity_row, insert_channel, has_id,
  refresh, mark_orphans,
}
use ainsel.Channels.Reconcile.{
  channel_less, History, sync, finish_pass, provision, ensure_listed, inbox_wants, ensure_each,
  label_wants, is_direct_source, ensure_one, after_ensure, entity_description, settle,
  stamp_history,
}
use ainsel.Channels.Reconcile.Synced.{IsSynced, sync-IsSynced}

-- All texts are equal: any order of the rows is a sort.
abbrev unordered : String → String → Bool
unordered s t = false

unordered_asym :
    (a b : Channel) → channel_less unordered a b ≡ true → channel_less unordered b a ≡ false
unordered_asym a b h = ground (arith, h)

unordered_steps :
    (a b c : Channel)
    → channel_less unordered b a ≡ false
    → channel_less unordered c b ≡ false
    → channel_less unordered c a ≡ false
unordered_steps a b c h k = ground (arith, h, k)

abbrev history : History
history = record {
  text_less = unordered;
  order = sorter (channel_less unordered) unordered_asym unordered_steps;
  unstamped_labels = some ("cron" ∷ "gitea" ∷ []);
  inbox_agents = some [];
  stamp_births = λ stamps. some 3;
  stamp_inboxes = λ stamps. some 1;
}

abbrev forge : Entity
forge = record { ref = "forge"; name = "The forge"; description = "" }

abbrev reviewer : Entity
reviewer = record { ref = "reviewer"; name = "reviewer"; description = "reads patches" }

abbrev gone : Channel
gone = record {
  id = "a0";
  kind = "agent";
  name = "writer";
  description = "";
  entity_ref = some "writer";
  orphaned = false;
  created_at = 1;
  updated_at = 1;
}

abbrev before : Store
before = record { channels = gone ∷ []; bridges = [] }

abbrev ids : ℕ → String
ids n = if nat_beq n 0 then "x" else if nat_beq n 1 then "y" else "z"

abbrev after : Store
after =
    (sync 9 ids (record { agents = some (reviewer ∷ []); connectors = some (forge ∷ []) }) history
      before).0

sync-IsSynced_example :
    IsSynced kind_connector (forge ∷ []) after × IsSynced kind_agent (reviewer ∷ []) after
unfolding sync finish_pass provision ensure_listed inbox_wants ensure_each label_wants
    is_direct_source ensure_one after_ensure entity_description settle stamp_history ensure upsert
    upsert_found find is_entity is_ref entity_row insert_channel has_id refresh mark_orphans valid
    unless_empty default_description
sync-IsSynced_example = sync-IsSynced 9 ids (reviewer ∷ []) (forge ∷ []) history before refl
