-- ===== src/Channels.antt =====
-- services/hub/internal/channels/store.go on its two tables. A statement is one atomic step; the
-- generated id and the clock of a call are its arguments, and so is PostgreSQL's order of texts.
-- Connection errors are left out.
pub mod Rows
pub mod Recursion
pub mod Graph
pub mod Walk
pub mod Invariant
pub mod Bridges
pub mod Bridging
pub mod Calls
pub mod Provisioning
pub mod Transfer
pub mod Reconcile
pub mod Views
mod Tests
use Prim.Native.String.{◌++◌ as ◌appended◌}
use mathlib.Core.Option
use ainsel.Prelude.{
  ℕ, Bool, true, false, not, ◌&&◌, ◌||◌, List, [], ◌∷◌, ◌++◌, Option, none, some, String,
  if◌then◌else◌, ◌==◌, nat_eq, string_eq, ltb, any, keep, length,
}
use ainsel.Prelude.Order.{SortSlice}
use ainsel.Prelude.Time.{Instant}
use ainsel.Queue.Rows.{alter, count_rows}
use Rows.{Kind, kind_custom, valid, Channel, ref_of, Bridge, default_description, unless_empty}
use Graph.{reaches}

pub record Store : Type 0 where
  pub channels : List Channel
  pub bridges : List Bridge

-- The sentinel errors, an argument that is refused before any statement, and a statement that a
-- constraint of the tables refuses.
pub data Error : Type 0 where
  not_found : Error
  in_use : Error
  not_custom : Error
  bridge_exists : Error
  cycle : Error
  self_edge : Error
  no_custom_endpoint : Error
  bad_argument : Error
  constraint : Error

pub data Result (A : Type 0) : Type 0 where
  ok : A → Result A
  err : Error → Result A

-- The first row that passes a test: a query by a unique key.
unfoldable pub find : {A : Type 0} → (A → Bool) → List A → Option A
find p [] = none
find p (x ∷ xs) = if p x then some x else find p xs

-- `pgx.ErrNoRows`
unfoldable pub or_not_found : {A : Type 0} → Option A → Result A
or_not_found none = err not_found
or_not_found (some a) = ok a

unfoldable pub has_id : String → Channel → Bool
has_id id c = c.id == id

-- `entity_ref = $2`, which is not true of NULL.
unfoldable pub is_ref : String → Option String → Bool
is_ref ref none = false
is_ref ref (some r) = r == ref

-- `kind = $1 AND entity_ref = $2`
unfoldable pub is_entity : Kind → String → Channel → Bool
is_entity kind ref c = c.kind == kind && is_ref ref c.entity_ref

unfoldable pub get : Store → String → Result Channel
get s id = or_not_found (find (has_id id) s.channels)

unfoldable pub get_by_entity : Store → Kind → String → Result Channel
get_by_entity s kind ref = or_not_found (find (is_entity kind ref) s.channels)

-- `ON CONFLICT … DO UPDATE SET`, from the row that was to be inserted.
unfoldable pub refresh : Instant → Channel → Channel → Channel
refresh now excluded c = record c {
  name = unless_empty excluded.name c.name;
  description = unless_empty excluded.description c.description;
  orphaned = false;
  updated_at = now;
}

-- An INSERT, which a used id makes the primary key refuse.
unfoldable pub insert_channel : Store → Channel → Store × Result Channel
insert_channel s c =
    if any (has_id c.id) s.channels
    then (s, err constraint)
    else (record s { channels = s.channels ++ c ∷ [] }, ok c)

unfoldable pub entity_row : Instant → String → Kind → String → String → String → Channel
entity_row now id kind ref name description = record {
  id = id;
  kind = kind;
  name = unless_empty name ref;
  description = unless_empty description (default_description kind ref);
  entity_ref = some ref;
  orphaned = false;
  created_at = now;
  updated_at = now;
}

unfoldable pub upsert_found :
    Store → Instant → Kind → String → Channel → Option Channel → Store × Result Channel
upsert_found s now kind ref row none = insert_channel s row
upsert_found s now kind ref row (some c) = (
  record s { channels = alter (is_entity kind ref) (refresh now row) s.channels },
  ok (refresh now row c),
)

-- The upsert of `Ensure`.
unfoldable pub upsert : Store → Instant → Kind → String → Channel → Store × Result Channel
upsert s now kind ref row = upsert_found s now kind ref row (find (is_entity kind ref) s.channels)

unfoldable pub ensure :
    Store → Instant → String → Kind → String → String → String → Store × Result Channel
ensure s now id kind ref name description =
    if not (valid kind) || ref == "" || kind == kind_custom
    then (s, err bad_argument)
    else upsert s now kind ref (entity_row now id kind ref name description)

unfoldable pub create : Store → Instant → String → String → String → Store × Result Channel
create s now id name description = insert_channel s (record {
  id = id;
  kind = kind_custom;
  name = name;
  description = unless_empty description (default_description kind_custom name);
  entity_ref = none;
  orphaned = false;
  created_at = now;
  updated_at = now;
})

unfoldable pub is_custom : Channel → Bool
is_custom c = c.kind == kind_custom

-- `COALESCE($2, name)`
unfoldable pub or_stored : Option String → String → String
or_stored none stored = stored
or_stored (some given) stored = given

unfoldable pub relabel : Instant → Option String → Option String → Channel → Channel
relabel now name description c = record c {
  name = or_stored name c.name;
  description = or_stored description c.description;
  updated_at = now;
}

-- `get` is only asked whether the id exists once no row was changed.
unfoldable pub refusal : Result Channel → Error
refusal (err not_found) = not_found
refusal (err e) = not_custom
refusal (ok c) = not_custom

unfoldable pub update :
    Store → Instant → String → Option String → Option String → Store × Result Channel
update s now id name description =
    let hit = λ (c : Channel). has_id id c && is_custom c in
    let changed = record s { channels = alter hit (relabel now name description) s.channels } in
    if count_rows hit s.channels == 0
    then (changed, err (refusal (get s id)))
    else (changed, get changed id)

unfoldable pub touches : String → Bridge → Bool
touches id b = b.from_channel == id || b.to_channel == id

-- DELETE, with the bridges that `ON DELETE CASCADE` takes along.
unfoldable pub remove_channel : Store → String → Store
remove_channel s id = record {
  channels = keep (λ (c : Channel). not (has_id id c)) s.channels;
  bridges = keep (λ (b : Bridge). not (touches id b)) s.bridges;
}

unfoldable pub delete_found : Store → String → Channel → Store × Result Unit
delete_found s id c =
    if is_custom c
    then if ltb 0 (count_rows (touches id) s.bridges)
      then (s, err in_use)
      else (remove_channel s id, ok tt)
    else (s, err not_custom)

unfoldable pub delete_row : Store → String → Option Channel → Store × Result Unit
delete_row s id none = (s, err not_found)
delete_row s id (some c) = delete_found s id c

unfoldable pub delete : Store → String → Store × Result Unit
delete s id = delete_row s id (find (has_id id) s.channels)

-- `entity_ref IS NOT NULL … AND NOT (entity_ref = ANY($2))`
unfoldable pub is_gone : List String → Option String → Bool
is_gone refs none = false
is_gone refs (some r) = not (any (λ ref. ref == r) refs)

unfoldable pub is_lost : Kind → List String → Channel → Bool
is_lost kind refs c = c.kind == kind && not c.orphaned && is_gone refs c.entity_ref

unfoldable pub mark_orphans : Store → Instant → Kind → List String → Store × Result ℕ
mark_orphans s now kind refs =
    if not (valid kind) || kind == kind_custom then (s, err bad_argument) else (
      record s {
        channels =
            alter (is_lost kind refs)
              (λ (c : Channel). record c { orphaned = true; updated_at = now }) s.channels;
      },
      ok (count_rows (is_lost kind refs) s.channels),
    )
