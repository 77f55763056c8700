-- ===== src/Channels/Bridges.antt =====
-- The bridges of services/hub/internal/channels/store.go: `CreateBridge`, its checks apart from its
-- INSERT, `GetBridge` and `DeleteBridge`.
use Prim.Native.String.{◌++◌ as ◌appended◌}
use ainsel.Prelude.{
  Bool, not, ◌&&◌, ◌||◌, [], ◌∷◌, ◌++◌, String, if◌then◌else◌, ◌==◌, nat_eq, string_eq, any, keep,
}
use ainsel.Prelude.Time.{Instant}
use ainsel.Queue.Rows.{count_rows}
use ainsel.Channels.Rows.{Channel, Bridge}
use ainsel.Channels.Graph.{reaches}
use ainsel.Channels.{
  Store, not_found, bridge_exists, cycle, self_edge, no_custom_endpoint, constraint, Result, ok,
  err, find, or_not_found, has_id, get, is_custom,
}

unfoldable pub get_bridge : Store → String → Result Bridge
get_bridge s id = or_not_found (find (λ (b : Bridge). b.id == id) s.bridges)

-- The checks of `CreateBridge` before its INSERT: the name that the bridge gets.
unfoldable pub check_pair : Store → String → String → String → Channel → Channel → Result String
check_pair s from_id to_id name from to =
    if not (is_custom from) && not (is_custom to)
    then err no_custom_endpoint
    else if reaches s.bridges to_id from_id
    then err cycle
    else ok (if name == "" then from.name appended (" → " appended to.name) else name)

unfoldable pub check_to :
    Store → String → String → String → Channel → Result Channel → Result String
check_to s from_id to_id name from (err e) = err e
check_to s from_id to_id name from (ok to) = check_pair s from_id to_id name from to

unfoldable pub check_from : Store → String → String → String → Result Channel → Result String
check_from s from_id to_id name (err e) = err e
check_from s from_id to_id name (ok from) = check_to s from_id to_id name from (get s to_id)

unfoldable pub check_bridge : Store → String → String → String → Result String
check_bridge s from_id to_id name =
    if from_id == to_id then err self_edge else check_from s from_id to_id name (get s from_id)

-- The unique pair of ends, and the primary key.
unfoldable pub clashes : Bridge → Bridge → Bool
clashes b o = o.from_channel == b.from_channel && o.to_channel == b.to_channel || o.id == b.id

-- The INSERT of `CreateBridge`: CHECK, the conflict target, the primary key, the foreign keys.
unfoldable pub insert_bridge : Store → Bridge → Store × Result Bridge
insert_bridge s b =
    let added = record s { bridges = s.bridges ++ b ∷ [] } in
    if b.from_channel == b.to_channel
    then (s, err constraint)
    else if any (clashes b) s.bridges
    then (s, err bridge_exists)
    else if any (has_id b.from_channel) s.channels && any (has_id b.to_channel) s.channels
    then (added, get_bridge added b.id)
    else (s, err constraint)

unfoldable pub new_bridge : Instant → String → String → String → String → Bridge
new_bridge now id from_id to_id name = record {
  id = id;
  name = name;
  from_channel = from_id;
  to_channel = to_id;
  created_at = now;
  updated_at = now;
}

unfoldable pub after_check :
    Store → Instant → String → String → String → Result String → Store × Result Bridge
after_check s now id from_id to_id (err e) = (s, err e)
after_check s now id from_id to_id (ok name) =
    insert_bridge s (new_bridge now id from_id to_id name)

unfoldable pub create_bridge :
    Store → Instant → String → String → String → String → Store × Result Bridge
create_bridge s now id from_id to_id name =
    after_check s now id from_id to_id (check_bridge s from_id to_id name)

unfoldable pub delete_bridge : Store → String → Store × Result Unit
delete_bridge s id =
    let hit = λ (b : Bridge). b.id == id in
    (
      record s { bridges = keep (λ b. not (hit b)) s.bridges },
      if count_rows hit s.bridges == 0 then err not_found else ok tt,
    )
