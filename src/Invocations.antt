-- ===== src/Invocations.antt =====
-- services/hub/internal/invocations/types.go and the `MemoryStore` of store.go. The random id and
-- the clock of a call are its arguments; `sort.Slice` is a parameter.
pub mod Retention
pub mod Retained
pub mod Lifecycle
pub mod Selection
pub mod Listing
mod Tests
use ainsel.Prelude.{
  ℕ, suc, ◌+◌, ◌/◌, Bool, true, false, not, ◌&&◌, ◌||◌, List, [], ◌∷◌, ◌++◌, Option, none, some,
  String, if◌then◌else◌, ◌==◌, string_eq, ltb, leb, length, take, any,
}
use ainsel.Prelude.Int.{ℤ, pos, negsuc, leb_ℤ, div_ℤ}
use ainsel.Prelude.Dict.{lookup, insert, delete}
use ainsel.Prelude.Order.{SortSlice}
use ainsel.Prelude.Time.{Instant, is_zero_time, time_sub}

abbrev pub status_running : String
status_running = "running"

abbrev pub status_success : String
status_success = "success"

abbrev pub status_failure : String
status_failure = "failure"

abbrev pub status_timeout : String
status_timeout = "timeout"

-- Without `Task`, which this store never sets.
pub record Invocation : Type 0 where
  pub id : String
  pub agent_name : String
  pub trigger_name : String
  pub event_id : String
  pub connector : String
  pub start_time : Instant
  pub end_time : Option Instant
  pub duration_ms : Option ℤ
  pub status : String
  pub error : String

unfoldable pub is_terminal : Invocation → Bool
is_terminal i =
    i.status == status_success || i.status == status_failure || i.status == status_timeout

-- `order` has the ids in the order of insertion.
pub record MemoryStore : Type 0 where
  pub capacity : ℕ
  pub order : List String
  pub by_id : List (String × Invocation)

abbrev pub default_capacity : ℕ
default_capacity = 1000

unfoldable pub capacity_of : ℤ → ℕ
capacity_of (pos n) = if leb n 0 then default_capacity else n
capacity_of (negsuc n) = default_capacity

unfoldable pub new_memory_store : ℤ → MemoryStore
new_memory_store capacity = record { capacity = capacity_of capacity; order = []; by_id = [] }

-- The loop `for len(s.order) >= s.capacity`. At capacity 0 it would run past the last id into an
-- index panic; `new_memory_store` gives no such capacity.
unfoldable pub evict :
    ℕ → List String → List (String × Invocation) → List String × List (String × Invocation)
evict capacity [] by_id = ([], by_id)
evict capacity (oldest ∷ order) by_id =
    let rest = evict capacity order (delete oldest by_id) in
    if leb capacity (suc (length order)) then rest else (oldest ∷ order, by_id)

unfoldable pub or_else : String → String → String
or_else default given = if given == "" then default else given

-- The defaults of `Record`: a new id, the time, and `running`.
unfoldable pub completed_fields : String → Instant → Invocation → Invocation
completed_fields generated now inv = record inv {
  id = or_else generated inv.id;
  start_time = if is_zero_time inv.start_time then now else inv.start_time;
  status = or_else status_running inv.status;
}

unfoldable pub add : MemoryStore → Invocation → MemoryStore
add s inv =
    let kept = evict s.capacity s.order s.by_id in
    record s { order = kept.0 ++ inv.id ∷ []; by_id = insert inv.id inv kept.1 }

-- `Record`, with the invocation that it returns.
unfoldable pub record_invocation :
    MemoryStore → String → Instant → Invocation → MemoryStore × Invocation
record_invocation s generated now inv =
    let stored = completed_fields generated now inv in (add s stored, stored)

-- `d.Milliseconds()`
unfoldable pub milliseconds : ℤ → ℤ
milliseconds d = div_ℤ d (pos 1000000)

unfoldable pub finish : String → String → Instant → Invocation → Invocation
finish status message ended rec = record rec {
  status = status;
  end_time = some ended;
  duration_ms = some (milliseconds (time_sub ended rec.start_time));
  error = message;
}

unfoldable pub complete_found :
    MemoryStore → String → String → String → Instant → Option Invocation → MemoryStore × Bool
complete_found s id status message ended none = (s, false)
complete_found s id status message ended (some rec) =
    (record s { by_id = insert id (finish status message ended rec) s.by_id }, true)

unfoldable pub complete :
    MemoryStore → Instant → String → String → String → Instant → MemoryStore × Bool
complete s now id status message end_time =
    complete_found s id status message (if is_zero_time end_time then now else end_time)
      (lookup id s.by_id)

unfoldable pub get : MemoryStore → String → Option Invocation
get s id = lookup id s.by_id

-- A zero value applies no restriction. `limit` is an `int`.
pub record ListOptions : Type 0 where
  pub agent_name : String
  pub agent_names : List String
  pub status : String
  pub trigger_name : String
  pub event_id : String
  pub since : Instant
  pub until : Instant
  pub limit : ℤ

unfoldable pub unless_empty : String → String → Bool
unless_empty wanted given = wanted == "" || given == wanted

unfoldable pub among : List String → String → Bool
among [] name = true
among (n ∷ ns) name = any (λ (k : String). k == name) (n ∷ ns)

-- The chain of `continue` tests.
unfoldable pub selects : ListOptions → Invocation → Bool
selects opts rec =
    unless_empty opts.agent_name rec.agent_name
    && among opts.agent_names rec.agent_name
    && unless_empty opts.status rec.status
    && unless_empty opts.trigger_name rec.trigger_name
    && unless_empty opts.event_id rec.event_id
    && (is_zero_time opts.since || not (ltb rec.start_time opts.since))
    && (is_zero_time opts.until || ltb rec.start_time opts.until)

unfoldable pub keep_found :
    (Invocation → Bool) → Option Invocation → List Invocation → List Invocation
keep_found p none rest = rest
keep_found p (some rec) rest = if p rec then rec ∷ rest else rest

unfoldable pub matching :
    (Invocation → Bool) → List (String × Invocation) → List String → List Invocation
matching p by_id [] = []
matching p by_id (id ∷ order) = keep_found p (lookup id by_id) (matching p by_id order)

-- `out[i].StartTime.After(out[j].StartTime)`
unfoldable pub newer : Invocation → Invocation → Bool
newer a b = ltb b.start_time a.start_time

unfoldable pub limited : ℤ → List Invocation → List Invocation
limited (pos n) out = if ltb 0 n && ltb n (length out) then take n out else out
limited (negsuc n) out = out

unfoldable pub list_with_total : SortSlice newer → MemoryStore → ListOptions → List Invocation × ℕ
list_with_total s store opts =
    let out = s.sort (matching (selects opts) store.by_id store.order) in
    (limited opts.limit out, length out)

unfoldable pub list : SortSlice newer → MemoryStore → ListOptions → List Invocation
list s store opts = (list_with_total s store opts).0

unfoldable pub len : MemoryStore → ℕ
len s = length s.order

-- `Prune` of this store: nothing ages out.
unfoldable pub prune : MemoryStore → MemoryStore × ℕ
prune s = (s, 0)
