-- ===== src/Publisher.antt =====
-- services/hub/internal/queuesignal/queuesignal.go: which agents the hub still has to report on,
-- when a report is written onto an agent's status, and what it says. The Kubernetes client and the
-- queue measurement are parameters of a round: what they answer for each agent, the clock that the
-- agent's turn reads, and the agents that request handlers observe while it is published. Go's map
-- iteration is taken in the order in which the keys were inserted. `Debounce` is not negative.
pub mod Report
pub mod Delivery
pub mod Backed
pub mod Rounds
pub mod Timing
mod Tests
use ainsel.Prelude.{
  ℕ, ◌+◌, Bool, true, false, not, ◌&&◌, ◌||◌, List, [], ◌∷◌, ◌++◌, Option, none, some, String,
  if◌then◌else◌, ◌==◌, string_eq, nat_eq, ltb, map, ◌≡◌,
}
use ainsel.Prelude.Dict.{lookup, insert, delete}
use ainsel.Prelude.Time.{Instant}
use ainsel.Queue.{QueueDepth}
use Report.{Signal, PatchResult, written, not_found, refused, same_counts, empty}

-- The state of the publisher. The tick and the sweep interval drive `Run`, whose timers are left
-- out.
pub record Publisher : Type 0 where
  pub debounce : ℕ
  pub dirty : List (String × Bool)
  pub last : List (String × Signal)
  pub next_pub : List (String × Instant)

unfoldable pub new_publisher : ℕ → Publisher
new_publisher debounce = record { debounce = debounce; dirty = []; last = []; next_pub = [] }

-- `p.dirty[name] = true`
unfoldable pub mark : Publisher → String → Publisher
mark p name = record p { dirty = insert name true p.dirty }

unfoldable pub observe : Publisher → String → Publisher
observe p name = if name == "" then p else mark p name

unfoldable pub mark_each : List String → Publisher → Publisher
mark_each [] p = p
mark_each (n ∷ ns) p = mark_each ns (mark p n)

abbrev pub keys : {A : Type 0} → List (String × A) → List String
keys m = map (λ (e : String × _). e.0) m

-- The names that the lister gave: none without a lister, and none where it failed.
unfoldable pub opted_in : Option (Option (List String)) → List String
opted_in (some (some names)) = names
opted_in _ = []

-- The counts are those of `AllQueueCounts`, or its error.
unfoldable pub mark_all :
    Option (List (String × QueueDepth)) → Option (Option (List String)) → Publisher → Publisher
mark_all none lister p = p
mark_all (some counts) lister p =
    mark_each (opted_in lister) (mark_each (keys p.last) (mark_each (keys counts) p))

-- What one agent's turn in a round meets.
pub record World : Type 0 where
  pub measure : String → Option QueueDepth
  pub patch : String → Signal → PatchResult
  pub now : String → Instant
  pub arrivals : String → List String

-- Work arrived: more is pending than the last report said, or there was none.
unfoldable pub is_arrival : Option Signal → QueueDepth → Bool
is_arrival none depth = ltb 0 depth.pending
is_arrival (some prev) depth = ltb 0 depth.pending && ltb prev.pending depth.pending

unfoldable pub signal_of : Option Signal → QueueDepth → Instant → Signal
signal_of prev depth now = record {
  pending = depth.pending;
  active = depth.active;
  observed_at = now;
  last_invocation = if is_arrival prev depth then now else 0;
}

bool_eq : Bool → Bool → Bool
bool_eq true b = b
bool_eq false b = not b

unfoldable pub is_edge : Option Signal → Signal → Bool
unfolding bool_eq
is_edge none sig = true
is_edge (some prev) sig = not (bool_eq (empty prev) (empty sig)) || not (nat_eq_active prev sig)
  where
    nat_eq_active : Signal → Signal → Bool
    nat_eq_active a b = a.active == b.active

-- `hadPrev && sameCounts(prev, sig)`
unfoldable pub is_repeat : Option Signal → Signal → Bool
is_repeat none sig = false
is_repeat (some prev) sig = same_counts prev sig

pub data Verdict : Type 0 where
  nothing_new debounced write : Verdict

-- The `switch` of `publishOne`.
unfoldable pub verdict : Option Signal → Signal → Bool → Instant → Instant → Verdict
verdict prev sig force now earliest =
    if is_repeat prev sig && not force && not (is_edge prev sig)
    then nothing_new
    else if not (is_edge prev sig) && not force && ltb now earliest
    then debounced
    else write

-- `p.nextPub[name]`, the zero time for a missing key
unfoldable pub earliest_pub : Option Instant → Instant
earliest_pub none = 0
earliest_pub (some t) = t

-- What `publishOne` returns: done, not done, or an error.
pub data Progress : Type 0 where
  finished waiting errored : Progress

unfoldable pub after_patch : Publisher → String → Signal → PatchResult → Publisher × Progress
after_patch p name sig written = (record p { last = insert name sig p.last }, finished)
after_patch p name sig not_found =
    (record p { last = delete name p.last; next_pub = delete name p.next_pub }, finished)
after_patch p name sig refused = (p, errored)

unfoldable pub act : World → Publisher → String → Signal → Verdict → Publisher × Progress
act w p name sig nothing_new = (p, finished)
act w p name sig debounced = (p, waiting)
act w p name sig write =
    after_patch (record p { next_pub = insert name (w.now name + p.debounce) p.next_pub }) name sig
      (w.patch name sig)

unfoldable pub publish_measured :
    World → Publisher → String → Bool → Option QueueDepth → Publisher × Progress
publish_measured w p name force none = (p, errored)
publish_measured w p name force (some depth) =
    let prev = lookup name p.last in
    let sig = signal_of prev depth (w.now name) in
    act w p name sig (verdict prev sig force (w.now name) (earliest_pub (lookup name p.next_pub)))

unfoldable pub publish_one : World → Publisher → String → Bool → Publisher × Progress
publish_one w p name force = publish_measured w p name force (w.measure name)

unfoldable pub is_settled : Progress → Bool
is_settled finished = true
is_settled _ = false

unfoldable pub observe_all : List String → Publisher → Publisher
observe_all [] p = p
observe_all (n ∷ ns) p = observe_all ns (observe p n)

-- One pass of the loop of `publishRound`, with the observations made meanwhile.
unfoldable pub turn : World → Bool → Publisher → String → Publisher
turn w force p name =
    let q = publish_one w p name force in
    let kept = if is_settled q.1 then q.0 else mark q.0 name in observe_all (w.arrivals name) kept

unfoldable pub turns : World → Bool → List String → Publisher → Publisher
turns w force [] p = p
turns w force (n ∷ ns) p = turns w force ns (turn w force p n)

unfoldable pub publish_round : World → Bool → Publisher → Publisher
publish_round w force p = turns w force (keys p.dirty) (record p { dirty = [] })

unfoldable pub published : Publisher → String → Option Signal
published p name = lookup name p.last
