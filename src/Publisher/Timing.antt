-- ===== src/Publisher/Timing.antt =====
-- When services/hub/internal/queuesignal/queuesignal.go writes: edges at once, the rest debounced,
-- and what it says of the last work.
use ainsel.Prelude.{
  ℕ, ◌+◌, ◌≡◌, ◌≢◌, ◌↔◌, ◌<◌, ◌≤◌, refl, ap, ◌⊎◌, inl, inr, Bool, true, false, Option, none, some,
  String, if◌then◌else◌, string_eq, ==_refl, arith, nat_eq,
}
use ainsel.Prelude.Dict.{lookup, lookup-insert}
use ainsel.Prelude.Time.{Instant}
use ainsel.Queue.{QueueDepth}
use ainsel.Publisher.Report.{Signal, written, empty}
use ainsel.Publisher.Delivery.{Verdict-cases}
use ainsel.Publisher.{
  Publisher, World, publish_one, publish_measured, after_patch, act, verdict, write, finished,
  errored, signal_of, is_arrival, is_edge, earliest_pub, bool_eq,
}

-- Something that a human waits for: the queue was never reported, it filled or emptied, or a claim
-- began or ended.
unfoldable pub IsEdge : Option Signal → QueueDepth → Type 0
IsEdge none depth = Unit
IsEdge (some prev) depth =
    (empty prev ≢ empty (signal_of none depth 0)) ⊎ (prev.active ≢ depth.active)

is_edge-IsEdge :
    (prev : Option Signal) (depth : QueueDepth) (now : Instant)
    → IsEdge prev depth
    → is_edge prev (signal_of prev depth now) ≡ true
unfolding IsEdge is_edge signal_of bool_eq empty
is_edge-IsEdge none depth now h = refl
is_edge-IsEdge (some prev) depth now (inl h) = ground arith
is_edge-IsEdge (some prev) depth now (inr h) =
    ground (arith, nat_eq.beq_iff prev.active depth.active)

verdict-write :
    (prev : Option Signal) (sig : Signal) (force : Bool) (now earliest : Instant)
    → is_edge prev sig ≡ true
    → verdict prev sig force now earliest ≡ write
unfolding verdict
verdict-write prev sig force now earliest h = rw (h, verdict) (ground arith)

-- An edge is not debounced: when an agent's queue fills or empties, when a claim begins or ends,
-- and when the agent was never reported on, its turn writes the measured counts with the time of
-- the turn, however recent the last write, if the API server accepts them; and it starts the
-- debounce window anew.
pub publish_one-edge :
    (w : World) (p : Publisher) (name : String) (force : Bool) (depth : QueueDepth)
    → w.measure name ≡ some depth
    → IsEdge (lookup name p.last) depth
    → w.patch name (signal_of (lookup name p.last) depth (w.now name)) ≡ written
    → (lookup name (publish_one w p name force).0.last
        ≡ some (signal_of (lookup name p.last) depth (w.now name)))
      × (lookup name (publish_one w p name force).0.next_pub ≡ some (w.now name + p.debounce))
      × ((publish_one w p name force).1 ≡ finished)
unfolding publish_one publish_measured act after_patch
publish_one-edge w p name force depth m edge ok =
    let prev = lookup name p.last in
    let e =
      verdict-write prev (signal_of prev depth (w.now name)) force (w.now name)
        (earliest_pub (lookup name p.next_pub)) (is_edge-IsEdge prev depth (w.now name) edge) in
    rw (m, publish_measured, e, act, ok, after_patch)
      (
        rw (lookup-insert, ==_refl name, if◌then◌else◌) refl,
        rw (lookup-insert, ==_refl name, if◌then◌else◌) refl,
        refl,
      )

verdict-held :
    (prev : Option Signal) (sig : Signal) (now earliest : Instant)
    → is_edge prev sig ≡ false
    → now < earliest
    → verdict prev sig false now earliest ≢ write
unfolding verdict
verdict-held prev sig now earliest calm early h = ground arith

-- Movement that is not an edge waits: before the end of the debounce window, an unforced turn of an
-- agent whose queue shows no edge changes no state and is no error, whatever the API server would
-- answer to a write.
pub publish_one-debounced :
    (w : World) (p : Publisher) (name : String) (depth : QueueDepth) {earliest : Instant}
    → w.measure name ≡ some depth
    → is_edge (lookup name p.last) (signal_of (lookup name p.last) depth (w.now name)) ≡ false
    → lookup name p.next_pub ≡ some earliest
    → w.now name < earliest
    → ((publish_one w p name false).0 ≡ p) × ((publish_one w p name false).1 ≢ errored)
unfolding publish_one publish_measured act earliest_pub
publish_one-debounced w p name depth {earliest} m calm window early =
    let prev = lookup name p.last in
    let sig = signal_of prev depth (w.now name) in
    let v = verdict prev sig false (w.now name) (earliest_pub (lookup name p.next_pub)) in
    elim (Verdict-cases v) [
      | inl e ↦ rw (m, publish_measured, e, act) (refl, λ s. cc s)
      | inr (inl e) ↦ rw (m, publish_measured, e, act) (refl, λ s. cc s)
      | inr (inr e) ↦
          absurd (verdict-held prev sig (w.now name) earliest calm early (rw window at e))
    ]

pending_of : Option Signal → ℕ
pending_of none = 0
pending_of (some s) = s.pending

-- The idle clock moves only for work: a report carries a time of last invocation exactly if tasks
-- are pending and the last report, if there was one, said fewer; and the time is that of the
-- measurement. (The clock does not show the zero time.)
pub signal_of-idle_clock :
    (prev : Option Signal) (depth : QueueDepth) (now : Instant)
    → 1 ≤ now
    → ((signal_of prev depth now).last_invocation ≢ 0) ↔ (
        (1 ≤ depth.pending)
        × ((prev ≡ none) ⊎ ((old : Signal) × (prev ≡ some old) × (old.pending < depth.pending))))
unfolding signal_of is_arrival pending_of
signal_of-idle_clock none depth now h = (λ n. (ground arith, inl refl), λ r. ground arith)
signal_of-idle_clock (some old) depth now h = (
  λ n. (ground arith, inr (old, refl, ground arith)),
  λ r. elim r.1 [ inl e ↦ absurd (cc e) | inr (known, e, less) ↦ fewer known e less r.0 ],
)
  where
    fewer :
        (known : Signal)
        → some old ≡ some known
        → known.pending < depth.pending
        → 1 ≤ depth.pending
        → (signal_of (some old) depth now).last_invocation ≢ 0
    fewer known e less some_pending =
        let same = ap (λ (o : Option Signal). pending_of o) e in ground arith
