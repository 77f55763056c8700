-- ===== src/Trigger/Dedup/Determinism.antt =====
-- The agents that an event is routed to do not depend on the order in which Go's map iteration
-- visits the triggers, nor on how `sort.Slice` breaks ties.
use mathlib.Core.Option
use mathlib.Core.List.{Perm, Permᴰ, Mem}
use mathlib.Core.List.Perm
use ainsel.Prelude.{◌≡◌, refl, ap, inl, inr, false, List, [], some, String}
use ainsel.Prelude.Order.{SortSlice, IsKeyed, key_unique, sorted_unique}
use ainsel.Trigger.Text.Laws.{str_ltb_tie}
use ainsel.Trigger.Value.{Runtime}
use ainsel.Trigger.Index.{Event, MatchResult, Index, index_match}
use ainsel.Trigger.Index.Rearranged.{index_match-perm}
use ainsel.Trigger.Index.History.{IsIndex}
use ainsel.Trigger.Dedup.{name_less, deduplicate_by_agent, dedupe_from}
use ainsel.Trigger.Dedup.Laws.{deduplicate_by_agent_lem, name_less_irrefl, MatchResult-set}

name_less_tie :
    (a b : MatchResult)
    → name_less a b ≡ false
    → name_less b a ≡ false
    → a.trigger_name ≡ b.trigger_name
unfolding name_less
name_less_tie a b h k = str_ltb_tie a.trigger_name b.trigger_name h k

abbrev name_of : MatchResult → String
name_of m = m.trigger_name

-- Two rearrangements of matches with distinct trigger names, sorted by any two sorters, are
-- deduplicated to the same list.
pub deduplicate_by_agent-perm :
    (s s' : SortSlice name_less) (ms ms' : List MatchResult)
    → IsKeyed (λ m. m.trigger_name) ms
    → Perm ms ms'
    → deduplicate_by_agent s ms ≡ deduplicate_by_agent s' ms'
deduplicate_by_agent-perm s s' ms ms' keyed p =
    rw (deduplicate_by_agent_lem s ms, deduplicate_by_agent_lem s' ms')
      (ap (dedupe_from []) (
        sorted_unique name_less name_less_irrefl (s.sort ms) (s'.sort ms') tie (s.sort-IsSorted ms)
          (s'.sort-IsSorted ms') both))
  where
    given : Perm (s.sort ms) ms
    given = ∣ s.sort-perm ms ∣₁

    both : Perm (s.sort ms) (s'.sort ms')
    both = Perm.trans given (Perm.trans p (Perm.symm ∣ s'.sort-perm ms' ∣₁))

    tie :
        (a b : MatchResult)
        → Mem a (s.sort ms)
        → Mem b (s.sort ms)
        → name_less a b ≡ false
        → name_less b a ≡ false
        → a ≡ b
    tie a b ma mb h k =
        key_unique name_of MatchResult-set keyed ((Perm.mem_iff given).0 ma)
          ((Perm.mem_iff given).0 mb) (name_less_tie a b h k)

-- Where the hub's index is any rearrangement of the same triggers, as the iteration order of the
-- index's Go map may produce, and whichever way the sort breaks ties, an event is routed to the same
-- triggers and agents, in the same order; or both calls panic. The order in which the event's own
-- headers are visited is the same in both calls: where several header keys end in "-Event" with
-- different values, that order decides the event's type in Go, and so may decide what matches.
pub routing_deterministic :
    (go : Runtime) (s s' : SortSlice name_less) (idx idx' : Index) (evt : Event)
    → IsIndex idx
    → Permᴰ idx idx'
    → Option.map (deduplicate_by_agent s) (index_match go idx evt)
      ≡ Option.map (deduplicate_by_agent s') (index_match go idx' evt)
routing_deterministic go s s' idx idx' evt v p = elim (index_match-perm go evt v p) [
  | inl (e, e') ↦ rw (e, e') refl
  | inr (ms, ms', e, e', keyed, q) ↦
      rw (e, e') (ap some (deduplicate_by_agent-perm s s' ms ms' keyed q))
]
