-- ===== src/Trigger/Dedup.antt =====
-- DeduplicateByAgent of services/hub/internal/trigger/index.go. `sort.Slice` is a parameter.
pub mod Laws
pub mod Determinism
use ainsel.Prelude.{
  Bool, true, false, List, [], ◌∷◌, Option, none, some, String, if◌then◌else◌, string_eq, Eq,
}
use ainsel.Prelude.Dict.{lookup, insert}
use ainsel.Prelude.Order.{SortSlice}
use ainsel.Trigger.Text.{str_ltb}
use ainsel.Trigger.Index.{MatchResult}

-- `matches[i].TriggerName < matches[j].TriggerName`
unfoldable pub name_less : MatchResult → MatchResult → Bool
name_less a b = str_ltb a.trigger_name b.trigger_name

-- `seen[agent]`, false for a missing key
flag : Option Bool → Bool
flag none = false
flag (some b) = b

seen_agent : String → List (String × Bool) → Bool
unfolding flag
seen_agent agent seen = flag (lookup agent seen)

-- The loop over the sorted matches.
pub dedupe_from : List (String × Bool) → List MatchResult → List MatchResult
unfolding seen_agent
dedupe_from seen [] = []
dedupe_from seen (m ∷ ms) =
    let skipped = dedupe_from seen ms in
    let kept = m ∷ dedupe_from (insert m.agent_ref true seen) ms in
    if seen_agent m.agent_ref seen then skipped else kept

unfoldable pub deduplicate_by_agent : SortSlice name_less → List MatchResult → List MatchResult
unfolding dedupe_from
deduplicate_by_agent s [] = []
deduplicate_by_agent s (m ∷ []) = m ∷ []
deduplicate_by_agent s (m ∷ n ∷ ms) = dedupe_from [] (s.sort (m ∷ n ∷ ms))
