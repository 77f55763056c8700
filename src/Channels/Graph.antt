-- ===== src/Channels/Graph.antt =====
-- `Reaches` and `ReachingInto` of services/hub/internal/channels/store.go: which channels the
-- bridges connect. Both queries are one search, forwards or backwards over the bridges, that
-- enters no channel twice on one path.
pub mod Reachable
pub mod Acyclic
use ainsel.Prelude.{
  ℕ, suc, Bool, not, ◌&&◌, ◌≡◌, List, [], ◌∷◌, ◌++◌, String, if◌then◌else◌, ◌==◌, string_eq, map,
  length, any, keep, false, Has,
}
use ainsel.Channels.Rows.{Bridge}
use ainsel.Channels.Recursion.{with_recursive}

-- The two ends of a bridge, in the direction of the search.
pub record Direction : Type 0 where
  pub source : Bridge → String
  pub target : Bridge → String

abbrev pub forwards : Direction
forwards = record { source = λ b. b.from_channel; target = λ b. b.to_channel }

abbrev pub backwards : Direction
backwards = record { source = λ b. b.to_channel; target = λ b. b.from_channel }

pub record PathRow : Type 0 where
  pub id : String
  pub path : List String

-- `id = ANY(path)`
abbrev pub on_path : List String → String → Bool
on_path path id = any (λ p. p == id) path

abbrev pub is_next : Direction → PathRow → Bridge → Bool
is_next d w b = d.source b == w.id && not (on_path w.path (d.target b))

abbrev pub extend_path : Direction → PathRow → Bridge → PathRow
extend_path d w b = record { id = d.target b; path = w.path ++ d.target b ∷ [] }

-- The recursive term.
abbrev pub path_rows : Direction → List Bridge → PathRow → List PathRow
path_rows d bridges w = map (extend_path d w) (keep (is_next d w) bridges)

abbrev pub start_row : String → PathRow
start_row id = record { id = id; path = id ∷ [] }

-- The rows of the recursive query. A path leaves out more bridges in each round, so that the
-- number of the bridges bounds the rounds.
abbrev pub path_search : Direction → List Bridge → String → List PathRow
path_search d bridges id =
    with_recursive (path_rows d bridges) (suc (length bridges)) (start_row id ∷ [])

unfoldable pub reaches : List Bridge → String → String → Bool
reaches bridges from to =
    any (λ (w : PathRow). w.id == to && not (to == from)) (path_search forwards bridges from)

-- One bridge in the direction of the search.
abbrev pub Edge : Direction → List Bridge → String → String → Type 0
Edge d bridges x y = (b : Bridge) × Has b bridges × (d.source b ≡ x) × (d.target b ≡ y)

-- The channels that bridges lead to from one channel.
pub data Leads (d : Direction) (bridges : List Bridge) (x : String) : String → Type 0 where
  here : Leads d bridges x x
  step : {y z : String} → Leads d bridges x y → Edge d bridges y z → Leads d bridges x z
