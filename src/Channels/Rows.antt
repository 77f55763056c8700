-- ===== src/Channels/Rows.antt =====
-- services/hub/internal/channels/types.go: the kinds, the rows of `channels` and `channel_bridges`
-- (services/hub/internal/db/migrations/0020_create_channels.up.sql), and what the package passes
-- to its callers.
use Prim.Native.String.{◌++◌}
use ainsel.Prelude.{Bool, ◌||◌, Option, none, some, String, if◌then◌else◌, ◌==◌, string_eq}
use ainsel.Prelude.Time.{Instant}

-- `type Kind string`
abbrev pub Kind : Type 0
Kind = String

abbrev pub kind_connector : Kind
kind_connector = "connector"

abbrev pub kind_agent : Kind
kind_agent = "agent"

abbrev pub kind_custom : Kind
kind_custom = "custom"

unfoldable pub valid : Kind → Bool
valid k = k == kind_connector || k == kind_agent || k == kind_custom

-- A row of `channels`. `entity_ref` is nullable; Go reads NULL as the empty string.
pub record Channel : Type 0 where
  pub id : String
  pub kind : Kind
  pub name : String
  pub description : String
  pub entity_ref : Option String
  pub orphaned : Bool
  pub created_at : Instant
  pub updated_at : Instant

-- `COALESCE(entity_ref, '')`
unfoldable pub ref_of : Channel → String
ref_of c = elim c.entity_ref [ none ↦ "" | some ref ↦ ref ]

pub record Bridge : Type 0 where
  pub id : String
  pub name : String
  pub from_channel : String
  pub to_channel : String
  pub created_at : Instant
  pub updated_at : Instant

pub record Delivery : Type 0 where
  pub agent_channel : String
  pub agent_name : String
  pub bridge_id : String
  pub bridge_name : String

pub record Entity : Type 0 where
  pub ref : String
  pub name : String
  pub description : String

unfoldable pub default_description : Kind → String → String
default_description kind label =
    if kind == kind_connector
    then "Where " ++ label ++ " events arrive"
    else if kind == kind_agent
    then "The inbox agent " ++ label ++ " drains"
    else if kind == kind_custom
    then "Grouping channel for " ++ label
    else ""

-- `COALESCE(NULLIF(given, ''), stored)`
unfoldable pub unless_empty : String → String → String
unless_empty given stored = if given == "" then stored else given
