-- ===== src/Queue/Rows.antt =====
-- The rows of the tables of services/hub/internal/eventqueue/store.go, with their columns as
-- services/hub/internal/db/migrations/0014_create_event_queue.up.sql declares them.
use ainsel.Prelude.{ℕ, ◌+◌, Bool, true, false, List, [], ◌∷◌, Option, String, if◌then◌else◌}
use ainsel.Prelude.Time.{Instant}

pub data Status : Type 0 where
  pending claimed completed failed : Status

pub record EventRow : Type 0 where
  pub id : String
  pub connector : String
  pub channel_id : Option String
  pub headers : String
  pub payload : String
  pub raw : String
  pub received_at : Instant
  pub routed_at : Option Instant

-- `Event`, as a publisher hands it in; an empty channel is stored as NULL.
pub record NewEvent : Type 0 where
  pub id : String
  pub connector : String
  pub channel_id : String
  pub headers : String
  pub payload : String
  pub raw : String

pub record TaskRow : Type 0 where
  pub id : ℕ
  pub event_id : String
  pub agent_name : String
  pub trigger_name : String
  pub invocation_id : String
  pub headers : String
  pub payload : String
  pub status : Status
  pub attempts : ℕ
  pub max_attempts : ℕ
  pub retry_after : Option Instant
  pub claimed_at : Option Instant
  pub completed_at : Option Instant
  pub error : String
  pub created_at : Instant

-- The fields of `Task` that `EnqueueTask` stores.
pub record NewTask : Type 0 where
  pub event_id : String
  pub agent_name : String
  pub trigger_name : String
  pub invocation_id : String
  pub headers : String
  pub payload : String

unfoldable pub is_pending : Status → Bool
is_pending pending = true
is_pending _ = false

unfoldable pub is_claimed : Status → Bool
is_claimed claimed = true
is_claimed _ = false

module _ {ℓ} {A : Type ℓ} where
  -- `UPDATE … SET f WHERE p`
  unfoldable pub alter : (A → Bool) → (A → A) → List A → List A
  alter p f [] = []
  alter p f (x ∷ xs) = (if p x then f x else x) ∷ alter p f xs

  -- `SELECT count(*) … WHERE p`
  unfoldable pub count_rows : (A → Bool) → List A → ℕ
  count_rows p [] = 0
  count_rows p (x ∷ xs) = (if p x then 1 else 0) + count_rows p xs
