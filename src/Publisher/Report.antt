-- ===== src/Publisher/Report.antt =====
-- The signal of services/hub/internal/queuesignal/queuesignal.go, the patch that carries it and
-- the agents whose spec asks for one. `metav1.Time` rounding is left to Kubernetes.
use ainsel.Prelude.{
  ℕ, Bool, true, false, ◌&&◌, List, [], ◌∷◌, Option, none, some, String, if◌then◌else◌, ◌==◌,
  nat_eq, map, keep,
}
use ainsel.Prelude.Time.{Instant, is_zero_time}
use ainsel.Scaling.{Agent, min_replicas}

-- `last_invocation` is the zero time where the idle clock is left alone.
pub record Signal : Type 0 where
  pub pending : ℕ
  pub active : ℕ
  pub observed_at : Instant
  pub last_invocation : Instant

unfoldable pub empty : Signal → Bool
empty s = s.pending == 0 && s.active == 0

unfoldable pub same_counts : Signal → Signal → Bool
same_counts a b = a.pending == b.pending && a.active == b.active

-- What the API server answers: `IsNotFound` is told apart from other errors.
pub data PatchResult : Type 0 where
  written not_found refused : PatchResult

pub data PatchValue : Type 0 where
  count : ℕ → PatchValue
  stamp : Instant → PatchValue

unfoldable pub merge_patch_body : Signal → List (String × PatchValue)
merge_patch_body sig =
    ("pendingTasks", count sig.pending)
    ∷ ("activeTasks", count sig.active)
    ∷ ("queueObservedAt", stamp sig.observed_at)
    ∷ (if is_zero_time sig.last_invocation
        then []
        else ("lastInvocation", stamp sig.last_invocation) ∷ [])

is_set : {A : Type 0} → Option A → Bool
is_set none = false
is_set (some a) = true

unfoldable pub queue_scaled_agents : List (String × Agent) → List String
unfolding is_set
queue_scaled_agents items =
    map (λ (a : String × Agent). a.0)
      (keep (λ (a : String × Agent). is_set (min_replicas a.1)) items)
