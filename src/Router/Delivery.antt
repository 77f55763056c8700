-- ===== src/Router/Delivery.antt =====
-- The loop of `routeViaTriggers` of services/hub/internal/router/router.go on the task queue.
use ainsel.Prelude.{
  ◌≡◌, refl, inl, inr, true, List, [], ◌∷◌, ◌++◌, Option, String, Any, All, All-imp, All-append,
  subst,
}
use ainsel.Prelude.Time.{Instant}
use ainsel.Trigger.Index.{MatchResult}
use ainsel.Trigger.Dedup.Laws.{Covers}
use ainsel.Invocations.{MemoryStore}
use ainsel.Queue.{Queue, Outcome, done, foreign_key, has_event, enqueue_task}
use ainsel.Queue.Rows.{EventRow, NewTask}
use ainsel.Queue.Deliveries.{
  IsDelivered, enqueue_task-keeps, enqueue_task-IsDelivered, enqueue_task-events,
}
use ainsel.Router.{
  Router, Headers, Routed, after_enqueue, route_match, route_each, start_invocation, new_invocation,
  task_of,
}

after_enqueue-queue :
    (r : Router) (now : Instant) (so_far : Routed) (m : MatchResult)
    (started : Option MemoryStore × String) (result : Queue × Outcome)
    → (after_enqueue r now so_far m started result).hub.queue ≡ result.0
unfolding after_enqueue
after_enqueue-queue r now so_far m (store, inv_id) (queue, done) = refl
after_enqueue-queue r now so_far m (store, inv_id) (queue, foreign_key) = refl

after_enqueue-delivered :
    (r : Router) (now : Instant) (so_far : Routed) (m : MatchResult)
    (started : Option MemoryStore × String) (result : Queue × Outcome)
    → result.1 ≡ done
    → (after_enqueue r now so_far m started result).delivered ≡ so_far.delivered ++ m.agent_ref ∷ []
unfolding after_enqueue
after_enqueue-delivered r now so_far m (store, inv_id) (queue, done) e = refl
after_enqueue-delivered r now so_far m (store, inv_id) (queue, foreign_key) e = cc e

module _ (r : Router) (now : Instant) (evt : EventRow) (headers : Headers) where
  abbrev task_for : Routed → MatchResult → NewTask
  task_for so_far m =
      task_of r evt headers m
        (start_invocation so_far.hub.invocations (r.new_id m.agent_ref) now
          (new_invocation evt m)).1

  route_match-queue :
      (so_far : Routed) (m : MatchResult)
      → (route_match r now evt headers so_far m).hub.queue
        ≡ (enqueue_task so_far.hub.queue now (task_for so_far m)).0
  unfolding route_match
  route_match-queue so_far m =
      after_enqueue-queue r now so_far m
        (start_invocation so_far.hub.invocations (r.new_id m.agent_ref) now (new_invocation evt m))
        (enqueue_task so_far.hub.queue now (task_for so_far m))

  route_each-keeps :
      (ms : List MatchResult) (so_far : Routed) (event agent : String)
      → IsDelivered so_far.hub.queue event agent
      → IsDelivered (route_each r now evt headers ms so_far).hub.queue event agent
  unfolding route_each
  route_each-keeps [] so_far event agent h = h
  route_each-keeps (m ∷ ms) so_far event agent h =
      route_each-keeps ms (route_match r now evt headers so_far m) event agent (
        rw (route_match-queue so_far m)
          (enqueue_task-keeps event agent so_far.hub.queue now (task_for so_far m) h))

  -- Each matched agent of a stored event has a task at the end of the loop.
  pub route_each-IsDelivered :
      (ms : List MatchResult) (so_far : Routed) (m : MatchResult)
      → has_event evt.id so_far.hub.queue.events ≡ true
      → Any (Covers m) ms
      → IsDelivered (route_each r now evt headers ms so_far).hub.queue evt.id m.agent_ref
  unfolding route_each task_of
  route_each-IsDelivered [] so_far m known h = absurd h
  route_each-IsDelivered (k ∷ ms) so_far m known (inl (same, _)) =
      route_each-keeps ms (route_match r now evt headers so_far k) evt.id m.agent_ref (
        rw (route_match-queue so_far k) (
          subst
            (λ (a : String).
              IsDelivered (enqueue_task so_far.hub.queue now (task_for so_far k)).0 evt.id a)
            same (enqueue_task-IsDelivered so_far.hub.queue now (task_for so_far k) known).1))
  route_each-IsDelivered (k ∷ ms) so_far m known (inr later) =
      route_each-IsDelivered ms (route_match r now evt headers so_far k) m
        (rw
          (route_match-queue so_far k, enqueue_task-events so_far.hub.queue now (task_for so_far k))
          known)
        later

  route_match-events :
      (so_far : Routed) (m : MatchResult)
      → has_event evt.id so_far.hub.queue.events ≡ true
      → has_event evt.id (route_match r now evt headers so_far m).hub.queue.events ≡ true
  route_match-events so_far m known =
      rw (route_match-queue so_far m, enqueue_task-events so_far.hub.queue now (task_for so_far m))
        known

  pub route_each-events :
      (ms : List MatchResult) (so_far : Routed)
      → has_event evt.id so_far.hub.queue.events ≡ true
      → has_event evt.id (route_each r now evt headers ms so_far).hub.queue.events ≡ true
  unfolding route_each
  route_each-events [] so_far known = known
  route_each-events (m ∷ ms) so_far known =
      route_each-events ms (route_match r now evt headers so_far m)
        (route_match-events so_far m known)

  route_match-delivered :
      (so_far : Routed) (m : MatchResult)
      → has_event evt.id so_far.hub.queue.events ≡ true
      → (route_match r now evt headers so_far m).delivered ≡ so_far.delivered ++ m.agent_ref ∷ []
  unfolding route_match task_of
  route_match-delivered so_far m known =
      after_enqueue-delivered r now so_far m
        (start_invocation so_far.hub.invocations (r.new_id m.agent_ref) now (new_invocation evt m))
        (enqueue_task so_far.hub.queue now (task_for so_far m))
        (enqueue_task-IsDelivered so_far.hub.queue now (task_for so_far m) known).0

  -- The agents that the loop reports to have received the event have a task for it.
  pub route_each-delivered :
      (ms : List MatchResult) (so_far : Routed)
      → has_event evt.id so_far.hub.queue.events ≡ true
      → All (IsDelivered so_far.hub.queue evt.id) so_far.delivered
      → All
          (IsDelivered (route_each r now evt headers ms so_far).hub.queue evt.id)
          (route_each r now evt headers ms so_far).delivered
  unfolding route_each task_of
  route_each-delivered [] so_far known h = h
  route_each-delivered (m ∷ ms) so_far known h =
      route_each-delivered ms (route_match r now evt headers so_far m)
        (route_match-events so_far m known)
        (rw (route_match-delivered so_far m known, route_match-queue so_far m)
          (All-append (IsDelivered (enqueue_task so_far.hub.queue now (task_for so_far m)).0 evt.id)
            so_far.delivered _
            (All-imp so_far.delivered
              (λ a. enqueue_task-keeps evt.id a so_far.hub.queue now (task_for so_far m)) h)
            ((enqueue_task-IsDelivered so_far.hub.queue now (task_for so_far m) known).1, tt)))
