-- ===== src/Publisher/Rounds.antt =====
-- Rounds and sweeps of services/hub/internal/queuesignal/queuesignal.go: no agent is lost between
-- them.
use mathlib.Core.Option.{none-ne-some}
use ainsel.Prelude.{
  ◌≡◌, ◌≢◌, refl, ◌∙◌, sym, inl, inr, Bool, List, [], ◌∷◌, Option, some, String, if◌then◌else◌,
  ◌==◌, string_eq, Bool-cases, Has,
}
use ainsel.Prelude.Dict.{lookup}
use ainsel.Publisher.Report.{Signal}
use ainsel.Publisher.{
  Publisher, World, mark, observe, keys, publish_one, is_settled, turn, turns, observe_all,
  publish_round, published,
}
use ainsel.Publisher.Backed.{publish_one-IsBacked}
use ainsel.Publisher.Delivery.{
  IsDirty, IsCovered, IsBacked, mark-IsDirty, marked, publish_one-IsTold, publish_one-other,
  publish_one-dirty,
}

-- Observations only add to what is owed.
observe-keeps :
    (w : World) (force : Bool) (before : Option Signal) (p : Publisher) (n a : String)
    → IsCovered w force before p a
    → IsCovered w force before (observe p n) a
unfolding IsCovered IsDirty observe mark
observe-keeps w force before p n a (inl h) = elim (Bool-cases (n == "")) [
  | inl e ↦ rw (e, observe) (inl h)
  | inr e ↦ rw (e, observe) (inl (mark-IsDirty p a n h))
]
observe-keeps w force before p n a (inr h) = elim (Bool-cases (n == "")) [
  | inl e ↦ rw (e, observe) (inr h)
  | inr e ↦ rw (e, observe) (inr h)
]

observe_all-keeps :
    (w : World) (force : Bool) (before : Option Signal) (ns : List String) (p : Publisher)
    (a : String)
    → IsCovered w force before p a
    → IsCovered w force before (observe_all ns p) a
unfolding observe_all
observe_all-keeps w force before [] p a h = h
observe_all-keeps w force before (n ∷ ns) p a h =
    observe_all-keeps w force before ns (observe p n) a (observe-keeps w force before p n a h)

turn-covers :
    (w : World) (force : Bool) (before : Option Signal) (p : Publisher) (name : String)
    → IsBacked w before name (lookup name p.last)
    → IsCovered w force before (turn w force p name) name
unfolding turn IsCovered
turn-covers w force before p name backed =
    elim (Bool-cases (is_settled (publish_one w p name force).1)) [
      | inl e ↦
          observe_all-keeps w force before (w.arrivals name) _ name
            (rw (e, if◌then◌else◌) (inr (publish_one-IsTold w force before p name backed e)))
      | inr e ↦
          observe_all-keeps w force before (w.arrivals name) _ name
            (rw (e, if◌then◌else◌) (inl (marked (publish_one w p name force).0 name)))
    ]

published-covers :
    (w : World) (force : Bool) (before : Option Signal) (p : Publisher) (name a : String)
    → a ≢ name
    → IsCovered w force before p a
    → IsCovered w force before (publish_one w p name force).0 a
unfolding IsCovered IsDirty
published-covers w force before p name a d (inl h) = inl (rw (publish_one-dirty w force p name) h)
published-covers w force before p name a d (inr h) =
    inr (rw (publish_one-other w force p name a d) h)

marked-covers :
    (w : World) (force : Bool) (before : Option Signal) (p : Publisher) (name a : String)
    → a ≢ name
    → IsCovered w force before p a
    → IsCovered w force before (mark (publish_one w p name force).0 name) a
unfolding IsCovered mark
marked-covers w force before p name a d h = elim (published-covers w force before p name a d h) [
  | inl dirty ↦ inl (mark-IsDirty (publish_one w p name force).0 a name dirty)
  | inr told ↦ inr told
]

turn-keeps_other :
    (w : World) (force : Bool) (before : Option Signal) (p : Publisher) (name a : String)
    → a ≢ name
    → IsCovered w force before p a
    → IsCovered w force before (turn w force p name) a
unfolding turn
turn-keeps_other w force before p name a d h =
    observe_all-keeps w force before (w.arrivals name) _ a
      (elim (Bool-cases (is_settled (publish_one w p name force).1)) [
        | inl e ↦ rw (e, if◌then◌else◌) (published-covers w force before p name a d h)
        | inr e ↦ rw (e, if◌then◌else◌) (marked-covers w force before p name a d h)
      ])

turn-keeps :
    (w : World) (force : Bool) (before : Option Signal) (p : Publisher) (name a : String)
    → IsBacked w before a (lookup a p.last)
    → IsCovered w force before p a
    → IsCovered w force before (turn w force p name) a
turn-keeps w force before p name a backed h = elim (Bool-cases (name == a)) [
  | inl e ↦ rw ((string_eq.beq_iff name a).0 e) (turn-covers w force before p a backed)
  | inr e ↦
      turn-keeps_other w force before p name a (λ s. cc (e, (string_eq.beq_iff name a).1 (sym s))) h
]

observe_all-last : (ns : List String) (p : Publisher) → (observe_all ns p).last ≡ p.last
unfolding observe_all observe mark
observe_all-last [] p = refl
observe_all-last (n ∷ ns) p = elim (Bool-cases (n == "")) [
  | inl e ↦ observe_all-last ns (observe p n) ∙ rw (observe, e) refl
  | inr e ↦ observe_all-last ns (observe p n) ∙ rw (observe, e) refl
]

turn-last :
    (w : World) (force : Bool) (p : Publisher) (name : String)
    → (turn w force p name).last ≡ (publish_one w p name force).0.last
unfolding turn mark
turn-last w force p name = elim (Bool-cases (is_settled (publish_one w p name force).1)) [
  | inl e ↦ observe_all-last (w.arrivals name) _ ∙ rw e refl
  | inr e ↦ observe_all-last (w.arrivals name) _ ∙ rw e refl
]

turn-IsBacked :
    (w : World) (force : Bool) (before : Option Signal) (p : Publisher) (name a : String)
    → IsBacked w before a (lookup a p.last)
    → IsBacked w before a (lookup a (turn w force p name).last)
turn-IsBacked w force before p name a backed =
    rw (turn-last w force p name) (publish_one-IsBacked w force before p name a backed)

turns-keep :
    (w : World) (force : Bool) (before : Option Signal) (ns : List String) (p : Publisher)
    (a : String)
    → IsBacked w before a (lookup a p.last)
    → IsCovered w force before p a
    → IsCovered w force before (turns w force ns p) a
unfolding turns
turns-keep w force before [] p a backed h = h
turns-keep w force before (n ∷ ns) p a backed h =
    turns-keep w force before ns (turn w force p n) a (turn-IsBacked w force before p n a backed)
      (turn-keeps w force before p n a backed h)

turns-cover :
    (w : World) (force : Bool) (before : Option Signal) (ns : List String) (p : Publisher)
    (a : String)
    → IsBacked w before a (lookup a p.last)
    → Has a ns
    → IsCovered w force before (turns w force ns p) a
unfolding turns
turns-cover w force before [] p a backed h = absurd h
turns-cover w force before (n ∷ ns) p a backed (inl e) =
    turns-keep w force before ns (turn w force p n) a (turn-IsBacked w force before p n a backed)
      (rw e (turn-covers w force before p a backed))
turns-cover w force before (n ∷ ns) p a backed (inr h) =
    turns-cover w force before ns (turn w force p n) a (turn-IsBacked w force before p n a backed) h

lookup-Has :
    (a : String) (m : List (String × Bool)) {b : Bool} → lookup a m ≡ some b → Has a (keys m)
unfolding lookup
lookup-Has a [] h = absurd (none-ne-some _ h)
lookup-Has a ((k, v) ∷ m) h = elim (Bool-cases (k == a)) [
  | inl e ↦ inl ((string_eq.beq_iff k a).0 e)
  | inr e ↦ inr (lookup-Has a m (rw (e, lookup) at h))
]

-- A round loses no agent. Whatever the measurements, the writes and the observations of the round
-- are, an agent that was owed a report when the round began is, when it ends, still owed one; or the
-- report last recorded for it says the counts measured for it in this round, and the API server took
-- the write of that report in this round (in a forced round always, with this round's time) or, if
-- the round was not forced, it is the report recorded before the round; or the API server has no such
-- agent and the hub has forgotten what it told.
pub publish_round-covers :
    (w : World) (force : Bool) (p : Publisher) (a : String)
    → IsDirty p a
    → IsCovered w force (published p a) (publish_round w force p) a
unfolding publish_round IsDirty published
publish_round-covers w force p a h =
    turns-cover w force (published p a) (keys p.dirty) (record p { dirty = [] }) a (λ sig e. inr e)
      (lookup-Has a p.dirty h)
