-- ===== src/Trigger/Index/Matching.antt =====
-- What `Match` of services/hub/internal/trigger/index.go returns, and when it panics.
use ainsel.Prelude.{
  ◌≡◌, ◌≢◌, refl, ◌⊎◌, ◌↔◌, inl, inr, Bool, true, false, List, [], ◌∷◌, Option, none, some, String,
  arith, All, Any, Has, if_elim, Bool-cases, ◌==◌, string_eq,
}
use ainsel.Trigger.Value.{Value, Fields, null, Runtime, end}
use ainsel.Trigger.Filter.{Filter, filter_match, match_filters}
use ainsel.Trigger.Filter.Laws.{match_filters_iff}
use ainsel.Trigger.Index.{
  Trigger, Event, MatchResult, Index, accepts, no_filters, to_result, matches_in, match_payload,
  index_match, build_filter_payload, add_headers, unmarshal, entries,
}

-- What the documentation promises of a trigger that an event wakes.
pub record Wakes (go : Runtime) (payload : Fields) (evt : Event) (t : Trigger) : Type 0 where
  pub agent_exists : t.agent_valid ≡ true
  pub connector_exists : t.connector_valid ≡ true
  pub same_connector : t.connector_ref ≡ evt.connector
  pub filters_hold : All (λ f. filter_match go f payload ≡ true) t.filters

module _ (go : Runtime) (payload : Fields) (evt : Event) where
  accepts-Wakes : (t : Trigger) → accepts go payload evt t ≡ true → Wakes go payload evt t
  unfolding accepts
  accepts-Wakes t h = record {
    agent_exists = ground arith;
    connector_exists = ground arith;
    same_connector = (string_eq.beq_iff _ _).0 (ground arith);
    filters_hold = hold t.filters (ground arith);
  }
    where
      hold :
          (fs : List Filter)
          → (no_filters fs ≡ true) ⊎ (match_filters go fs payload ≡ true)
          → All (λ f. filter_match go f payload ≡ true) fs
      hold [] h = tt
      hold (f ∷ fs) (inl e) = cc
      hold (f ∷ fs) (inr e) = (match_filters_iff go (f ∷ fs) payload).0 e

  Wakes-accepts : (t : Trigger) → Wakes go payload evt t → accepts go payload evt t ≡ true
  unfolding accepts
  Wakes-accepts t w = ground (
    arith,
    (string_eq.beq_iff t.connector_ref evt.connector).1 w.same_connector,
    (match_filters_iff go t.filters payload).1 w.filters_hold,
  )

  -- Some trigger of the index is woken, and `m` names it and its agent.
  abbrev Woken : MatchResult → Index → Type 0
  Woken m = Any (λ e. Wakes go payload evt e.1 × (to_result e.1 ≡ m))

  sound_first :
      (k : String) (t : Trigger) (idx : Index) (m : MatchResult)
      → (Has m (matches_in go payload evt idx) → Woken m idx)
      → accepts go payload evt t ≡ true
      → (to_result t ≡ m) ⊎ Has m (matches_in go payload evt idx)
      → Woken m ((k, t) ∷ idx)
  sound_first k t idx m rest woken (inl e) = inl (accepts-Wakes t woken, e)
  sound_first k t idx m rest woken (inr later) = inr (rest later)

  matches_in_sound :
      (idx : Index) (m : MatchResult) → Has m (matches_in go payload evt idx) → Woken m idx
  unfolding matches_in
  matches_in_sound [] m h = h
  matches_in_sound ((k, t) ∷ idx) m h = elim (Bool-cases (accepts go payload evt t)) [
    | inl woken ↦ sound_first k t idx m (matches_in_sound idx m) woken (rw (woken, matches_in) at h)
    | inr other ↦ inr (matches_in_sound idx m (rw (other, matches_in) at h))
  ]

  matches_in_complete :
      (idx : Index) (m : MatchResult) → Woken m idx → Has m (matches_in go payload evt idx)
  unfolding matches_in
  matches_in_complete [] m h = h
  matches_in_complete ((k, t) ∷ idx) m (inl (w, e)) = rw (Wakes-accepts t w, matches_in) (inl e)
  matches_in_complete ((k, t) ∷ idx) m (inr later) =
      if_elim (Has m) (accepts go payload evt t) (λ _. inr (matches_in_complete idx m later))
        (λ _. matches_in_complete idx m later)

-- Where `Match` returns, the entries of its result are exactly the names and agents of the triggers
-- of the index that are valid, belong to the event's connector and have every filter match the
-- payload built from the event.
pub index_match_iff :
    (go : Runtime) (idx : Index) (evt : Event) (payload : Fields) (results : List MatchResult)
    (m : MatchResult)
    → build_filter_payload go evt ≡ some payload
    → index_match go idx evt ≡ some results
    → Has m results
      ↔ Any (λ (e : String × Trigger). Wakes go payload evt e.1 × (to_result e.1 ≡ m)) idx
unfolding index_match
index_match_iff go idx evt payload results m built returned =
    let same : matches_in go payload evt idx ≡ results = ground (arith, built, returned) in
    rw (← same) (matches_in_sound go payload evt idx m, matches_in_complete go payload evt idx m)

-- The event's body is the JSON document `null`.
abbrev pub IsNullBody : Runtime → Event → Type 0
IsNullBody go evt = (evt.payload ≢ "") × (go.parse_json evt.payload ≡ some null)

add_headers-none :
    (hs : List (String × String)) (o : Option Value)
    → (add_headers hs (unmarshal o) ≡ none) ↔ ((o ≡ some null) × (hs ≢ []))
unfolding add_headers unmarshal
add_headers-none [] none = ground arith
add_headers-none (h ∷ hs) none = ground arith
add_headers-none [] (some null) = (λ e. cc, λ w. absurd (w.1 refl))
add_headers-none (h ∷ hs) (some null) = (λ e. (refl, λ k. cc), λ w. refl)
add_headers-none [] (some v) = (λ e. cc, λ w. absurd (w.1 refl))
add_headers-none (h ∷ hs) (some v) = (λ e. cc, λ w. cc (w.0))

add_headers-entries :
    (hs : List (String × String)) (fs : Fields) → add_headers hs (entries fs) ≢ none
unfolding add_headers
add_headers-entries [] fs = λ e. cc
add_headers-entries (h ∷ hs) fs = λ e. cc

match_payload-none :
    (go : Runtime) (evt : Event) (idx : Index) (payload : Option Fields)
    → match_payload go evt idx payload ≡ none
    → payload ≡ none
unfolding match_payload
match_payload-none go evt idx none e = refl
match_payload-none go evt idx (some payload) e = cc

-- `Match` panics exactly on the events that have a header and whose body is the JSON document
-- `null`, whatever the index holds; on every other event it returns.
pub index_match_panics_iff :
    (go : Runtime) (idx : Index) (evt : Event)
    → (index_match go idx evt ≡ none) ↔ (IsNullBody go evt × (evt.headers ≢ []))
unfolding index_match match_payload build_filter_payload
index_match_panics_iff go idx evt = elim (Bool-cases (evt.payload == "")) [
  | inl empty ↦
      rw (empty, build_filter_payload)
        (
          λ e. absurd (add_headers-entries evt.headers end (match_payload-none go evt idx _ e)),
          λ w. absurd (w.0.0 ((string_eq.beq_iff _ _).0 empty)),
        )
  | inr full ↦
      let (to, from) = add_headers-none evt.headers (go.parse_json evt.payload) in
      rw (full, build_filter_payload)
        (
          λ e.
              let (parsed, headed) = to (match_payload-none go evt idx _ e) in
              ((λ q. absurd (differ (full) ((string_eq.beq_iff _ _).1 q)), parsed), headed),
          λ w. rw (from (w.0.1, w.1), match_payload),
        )
]
  where
    differ : {b : Bool} → b ≡ false → b ≡ true → ⊥
    differ p q = cc
