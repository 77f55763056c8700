-- ===== src/Channels/Views/Reaching.antt =====
-- `ReachingInto` of services/hub/internal/channels/store.go against the paths of `Reaches`.
use mathlib.Core.List.Permᴰ
use ainsel.Prelude.{
  true, not, ◌≡◌, ◌↔◌, sym, subst, inl, inr, List, [], ◌∷◌, String, if◌then◌else◌, ◌==◌, string_eq,
  arith, any, any_found, any_finds, map, Any-perm, Has, Has-map, Has-map_from, Has-keep,
  Has-keep_from, Bool-cases,
}
use ainsel.Channels.Rows.{Bridge}
use ainsel.Channels.Graph.{forwards, backwards, PathRow, path_search, Leads, here, step}
use ainsel.Channels.Graph.Reachable.{path_search_iff}
use ainsel.Channels.Graph.Acyclic.{joined}
use ainsel.Channels.Walk.Found.{IsStored}
use ainsel.Channels.{Store, has_id}
use ainsel.Channels.Views.{Ordering, distinct, reaching_into}

Leads-forwards :
    {bridges : List Bridge} {x y : String}
    → Leads backwards bridges x y
    → Leads forwards bridges y x
Leads-forwards here = here
Leads-forwards (step l (b, m, s, t)) = joined (step here (b, m, t, s)) (Leads-forwards l)

Leads-backwards :
    {bridges : List Bridge} {x y : String}
    → Leads forwards bridges x y
    → Leads backwards bridges y x
Leads-backwards here = here
Leads-backwards (step l (b, m, s, t)) = joined (step here (b, m, t, s)) (Leads-backwards l)

distinct-Has : (xs : List String) (y : String) → Has y (distinct xs) → Has y xs
distinct-Has [] y m = absurd m
distinct-Has (x ∷ xs) y (inl e) = inl e
distinct-Has (x ∷ xs) y (inr m) =
    inr (distinct-Has xs y (Has-keep_from (λ z. not (z == x)) (distinct xs) m).0)

Has-distinct : (xs : List String) (y : String) → Has y xs → Has y (distinct xs)
Has-distinct [] y m = absurd m
Has-distinct (x ∷ xs) y (inl e) = inl e
Has-distinct (x ∷ xs) y (inr m) = elim (Bool-cases (y == x)) [
  | inl same ↦ inl (sym ((string_eq.beq_iff y x).0 same))
  | inr other ↦
      inr (Has-keep (λ z. not (z == x)) (distinct xs) (Has-distinct xs y m) (ground (arith, other)))
]

IsStored-any : (s : Store) (id : String) → IsStored s id → any (has_id id) s.channels ≡ true
unfolding has_id
IsStored-any s id (c, m, e) = any_finds (has_id id) s.channels c m ((string_eq.beq_iff c.id id).1 e)

any-IsStored : (s : Store) (id : String) → any (has_id id) s.channels ≡ true → IsStored s id
unfolding has_id
any-IsStored s id h =
    let (c, m, e) = any_found (has_id id) s.channels h in (c, m, (string_eq.beq_iff c.id id).0 e)

-- `ReachingInto` of a stored channel lists the channel and exactly those others from which a path of
-- bridges, of any length, leads into it; of a channel that is not stored it lists nothing.
pub reaching_into_iff :
    (db : Ordering) (s : Store) (id from : String)
    → Has from (reaching_into db s id) ↔ (IsStored s id × Leads forwards s.bridges from id)
unfolding reaching_into
reaching_into_iff db s id from = (
  λ m. elim (Bool-cases (any (has_id id) s.channels)) [
    | inl stored ↦
        let listed =
          subst (λ b. Has from (if b then db.sort_ids.sort (distinct ids) else [])) stored m in
        let (w, mw, e) = Has-map_from row_id (path_search backwards s.bridges id) from (
          distinct-Has ids from (
            Any-perm (λ y. y ≡ from) (Permᴰ.symm (db.sort_ids.sort-perm (distinct ids))) listed)) in
        (
          any-IsStored s id stored,
          Leads-forwards ((path_search_iff backwards s.bridges id from).0 (w, mw, e)),
        )
    | inr unknown ↦
        absurd (subst (λ b. Has from (if b then db.sort_ids.sort (distinct ids) else [])) unknown m)
  ],
  λ (stored, l).
      let (w, mw, e) = (path_search_iff backwards s.bridges id from).1 (Leads-backwards l) in
      rw (IsStored-any s id stored, if◌then◌else◌)
        (Any-perm (λ y. y ≡ from) (db.sort_ids.sort-perm (distinct ids))
          (Has-distinct ids from
            (subst (λ y. Has y ids) e (Has-map row_id (path_search backwards s.bridges id) w mw)))),
)
  where
    row_id : PathRow → String
    row_id w = w.id

    ids : List String
    ids = map (λ (w : PathRow). w.id) (path_search backwards s.bridges id)
