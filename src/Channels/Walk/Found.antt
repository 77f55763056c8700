-- ===== src/Channels/Walk/Found.antt =====
-- Which channels `Walk` of services/hub/internal/channels/store.go returns.
use mathlib.Core.List.Permᴰ
use ainsel.Prelude.{
  ℕ, ◌-◌, ◌<◌, ◌≤◌, true, ◌≡◌, ◌≢◌, refl, sym, subst, inl, inr, ◌⊎◌, List, [], ◌∷◌, String, ◌==◌,
  string_eq, arith, All, All-append, All-Has, Any-perm, Has, keep, map, flat_map, Has-keep,
  Has-keep_from, Has-map, any_found, Bool-cases, lt→ltb, ltb→lt, if◌then◌else◌,
}
use ainsel.Channels.Rows.{Channel, Bridge}
use ainsel.Channels.Recursion.{
  given, working_table, working_table-ends, with_recursive-IsComplete, with_recursive-IsDerived,
}
use ainsel.Channels.Graph.{on_path}
use ainsel.Channels.{Store, has_id}
use ainsel.Channels.Walk.{
  WalkRow, first_row, next_row, goes_on, bridge_rows, walk_rows, first_rows, all_rows, is_below,
  max_walk_depth, walk, Collation,
}
use ainsel.Channels.Walk.Depth.{LeadsIn, here, step, Row, Shallow, followed, Row-IsWalked}

-- A channel with the id is stored.
abbrev pub IsStored : Store → String → Type 0
IsStored s id = (c : Channel) × Has c s.channels × (c.id ≡ id)

-- Every bridge joins two stored channels, which the foreign keys see to.
unfoldable pub HasEnds : Store → Type 0
HasEnds s = (b : Bridge) → Has b s.bridges → IsStored s b.from_channel × IsStored s b.to_channel

-- A path that leaves its start leaves it over a stored bridge.
LeadsIn-start :
    (s : Store) {from : String} {n : ℕ} {y : String}
    → HasEnds s
    → LeadsIn s.bridges from n y
    → (from ≡ y) ⊎ IsStored s from
unfolding HasEnds
LeadsIn-start s ends here = inl refl
LeadsIn-start s ends (step l (b, m, source, t)) = elim (LeadsIn-start s ends l) [
  | inl same ↦ inr (subst (IsStored s) (cc (same, source)) (ends b m).0)
  | inr stored ↦ inr stored
]

pub LeadsIn-IsStored :
    (s : Store) {from : String} {n : ℕ} {y : String}
    → HasEnds s
    → LeadsIn s.bridges from n y
    → y ≢ from
    → IsStored s from
LeadsIn-IsStored s ends l other = elim (LeadsIn-start s ends l) [
  | inl same ↦ absurd (other (sym same))
  | inr stored ↦ stored
]

module _ (s : Store) (from : String) where
  walk_rows-falls :
      (w : WalkRow) → All (λ r. max_walk_depth - r.depth < max_walk_depth - w.depth) (walk_rows s w)
  walk_rows-falls w = each s.bridges
    where
      below : WalkRow → Type 0
      below r = max_walk_depth - r.depth < max_walk_depth - w.depth

      each_channel :
          (b : Bridge)
          → goes_on w b ≡ true
          → (cs : List Channel) → All below (map (next_row w b) cs)
      each_channel b h [] = tt
      each_channel b h (c ∷ cs) = (ground arith, each_channel b h cs)

      each : (bs : List Bridge) → All below (flat_map (bridge_rows s w) (keep (goes_on w) bs))
      each [] = tt
      each (b ∷ bs) = elim (Bool-cases (goes_on w b)) [
        | inl h ↦
            rw (h, if◌then◌else◌)
              (All-append below (bridge_rows s w b) _
                (each_channel b h (keep (has_id b.to_channel) s.channels)) (each bs))
        | inr h ↦ rw (h, if◌then◌else◌) (each bs)
      ]

  first_rows-below : All (λ (r : WalkRow). max_walk_depth - r.depth < 9) (first_rows s from)
  first_rows-below = each (keep (has_id from) s.channels)
    where
      each :
          (cs : List Channel)
          → All (λ (r : WalkRow). max_walk_depth - r.depth < 9) (map first_row cs)
      each [] = tt
      each (c ∷ cs) = (omega arith, each cs)

  -- The query of `Walk` ends after nine rounds, cycles or not.
  pub walk_rows-ends : working_table (walk_rows s) 9 (first_rows s from) ≡ []
  walk_rows-ends =
      working_table-ends (walk_rows s) (λ r. max_walk_depth - r.depth) walk_rows-falls 9
        (first_rows s from) first_rows-below

  -- A channel that bridges lead to has a row no deeper than the path, if the path is short enough.
  pub LeadsIn-Shallow :
      {n : ℕ} {y : String}
      → HasEnds s
      → IsStored s from
      → n ≤ max_walk_depth
      → LeadsIn s.bridges from n y
      → Shallow s from n y
  unfolding HasEnds has_id
  LeadsIn-Shallow ends (c, m, e) short here = (
    first_row c,
    given
        (Has-map first_row _ c (Has-keep (has_id from) s.channels m ((string_eq.beq_iff _ _).1 e))),
    e,
    omega arith,
  )
  LeadsIn-Shallow ends start short (step {n} {y} {z} l (b, m, source, t)) =
      let (w, row, at, d) = LeadsIn-Shallow ends start (omega (arith, short)) l in
      elim (Bool-cases (on_path w.path z)) [
        | inl seen ↦
            let hit = any_found (λ p. p == z) w.path seen in
            let (v, r, i, k) =
              All-Has (Shallow s from w.depth) w.path (Row-IsWalked s from row).path hit.1 in
            (v, r, cc (i, (string_eq.beq_iff hit.0 z).0 hit.2), omega (arith, k, d))
        | inr fresh ↦
            let (c, mc, e) = (ends b m).1 in
            (
              next_row w b c,
              followed s from b c row m
                  (ground (arith, string_eq.beq_iff b.from_channel w.channel_id, t)) mc e,
              t,
              omega (arith, d),
            )
      ]

module _ (db : Collation) (s : Store) (from : String) where
  pub walk-Row : {w : WalkRow} → Has w (walk db s from) → Row s from w × (0 < w.depth)
  unfolding walk
  walk-Row {w} m =
      let kept = Has-keep_from is_below (all_rows s from) (
        Any-perm (λ v. v ≡ w)
          (Permᴰ.symm (db.sort_rows.sort-perm (keep is_below (all_rows s from)))) m) in
      (with_recursive-IsDerived (walk_rows s) 9 (first_rows s from) kept.0, ltb→lt _ _ kept.1)

  pub Row-walk : {w : WalkRow} → Row s from w → 0 < w.depth → Has w (walk db s from)
  unfolding walk
  Row-walk {w} row deep =
      Any-perm (λ v. v ≡ w) (db.sort_rows.sort-perm (keep is_below (all_rows s from)))
        (Has-keep is_below (all_rows s from)
          (with_recursive-IsComplete (walk_rows s) (λ r. max_walk_depth - r.depth)
            (walk_rows-falls s from) 8 (first_rows s from) (first_rows-below s from) row)
          (lt→ltb _ _ deep))
