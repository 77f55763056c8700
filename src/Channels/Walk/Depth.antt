-- ===== src/Channels/Walk/Depth.antt =====
-- What the rows of the query of `Walk` (services/hub/internal/channels/store.go) are.
use ainsel.Prelude.{
  ℕ, suc, ◌≤◌, true, ◌≡◌, ◌≢◌, refl, sym, subst, inl, inr, ◌⊎◌, List, [], ◌∷◌, ◌++◌, String, ◌==◌,
  string_eq, arith, All, All-imp, All-append, Has, Has-map, Has-map_from, Has-flat_map,
  Has-flat_map_from, Has-keep, Has-keep_from, keep, any_found, any_finds, Any-append_left,
}
use ainsel.Channels.Rows.{Channel, ref_of, Bridge}
use ainsel.Channels.Recursion.{Derived, given, next}
use ainsel.Channels.Graph.{forwards, on_path, Edge}
use ainsel.Channels.{Store, has_id}
use ainsel.Channels.Walk.{
  WalkRow, first_row, next_row, goes_on, bridge_rows, walk_rows, first_rows, max_walk_depth,
}

-- A path of so many bridges.
pub data LeadsIn (bridges : List Bridge) (x : String) : ℕ → String → Type 0 where
  here : LeadsIn bridges x 0 x
  step :
      {n : ℕ} {y z : String}
      → LeadsIn bridges x n y
      → Edge forwards bridges y z
      → LeadsIn bridges x (suc n) z

module _ (s : Store) (from : String) where
  abbrev pub Row : WalkRow → Type 0
  Row = Derived (walk_rows s) (first_rows s from)

  -- A row that some round yields for a channel, no deeper than a bound.
  abbrev pub Shallow : ℕ → String → Type 0
  Shallow n y = (w : WalkRow) × Row w × (w.channel_id ≡ y) × (w.depth ≤ n)

  -- The bridge that a row was reached by, and where that bridge starts.
  pub record IsEntered (w : WalkRow) : Type 0 where
    pub bridge : Bridge
    pub stored : Has bridge s.bridges
    pub bridge_end : bridge.to_channel ≡ w.channel_id
    pub bridge_id : bridge.id ≡ w.bridge_id
    pub bridge_name : bridge.name ≡ w.bridge_name
    pub before : ℕ
    pub one_more : w.depth ≡ suc before
    pub source : LeadsIn s.bridges from before bridge.from_channel
    pub left_start : w.channel_id ≢ from

  pub record IsWalked (w : WalkRow) : Type 0 where
    pub channel : Channel
    pub stored : Has channel s.channels
    pub channel_id : channel.id ≡ w.channel_id
    pub kind : channel.kind ≡ w.kind
    pub entity_ref : ref_of channel ≡ w.entity_ref
    pub leads : LeadsIn s.bridges from w.depth w.channel_id
    pub bounded : w.depth ≤ max_walk_depth
    pub entered : (w.depth ≡ 0) ⊎ IsEntered w
    pub from_start : on_path w.path from ≡ true
    pub path : All (Shallow w.depth) w.path

  first-IsWalked :
      (c : Channel) → Has c s.channels → c.id ≡ from → Row (first_row c) → IsWalked (first_row c)
  first-IsWalked c m e row = record {
    channel = c;
    stored = m;
    channel_id = refl;
    kind = refl;
    entity_ref = refl;
    leads = subst (LeadsIn s.bridges from 0) (sym e) here;
    bounded = omega arith;
    entered = inl refl;
    from_start = ground (arith, string_eq.beq_iff c.id from, e);
    path = ((first_row c, row, refl, omega arith), tt);
  }

  next-IsWalked :
      (w : WalkRow) (b : Bridge) (c : Channel)
      → Row (next_row w b c)
      → IsWalked w
      → Has b s.bridges
      → goes_on w b ≡ true
      → Has c s.channels
      → c.id ≡ b.to_channel
      → IsWalked (next_row w b c)
  next-IsWalked w b c row k mb h mc e =
      let at = (string_eq.beq_iff b.from_channel w.channel_id).0 (ground arith) in
      let source = subst (LeadsIn s.bridges from w.depth) (sym at) k.leads in
      record {
        channel = c;
        stored = mc;
        channel_id = e;
        kind = refl;
        entity_ref = refl;
        leads = step k.leads (b, mb, at, refl);
        bounded = ground arith;
        entered = inr (record {
          bridge = b;
          stored = mb;
          bridge_end = refl;
          bridge_id = refl;
          bridge_name = refl;
          before = w.depth;
          one_more = refl;
          source = source;
          left_start = λ same.
              let clash = subst (λ y. on_path w.path y ≡ true) (sym same) k.from_start in
              ground arith;
        });
        from_start =
            let hit = any_found (λ p. p == from) w.path k.from_start in
            any_finds (λ p. p == from) (w.path ++ b.to_channel ∷ []) hit.0
              (Any-append_left (λ p. p ≡ hit.0) w.path _ hit.1) hit.2;
        path =
            All-append (Shallow (suc w.depth)) w.path _
              (All-imp w.path (λ p (v, r, i, d). (v, r, i, omega (arith, d))) k.path)
              ((next_row w b c, row, refl, omega arith), tt);
      }

  -- The row of a bridge that the query follows from a row.
  pub followed :
      {w : WalkRow} (b : Bridge) (c : Channel)
      → Row w
      → Has b s.bridges
      → goes_on w b ≡ true
      → Has c s.channels
      → c.id ≡ b.to_channel
      → Row (next_row w b c)
  unfolding has_id
  followed {w} b c row mb h mc e = next row (
      Has-flat_map (bridge_rows s w) _ b _ (Has-keep (goes_on w) s.bridges mb h) (
        Has-map (next_row w b) _ c
          (Has-keep (has_id b.to_channel) s.channels mc ((string_eq.beq_iff _ _).1 e))))

  pub Row-IsWalked : {w : WalkRow} → Row w → IsWalked w
  unfolding has_id
  Row-IsWalked {w} (given m) =
      let made = Has-map_from first_row (keep (has_id from) s.channels) w m in
      let kept = Has-keep_from (has_id from) s.channels made.1 in
      subst IsWalked made.2 (
        first-IsWalked made.0 kept.0 ((string_eq.beq_iff _ _).0 kept.1)
          (given (Has-map first_row _ made.0 made.1)))
  Row-IsWalked (next {w} {r} row m) =
      let by = Has-flat_map_from (bridge_rows s w) (keep (goes_on w) s.bridges) r m in
      let on = Has-keep_from (goes_on w) s.bridges by.1 in
      let made = Has-map_from (next_row w by.0) (keep (has_id by.0.to_channel) s.channels) r by.2 in
      let kept = Has-keep_from (has_id by.0.to_channel) s.channels made.1 in
      let same = (string_eq.beq_iff _ _).0 kept.1 in
      subst IsWalked made.2 (
        next-IsWalked w by.0 made.0 (followed by.0 made.0 row on.0 on.1 kept.0 same)
          (Row-IsWalked row) on.0 on.1 kept.0 same)
