-- ===== src/Channels/Graph/Reachable.antt =====
-- What the recursive queries of services/hub/internal/channels/store.go find.
use ainsel.Prelude.{
  ℕ, suc, ◌<◌, true, not, ◌&&◌, ◌≡◌, ◌≢◌, ◌↔◌, refl, subst, inl, inr, List, [], ◌∷◌, ◌++◌, String,
  ◌==◌, string_eq, arith, All, Has, All-append, All-Has, keep, map, length, length-keep,
  if◌then◌else◌, Has-map, Has-map_from, Has-keep, Has-keep_from, length-keep_lt, Bool-cases,
  ==_refl, any_found, any_finds,
}
use ainsel.Channels.Rows.{Bridge}
use ainsel.Channels.Recursion.{
  working_table, Derived, given, next, with_recursive-IsDerived, with_recursive-IsComplete,
  working_table-ends,
}
use ainsel.Channels.Graph.{
  Direction, forwards, PathRow, on_path, is_next, extend_path, path_rows, start_row, path_search,
  reaches, Leads, here, step,
}

on_path-append :
    (path : List String) (z id : String)
    → on_path path id ≡ true
    → on_path (path ++ z ∷ []) id ≡ true
on_path-append [] z id h = cc h
on_path-append (p ∷ path) z id h = ground (arith, on_path-append path z id)

on_path-last : (path : List String) (z : String) → on_path (path ++ z ∷ []) z ≡ true
on_path-last [] z = ground (arith, ==_refl z)
on_path-last (p ∷ path) z = ground (arith, on_path-last path z)

module _ (d : Direction) (bridges : List Bridge) where
  -- The bridges that a path has not used.
  abbrev unused : PathRow → ℕ
  unused w = length (keep (λ b. not (on_path w.path (d.target b))) bridges)

  extend_path-unused :
      (w : PathRow) (b : Bridge)
      → Has b bridges
      → is_next d w b ≡ true
      → unused (extend_path d w b) < unused w
  extend_path-unused w b m h =
      length-keep_lt (λ c. not (on_path w.path (d.target c)))
        (λ c. not (on_path (w.path ++ d.target b ∷ []) (d.target c)))
        (λ c k. ground (arith, on_path-append w.path (d.target b) (d.target c))) bridges m
        (ground arith) (ground (arith, on_path-last w.path (d.target b)))

  unused-falls : (w : PathRow) → All (λ r. unused r < unused w) (path_rows d bridges w)
  unused-falls w = each bridges (λ b m. m)
    where
      each :
          (bs : List Bridge)
          → ((b : Bridge) → Has b bs → Has b bridges)
          → All (λ r. unused r < unused w) (map (extend_path d w) (keep (is_next d w) bs))
      each [] inside = tt
      each (b ∷ bs) inside = elim (Bool-cases (is_next d w b)) [
        | inl taken ↦
            rw (taken, if◌then◌else◌)
              (
                extend_path-unused w b (inside b (inl refl)) taken,
                each bs (λ c m. inside c (inr m)),
              )
        | inr left ↦ rw (left, if◌then◌else◌) (each bs (λ c m. inside c (inr m)))
      ]

  module _ (x : String) where
    abbrev Row : PathRow → Type 0
    Row = Derived (path_rows d bridges) (start_row x ∷ [])

    abbrev Found : String → Type 0
    Found y = (w : PathRow) × Row w × (w.id ≡ y)

    follow :
        {w : PathRow} (b : Bridge)
        → Row w
        → Has b bridges
        → is_next d w b ≡ true
        → Row (extend_path d w b)
    follow {w} b r m h = next r (Has-map (extend_path d w) _ b (Has-keep (is_next d w) bridges m h))

    path-IsFound : {w : PathRow} → Row w → All Found w.path
    path-IsFound (given (inl e)) =
        subst (λ (w : PathRow). All Found w.path) e ((start_row x, given (inl refl), refl), tt)
    path-IsFound (given (inr m)) = absurd m
    path-IsFound (next {w} {r} row m) =
        let from = Has-map_from (extend_path d w) (keep (is_next d w) bridges) r m in
        let kept = Has-keep_from (is_next d w) bridges from.1 in
        subst (λ (v : PathRow). All Found v.path) from.2
          (All-append Found w.path _ (path-IsFound row)
            ((extend_path d w from.0, follow from.0 row kept.0 kept.1, refl), tt))

    Row-Leads : {w : PathRow} → Row w → Leads d bridges x w.id
    Row-Leads (given (inl e)) = subst (λ (w : PathRow). Leads d bridges x w.id) e here
    Row-Leads (given (inr m)) = absurd m
    Row-Leads (next {w} {r} row m) =
        let from = Has-map_from (extend_path d w) (keep (is_next d w) bridges) r m in
        let kept = Has-keep_from (is_next d w) bridges from.1 in
        subst (λ (v : PathRow). Leads d bridges x v.id) from.2
          (step (Row-Leads row) (from.0, kept.0, (string_eq.beq_iff _ _).0 (ground arith), refl))

    Leads-IsFound : {y : String} → Leads d bridges x y → Found y
    Leads-IsFound here = (start_row x, given (inl refl), refl)
    Leads-IsFound (step {y} {z} l (b, m, s, t)) =
        let (w, row, at) = Leads-IsFound l in
        elim (Bool-cases (on_path w.path z)) [
          | inl seen ↦
              let hit = any_found (λ p. p == z) w.path seen in
              subst Found ((string_eq.beq_iff _ _).0 hit.2)
                (All-Has Found w.path (path-IsFound row) hit.1)
          | inr fresh ↦ (
            extend_path d w b,
            follow b row m (ground (arith, string_eq.beq_iff (d.source b) w.id)),
            t,
          )
        ]

    unused-start : unused (start_row x) < suc (length bridges)
    unused-start = omega (arith, length-keep (λ b. not (on_path (x ∷ []) (d.target b))) bridges)

    -- The search ends: no path goes on for more rounds than there are bridges, and one.
    pub path_search-ends :
        working_table (path_rows d bridges) (suc (length bridges)) (start_row x ∷ []) ≡ []
    path_search-ends =
        working_table-ends (path_rows d bridges) unused unused-falls (suc (length bridges))
          (start_row x ∷ []) (unused-start, tt)

    -- The rows of the search are the channels that bridges lead to, however many bridges that takes.
    pub path_search_iff :
        (y : String)
        → ((w : PathRow) × Has w (path_search d bridges x) × (w.id ≡ y)) ↔ Leads d bridges x y
    path_search_iff y = (
      λ (w, m, at). subst (Leads d bridges x) at (
          Row-Leads (
            with_recursive-IsDerived (path_rows d bridges) (suc (length bridges)) (start_row x ∷ [])
              m)),
      λ l.
          let found = Leads-IsFound l in
          (
            found.0,
            with_recursive-IsComplete (path_rows d bridges) unused unused-falls (length bridges)
                (start_row x ∷ []) (unused-start, tt) found.1,
            found.2,
          ),
    )

-- `Reaches` answers whether a path of one or more bridges leads from one channel to another, of
-- any length; a channel never reaches itself.
pub reaches_iff :
    (bridges : List Bridge) (from to : String)
    → (reaches bridges from to ≡ true) ↔ (Leads forwards bridges from to × (to ≢ from))
unfolding reaches
reaches_iff bridges from to = (
  λ h.
      let hit =
        any_found (λ (w : PathRow). w.id == to && not (to == from))
          (path_search forwards bridges from) h in
      (
        (path_search_iff forwards bridges from to).0
            (hit.0, hit.1, (string_eq.beq_iff _ _).0 (ground (arith, hit.2))),
        λ same. ground (arith, hit.2, string_eq.beq_iff to from),
      ),
  λ (l, other).
      let found = (path_search_iff forwards bridges from to).1 l in
      any_finds (λ (w : PathRow). w.id == to && not (to == from))
        (path_search forwards bridges from) found.0 found.1
        (ground
          (arith, string_eq.beq_iff found.0.id to, string_eq.beq_iff to from, found.2, other)),
)
