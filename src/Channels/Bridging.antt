-- ===== src/Channels/Bridging.antt =====
-- `CreateBridge` of services/hub/internal/channels/store.go: what its checks establish, and what
-- two calls do whose statements interleave.
pub mod Free
pub mod Race
use ainsel.Prelude.{
  Bool, true, false, not, ◌&&◌, ◌||◌, ◌≡◌, ◌≢◌, refl, sym, subst, ap, inl, inr, ◌⊎◌, List, [], ◌∷◌,
  ◌++◌, Option, none, some, String, if◌then◌else◌, if_elim, ◌==◌, string_eq, arith, any, any_finds,
  Has, Bool-cases, Option-cases, ==_refl, ==_false, Any-append_right, Any-append_left,
}
use ainsel.Prelude.Time.{Instant}
use ainsel.Channels.Rows.{Channel, Bridge, kind_custom}
use ainsel.Channels.Graph.{forwards, reaches, Leads, here, step}
use ainsel.Channels.Graph.Reachable.{reaches_iff}
use ainsel.Channels.Graph.Acyclic.{IsAcyclic, tested-IsAcyclic}
use ainsel.Channels.Walk.Inboxes.Exact.{HasKeys}
use ainsel.Channels.{Store, Result, ok, err, find, has_id, get, or_not_found, is_custom}
use ainsel.Channels.Bridges.{
  check_pair, check_to, check_from, check_bridge, insert_bridge, clashes, new_bridge, after_check,
  create_bridge,
}
use ainsel.Channels.Invariant.{IsAttached, IsSound, find-found, any_misses}
use ainsel.Channels.Invariant.Preserved.{in_either}

-- What a pair of channels has that passed the checks.
pub record IsChecked (s : Store) (from_id to_id : String) : Type 0 where
  pub other : from_id ≢ to_id
  pub from : Channel
  pub to : Channel
  pub from_stored : Has from s.channels
  pub to_stored : Has to s.channels
  pub from_named : from.id ≡ from_id
  pub to_named : to.id ≡ to_id
  pub grouping : (from.kind ≡ kind_custom) ⊎ (to.kind ≡ kind_custom)
  pub apart : reaches s.bridges to_id from_id ≡ false

-- What holds of a result's value, if it has one.
unfoldable pub Ensures : {A : Type 0} → (A → Type 0) → Result A → Type 0
Ensures P (ok a) = P a
Ensures P (err e) = Unit

or_not_found-Ensures :
    {A : Type 0} (P : A → Type 0) (o : Option A)
    → ((a : A) → o ≡ some a → P a)
    → Ensures P (or_not_found o)
unfolding Ensures or_not_found
or_not_found-Ensures P none h = tt
or_not_found-Ensures P (some a) h = h a refl

pub get-Ensures :
    (s : Store) (id : String) → Ensures (λ (c : Channel). Has c s.channels × (c.id ≡ id)) (get s id)
unfolding get has_id
get-Ensures s id =
    or_not_found-Ensures (λ (c : Channel). Has c s.channels × (c.id ≡ id)) _
      (λ c e.
        let found = find-found (has_id id) s.channels c e in
        (found.0, (string_eq.beq_iff c.id id).0 found.1))

module _ (s : Store) (from_id to_id name : String) (other : from_id ≢ to_id) where
  abbrev Checked : String → Type 0
  Checked _ = IsChecked s from_id to_id

  one_custom :
      (from to : Channel)
      → not (is_custom from) && not (is_custom to) ≡ false
      → (from.kind ≡ kind_custom) ⊎ (to.kind ≡ kind_custom)
  unfolding is_custom
  one_custom from to h = elim (Bool-cases (from.kind == kind_custom)) [
    | inl t ↦ inl ((string_eq.beq_iff _ _).0 t)
    | inr f ↦ inr ((string_eq.beq_iff _ _).0 (ground (arith, h, f)))
  ]

  check_pair-Ensures :
      (from to : Channel)
      → Has from s.channels × (from.id ≡ from_id)
      → Has to s.channels × (to.id ≡ to_id)
      → Ensures Checked (check_pair s from_id to_id name from to)
  unfolding check_pair Ensures
  check_pair-Ensures from to (mf, ef) (mt, et) =
      if_elim (Ensures Checked) (not (is_custom from) && not (is_custom to)) (λ h. tt)
        (λ g.
          if_elim (Ensures Checked) (reaches s.bridges to_id from_id) (λ h. tt)
            (λ a. record {
              other = other;
              from = from;
              to = to;
              from_stored = mf;
              to_stored = mt;
              from_named = ef;
              to_named = et;
              grouping = one_custom from to g;
              apart = a;
            }))

  check_to-Ensures :
      (from : Channel) (r : Result Channel)
      → Has from s.channels × (from.id ≡ from_id)
      → Ensures (λ (c : Channel). Has c s.channels × (c.id ≡ to_id)) r
      → Ensures Checked (check_to s from_id to_id name from r)
  unfolding check_to Ensures
  check_to-Ensures from (err e) mf mt = tt
  check_to-Ensures from (ok to) mf mt = check_pair-Ensures from to mf mt

  check_from-Ensures :
      (r : Result Channel)
      → Ensures (λ (c : Channel). Has c s.channels × (c.id ≡ from_id)) r
      → Ensures Checked (check_from s from_id to_id name r)
  unfolding check_from Ensures
  check_from-Ensures (err e) mf = tt
  check_from-Ensures (ok from) mf = check_to-Ensures from (get s to_id) mf (get-Ensures s to_id)

pub check_bridge-Ensures :
    (s : Store) (from_id to_id name : String)
    → Ensures (λ _. IsChecked s from_id to_id) (check_bridge s from_id to_id name)
unfolding check_bridge Ensures
check_bridge-Ensures s from_id to_id name =
    if_elim (Ensures (λ _. IsChecked s from_id to_id)) (from_id == to_id) (λ e. tt)
      (λ e.
        check_from-Ensures s from_id to_id name
          (λ same. cc (e, (string_eq.beq_iff from_id to_id).1 same)) (get s from_id)
          (get-Ensures s from_id))

-- The INSERT keeps the tables sound where the checks hold of the same tables.
insert_bridge-IsSound :
    (s : Store) (b : Bridge)
    → IsChecked s b.from_channel b.to_channel
    → IsSound s
    → IsSound (insert_bridge s b).0
unfolding insert_bridge HasKeys clashes
insert_bridge-IsSound s b k sound = elim (Bool-cases (b.from_channel == b.to_channel)) [
  | inl h ↦ rw (h, if◌then◌else◌) sound
  | inr h ↦
      rw (h, if◌then◌else◌)
        (elim (Bool-cases (any (clashes b) s.bridges)) [
          | inl hit ↦ rw (hit, if◌then◌else◌) sound
          | inr fresh ↦
              rw (fresh, if◌then◌else◌)
                (elim (Bool-cases (
                  any (has_id b.from_channel) s.channels && any (has_id b.to_channel) s.channels)) [
                    | inl m ↦ rw (m, if◌then◌else◌) (added fresh)
                    | inr m ↦ rw (m, if◌then◌else◌) sound
                  ])
        ])
]
  where
    kept_attached :
        {c : Bridge} → IsAttached s c → IsAttached (record s { bridges = s.bridges ++ b ∷ [] }) c
    kept_attached a = record {
      from = a.from;
      to = a.to;
      from_stored = a.from_stored;
      to_stored = a.to_stored;
      from_id = a.from_id;
      to_id = a.to_id;
      grouping = a.grouping;
    }

    not_stored :
        any (clashes b) s.bridges ≡ false
        → (o : Bridge) → Has o s.bridges
        → o.from_channel ≡ b.from_channel
        → o.to_channel ≡ b.to_channel
        → ⊥
    not_stored fresh o m f t =
        let miss = any_misses (clashes b) s.bridges o fresh m in
        ground (
          arith,
          miss,
          string_eq.beq_iff o.from_channel b.from_channel,
          string_eq.beq_iff o.to_channel b.to_channel,
          f,
          t,
        )

    one_pair :
        any (clashes b) s.bridges ≡ false
        → (c d : Bridge) → Has c (s.bridges ++ b ∷ [])
        → Has d (s.bridges ++ b ∷ [])
        → c.from_channel ≡ d.from_channel
        → c.to_channel ≡ d.to_channel
        → c ≡ d
    one_pair fresh c d mc md f t = elim (in_either s.bridges b c mc) [
      | inl oc ↦ elim (in_either s.bridges b d md) [
        | inl od ↦ sound.pairs c d oc od f t
        | inr nd ↦ absurd (
            not_stored fresh c oc (cc (f, ap (λ (x : Bridge). x.from_channel) nd))
              (cc (t, ap (λ (x : Bridge). x.to_channel) nd)))
      ]
      | inr nc ↦ elim (in_either s.bridges b d md) [
        | inl od ↦ absurd (
            not_stored fresh d od (cc (f, ap (λ (x : Bridge). x.from_channel) nc))
              (cc (t, ap (λ (x : Bridge). x.to_channel) nc)))
        | inr nd ↦ cc (nc, nd)
      ]
    ]

    added : any (clashes b) s.bridges ≡ false → IsSound (record s { bridges = s.bridges ++ b ∷ [] })
    added fresh = record {
      keys = sound.keys;
      entities = sound.entities;
      kinds = sound.kinds;
      attached = λ c m. elim (in_either s.bridges b c m) [
        | inl old ↦ kept_attached (sound.attached c old)
        | inr new ↦ subst (IsAttached _) new (record {
          from = k.from;
          to = k.to;
          from_stored = k.from_stored;
          to_stored = k.to_stored;
          from_id = k.from_named;
          to_id = k.to_named;
          grouping = k.grouping;
        })
      ];
      pairs = one_pair fresh;
      acyclic = tested-IsAcyclic s.bridges b sound.acyclic k.other k.apart;
    }

after_check-IsSound :
    (s : Store) (now : Instant) (id from_id to_id : String) (r : Result String)
    → Ensures (λ _. IsChecked s from_id to_id) r
    → IsSound s
    → IsSound (after_check s now id from_id to_id r).0
unfolding after_check Ensures new_bridge
after_check-IsSound s now id from_id to_id (err e) k sound = sound
after_check-IsSound s now id from_id to_id (ok name) k sound =
    insert_bridge-IsSound s (new_bridge now id from_id to_id name) k sound

pub create_bridge-IsSound :
    (s : Store) (now : Instant) (id from_id to_id name : String)
    → IsSound s
    → IsSound (create_bridge s now id from_id to_id name).0
unfolding create_bridge
create_bridge-IsSound s now id from_id to_id name =
    after_check-IsSound s now id from_id to_id _ (check_bridge-Ensures s from_id to_id name)
