-- ===== src/Channels/Reconcile/Ensured.antt =====
-- The loops over `Ensure` of services/hub/internal/channels/reconcile.go: a pass that goes on has given
-- each entity its channel.
use ainsel.Prelude.{
  ℕ, Bool, true, false, ◌≡◌, refl, sym, subst, inl, inr, List, [], ◌∷◌, ◌++◌, Option, none, some,
  String, if◌then◌else◌, string_eq, map, Has,
}
use ainsel.Prelude.Time.{Instant}
use ainsel.Channels.Rows.{Kind, kind_connector, kind_agent, Channel, Entity}
use ainsel.Channels.{Store, Result, ok, err, ensure}
use ainsel.Channels.Reconcile.{
  History, Wanted, of_entity, Pass, after_ensure, ensure_one, ensure_each, ensure_listed,
  label_wants, inbox_wants, provision,
}
use ainsel.Channels.Reconcile.Present.{IsPresent, ensure-keeps, ensure-IsPresent}

stored_either :
    (b : Bool) (p q : Pass) (P : Store → Type 0)
    → P p.store
    → P q.store
    → P (if b then q else p).store
stored_either true p q P hp hq = hq
stored_either false p q P hp hq = hp

carries_on :
    (b : Bool) (p q : Pass) (P : Store → Type 0)
    → p.going ≡ b
    → (if b then q else p).going ≡ true
    → (q.going ≡ true → P q.store)
    → (p.going ≡ true) × P (if b then q else p).store
carries_on true p q P e h f = (e, f h)
carries_on false p q P e h f = cc (e, h)

module _ (now : Instant) (new_id : ℕ → String) where
  after_ensure-store : (p : Pass) (r : Store × Result Channel) → (after_ensure p r).store ≡ r.0
  unfolding after_ensure
  after_ensure-store p (s, ok c) = refl
  after_ensure-store p (s, err e) = refl

  after_ensure-going :
      (p : Pass) (r : Store × Result Channel)
      → (after_ensure p r).going ≡ true
      → (p.going ≡ true) × ((d : Channel) × (r.1 ≡ ok d))
  unfolding after_ensure
  after_ensure-going p (s, ok c) h = (h, (c, refl))
  after_ensure-going p (s, err e) h = cc h

  ensure_one-keeps :
      (p : Pass) (w : Wanted) (k : Kind) (r : String)
      → IsPresent k r p.store
      → IsPresent k r (ensure_one now new_id p w).store
  unfolding ensure_one
  ensure_one-keeps p w k r h =
      let result = ensure p.store now (new_id p.provisioned) w.kind w.ref w.name w.description in
      stored_either p.going p (after_ensure p result) (IsPresent k r) h (
        subst (IsPresent k r) (sym (after_ensure-store p result))
          (ensure-keeps k r p.store now (new_id p.provisioned) w.kind w.ref w.name w.description h))

  -- A round after which the pass goes on has ensured its entity.
  ensure_one-going :
      (p : Pass) (w : Wanted)
      → (ensure_one now new_id p w).going ≡ true
      → (p.going ≡ true) × IsPresent w.kind w.ref (ensure_one now new_id p w).store
  unfolding ensure_one
  ensure_one-going p w h =
      let result = ensure p.store now (new_id p.provisioned) w.kind w.ref w.name w.description in
      carries_on p.going p (after_ensure p result) (IsPresent w.kind w.ref) refl h (λ g.
        let (before, (d, e)) = after_ensure-going p result g in
        subst (IsPresent w.kind w.ref) (sym (after_ensure-store p result)) (
          ensure-IsPresent p.store now (new_id p.provisioned) w.kind w.ref w.name w.description d
            e))

  ensure_each-keeps :
      (ws : List Wanted) (p : Pass) (k : Kind) (r : String)
      → IsPresent k r p.store
      → IsPresent k r (ensure_each now new_id ws p).store
  unfolding ensure_each
  ensure_each-keeps [] p k r h = h
  ensure_each-keeps (w ∷ ws) p k r h =
      ensure_each-keeps ws (ensure_one now new_id p w) k r (ensure_one-keeps p w k r h)

  ensure_each-going :
      (ws : List Wanted) (p : Pass) → (ensure_each now new_id ws p).going ≡ true → p.going ≡ true
  unfolding ensure_each
  ensure_each-going [] p h = h
  ensure_each-going (w ∷ ws) p h =
      (ensure_one-going p w (ensure_each-going ws (ensure_one now new_id p w) h)).0

  ensure_each-IsPresent :
      (ws : List Wanted) (p : Pass) (w : Wanted)
      → (ensure_each now new_id ws p).going ≡ true
      → Has w ws
      → IsPresent w.kind w.ref (ensure_each now new_id ws p).store
  unfolding ensure_each
  ensure_each-IsPresent [] p w h m = absurd m
  ensure_each-IsPresent (v ∷ ws) p w h (inl e) =
      ensure_each-keeps ws (ensure_one now new_id p v) w.kind w.ref (
        subst (λ (x : Wanted). IsPresent x.kind x.ref (ensure_one now new_id p v).store) e
          (ensure_one-going p v (ensure_each-going ws (ensure_one now new_id p v) h)).1)
  ensure_each-IsPresent (v ∷ ws) p w h (inr m) =
      ensure_each-IsPresent ws (ensure_one now new_id p v) w h m

  ensure_listed-going :
      (o : Option (List Wanted)) (p : Pass)
      → (ensure_listed now new_id o p).going ≡ true
      → p.going ≡ true
  unfolding ensure_listed
  ensure_listed-going none p h = cc h
  ensure_listed-going (some ws) p h = ensure_each-going ws p h

  ensure_listed-keeps :
      (o : Option (List Wanted)) (p : Pass) (k : Kind) (r : String)
      → IsPresent k r p.store
      → IsPresent k r (ensure_listed now new_id o p).store
  unfolding ensure_listed
  ensure_listed-keeps none p k r h = h
  ensure_listed-keeps (some ws) p k r h = ensure_each-keeps ws p k r h

  module _ (h : History) (agents connectors : List Entity) (s : Store) where
    abbrev entries : List Wanted
    entries = map (of_entity kind_connector) connectors ++ map (of_entity kind_agent) agents

    abbrev first_pass : Pass
    first_pass = record { store = s; provisioned = 0; going = true }

    -- After a pass that goes on to its end every entity of the registry has a channel.
    pub provision-IsPresent :
        (w : Wanted)
        → Has w entries
        → (provision now new_id h agents connectors s).going ≡ true
        → IsPresent w.kind w.ref (provision now new_id h agents connectors s).store
    unfolding provision
    provision-IsPresent w m going =
        let registered = ensure_each now new_id entries first_pass in
        let labelled = ensure_listed now new_id (label_wants h.unstamped_labels) registered in
        ensure_listed-keeps (inbox_wants h.inbox_agents) labelled w.kind w.ref (
          ensure_listed-keeps (label_wants h.unstamped_labels) registered w.kind w.ref (
            ensure_each-IsPresent entries first_pass w
              (ensure_listed-going (label_wants h.unstamped_labels) registered
                (ensure_listed-going (inbox_wants h.inbox_agents) labelled going))
              m))
