-- ===== src/Channels/Reconcile/Synced.antt =====
-- What a pass of `Sync` of services/hub/internal/channels/reconcile.go leaves in the tables.
use ainsel.Prelude.{
  ℕ, Bool, true, false, ◌≡◌, refl, sym, List, some, String, if◌then◌else◌, ◌==◌, string_eq, any,
  any_finds, map, Has, Has-map, Any-append_left, Any-append_right, ==_refl,
}
use ainsel.Prelude.Time.{Instant}
use ainsel.Channels.Rows.{Kind, kind_connector, kind_agent, kind_custom, valid, Entity}
use ainsel.Channels.{Store, mark_orphans}
use ainsel.Channels.Reconcile.{
  History, of_entity, entity_refs, provision, settle, failed_pass, finish_pass, sync, SyncResult,
}
use ainsel.Channels.Reconcile.Present.{IsPresent, mark_orphans-keeps}
use ainsel.Channels.Reconcile.Settled.{IsSettled, mark_orphans-settles, mark_orphans-IsSettled}
use ainsel.Channels.Reconcile.Ensured.{provision-IsPresent}

-- What the tables say of the entities of one kind: each listed one has a channel that is not
-- orphaned, and every channel of the kind that names an entity and is not orphaned belongs to a
-- listed one. A row of the kind whose entity column is NULL is passed over by `MarkOrphans`.
pub record IsSynced (kind : Kind) (entities : List Entity) (s : Store) : Type 0 where
  pub present : (e : Entity) → Has e entities → IsPresent kind e.ref s
  pub settled : IsSettled kind (entity_refs entities) s

is_listed :
    (es : List Entity) (e : Entity) → Has e es → any (λ ref. ref == e.ref) (entity_refs es) ≡ true
is_listed es e m =
    any_finds (λ ref. ref == e.ref) (entity_refs es) e.ref (Has-map (λ (x : Entity). x.ref) es e m)
      (==_refl e.ref)

settle-IsSynced :
    (now : Instant) (new_id : ℕ → String) (h : History) (agents connectors : List Entity)
    (s : Store)
    → (provision now new_id h agents connectors s).going ≡ true
    → IsSynced kind_connector connectors
        (settle now h agents connectors (provision now new_id h agents connectors s)).0
      × IsSynced kind_agent agents
          (settle now h agents connectors (provision now new_id h agents connectors s)).0
unfolding settle valid
settle-IsSynced now new_id h agents connectors s going =
    let p = provision now new_id h agents connectors s in
    let first = (mark_orphans p.store now kind_connector (entity_refs connectors)).0 in
    (
      record {
        present = λ e m.
            mark_orphans-keeps kind_connector e.ref first now kind_agent (entity_refs agents)
              (λ same. absurd (no_kind same))
              (mark_orphans-keeps kind_connector e.ref p.store now kind_connector
                (entity_refs connectors) (λ same. is_listed connectors e m)
                (provision-IsPresent now new_id h agents connectors s (of_entity kind_connector e)
                  (Any-append_left (λ x. x ≡ of_entity kind_connector e)
                    (map (of_entity kind_connector) connectors) _
                    (Has-map (of_entity kind_connector) connectors e m))
                  going));
        settled =
            mark_orphans-IsSettled first now kind_agent (entity_refs agents) kind_connector
              (entity_refs connectors)
              (mark_orphans-settles p.store now kind_connector (entity_refs connectors) refl
                (λ same. no_custom same));
      },
      record {
        present = λ e m.
            mark_orphans-keeps kind_agent e.ref first now kind_agent (entity_refs agents)
              (λ same. is_listed agents e m)
              (mark_orphans-keeps kind_agent e.ref p.store now kind_connector
                (entity_refs connectors) (λ same. absurd (no_kind (sym same)))
                (provision-IsPresent now new_id h agents connectors s (of_entity kind_agent e)
                  (Any-append_right (λ x. x ≡ of_entity kind_agent e)
                    (map (of_entity kind_connector) connectors) _
                    (Has-map (of_entity kind_agent) agents e m))
                  going));
        settled =
            mark_orphans-settles first now kind_agent (entity_refs agents) refl
              (λ same. no_custom_agent same);
      },
    )
  where
    differ : (s t : String) → (s == t) ≡ false → s ≡ t → ⊥
    differ s t h e = cc (h, (string_eq.beq_iff s t).1 e)

    no_kind : kind_connector ≡ kind_agent → ⊥
    no_kind = differ kind_connector kind_agent refl

    no_custom : kind_connector ≡ kind_custom → ⊥
    no_custom = differ kind_connector kind_custom refl

    no_custom_agent : kind_agent ≡ kind_custom → ⊥
    no_custom_agent = differ kind_agent kind_custom refl

finished :
    (b : Bool) (x y : Store × (SyncResult × Bool)) (Q : Store → Type 0)
    → y.1.1 ≡ false
    → (if b then x else y).1.1 ≡ true
    → (b ≡ true → Q x.0)
    → Q (if b then x else y).0
finished true x y Q fails h f = f refl
finished false x y Q fails h f = cc (fails, h)

-- After a pass of the reconciler that returns no error, whatever the tables held and whatever the
-- events name, the channels and the registry agree, for the connectors and for the agents: each
-- listed entity has a channel that is not orphaned, and a channel of the kind that names an entity
-- (its entity column is not NULL) and is not orphaned belongs to a listed entity.
pub sync-IsSynced :
    (now : Instant) (new_id : ℕ → String) (agents connectors : List Entity) (h : History)
    (s : Store)
    → (sync now new_id (record { agents = some agents; connectors = some connectors }) h s).1.1
      ≡ true
    → IsSynced kind_connector connectors
        (sync now new_id (record { agents = some agents; connectors = some connectors }) h s).0
      × IsSynced kind_agent agents
          (sync now new_id (record { agents = some agents; connectors = some connectors }) h s).0
unfolding sync finish_pass failed_pass
sync-IsSynced now new_id agents connectors h s done =
    finished (provision now new_id h agents connectors s).going
      (settle now h agents connectors (provision now new_id h agents connectors s)) _
      (λ t. IsSynced kind_connector connectors t × IsSynced kind_agent agents t) refl done
      (settle-IsSynced now new_id h agents connectors s)
