-- ===== src/Channels/Invariant/Preserved.antt =====
-- The changes of the tables of services/hub/internal/channels/store.go that keep them sound.
use ainsel.Prelude.{
  Bool, not, ◌≡◌, ◌≢◌, refl, subst, ap, inl, inr, ◌⊎◌, List, [], ◌∷◌, ◌++◌, some, String, string_eq,
  arith, map, keep, Has, Has-map, Has-map_from, Has-keep, Has-keep_from, Any-append,
  Any-append_left,
}
use ainsel.Channels.Rows.{Channel, Bridge}
use ainsel.Channels.Graph.Acyclic.{subset-IsAcyclic}
use ainsel.Channels.Walk.Inboxes.Exact.{HasKeys}
use ainsel.Channels.{Store, has_id, touches, remove_channel}
use ainsel.Channels.Invariant.{IsOfKind, is_grouping, is_provisioned, IsAttached, IsSound}

-- A channel that keeps its identity.
pub record IsSame (c e : Channel) : Type 0 where
  pub id : e.id ≡ c.id
  pub kind : e.kind ≡ c.kind
  pub entity_ref : e.entity_ref ≡ c.entity_ref

-- The bridge stays attached where its channels stay.
IsAttached-in :
    (s after : Store) (b : Bridge) (a : IsAttached s b)
    → ((e : Channel) × Has e after.channels × IsSame a.from e)
    → ((e : Channel) × Has e after.channels × IsSame a.to e)
    → IsAttached after b
IsAttached-in s after b a (f, mf, sf) (t, mt, st) = record {
  from = f;
  to = t;
  from_stored = mf;
  to_stored = mt;
  from_id = cc (sf.id, a.from_id);
  to_id = cc (st.id, a.to_id);
  grouping = elim a.grouping [ inl k ↦ inl (cc (sf.kind, k)) | inr k ↦ inr (cc (st.kind, k)) ];
}

same_kind : {c e : Channel} → IsSame c e → IsOfKind c → IsOfKind e
same_kind s (is_grouping k n) = is_grouping (cc (s.kind, k)) (cc (s.entity_ref, n))
same_kind s (is_provisioned v k r n) =
    is_provisioned (rw s.kind v) (λ e. k (cc (s.kind, e))) (cc (s.entity_ref, r)) n

-- A statement that changes no identity keeps the tables sound.
pub map-IsSound :
    (s : Store) (g : Channel → Channel)
    → ((c : Channel) → IsSame c (g c))
    → IsSound s
    → IsSound (record s { channels = map g s.channels })
unfolding HasKeys
map-IsSound s g same sound =
    let from = λ (c : Channel) (m : Has c (map g s.channels)). Has-map_from g s.channels c m in
    record {
      keys = λ c e mc me h.
          let (c0, m0, ec) = from c mc in
          let (e0, n0, ee) = from e me in
          let one = sound.keys c0 e0 m0 n0 (
            cc (
              (same c0).id,
              (same e0).id,
              ap (λ (x : Channel). x.id) ec,
              ap (λ (x : Channel). x.id) ee,
              h,
            )) in
          cc (ap g one, ec, ee);
      entities = λ c e ref mc me k rc re.
          let (c0, m0, ec) = from c mc in
          let (e0, n0, ee) = from e me in
          let one =
            sound.entities c0 e0 ref m0 n0
              (cc (
                (same c0).kind,
                (same e0).kind,
                ap (λ (x : Channel). x.kind) ec,
                ap (λ (x : Channel). x.kind) ee,
                k,
              ))
              (cc ((same c0).entity_ref, ap (λ (x : Channel). x.entity_ref) ec, rc))
              (cc ((same e0).entity_ref, ap (λ (x : Channel). x.entity_ref) ee, re)) in
          cc (
            (same c0).id,
            (same e0).id,
            ap (λ (x : Channel). x.id) ec,
            ap (λ (x : Channel). x.id) ee,
            one,
          );
      kinds = λ c m.
          let (c0, m0, ec) = from c m in
          subst IsOfKind ec (same_kind (same c0) (sound.kinds c0 m0));
      attached = λ b m.
          let a = sound.attached b m in
          IsAttached-in s _ b a (g a.from, Has-map g s.channels a.from a.from_stored, same a.from)
            (g a.to, Has-map g s.channels a.to a.to_stored, same a.to);
      pairs = sound.pairs;
      acyclic = sound.acyclic;
    }

IsSame-refl : (c : Channel) → IsSame c c
IsSame-refl c = record { id = refl; kind = refl; entity_ref = refl }

pub in_either : {A : Type 0} (xs : List A) (x a : A) → Has a (xs ++ x ∷ []) → Has a xs ⊎ (x ≡ a)
in_either xs x a m = elim (Any-append (λ y. y ≡ a) xs (x ∷ []) m) [
  | inl old ↦ inl old
  | inr (inl new) ↦ inr new
  | inr (inr none_left) ↦ absurd none_left
]

-- An INSERT of a channel whose id and entity no stored channel has.
pub append-IsSound :
    (s : Store) (c : Channel)
    → ((e : Channel) → Has e s.channels → e.id ≢ c.id)
    → ((e : Channel) (ref : String)
        → Has e s.channels
        → e.kind ≡ c.kind
        → e.entity_ref ≡ some ref
        → c.entity_ref ≢ some ref)
    → IsOfKind c
    → IsSound s
    → IsSound (record s { channels = s.channels ++ c ∷ [] })
unfolding HasKeys
append-IsSound s c fresh free kind sound =
    let split = λ (e : Channel) (m : Has e (s.channels ++ c ∷ [])). in_either s.channels c e m in
    record {
      keys = λ d e md me h. elim (split d md) [
        | inl od ↦ elim (split e me) [
          | inl oe ↦ sound.keys d e od oe h
          | inr ne ↦ absurd (fresh d od (cc (h, ap (λ (x : Channel). x.id) ne)))
        ]
        | inr nd ↦ elim (split e me) [
          | inl oe ↦ absurd (fresh e oe (cc (h, ap (λ (x : Channel). x.id) nd)))
          | inr ne ↦ cc (nd, ne)
        ]
      ];
      entities = λ d e ref md me k rd re. elim (split d md) [
        | inl od ↦ elim (split e me) [
          | inl oe ↦ sound.entities d e ref od oe k rd re
          | inr ne ↦ absurd (
              free d ref od (cc (k, ap (λ (x : Channel). x.kind) ne)) rd
                (cc (re, ap (λ (x : Channel). x.entity_ref) ne)))
        ]
        | inr nd ↦ elim (split e me) [
          | inl oe ↦ absurd (
              free e ref oe (cc (k, ap (λ (x : Channel). x.kind) nd)) re
                (cc (rd, ap (λ (x : Channel). x.entity_ref) nd)))
          | inr ne ↦ cc (ap (λ (x : Channel). x.id) nd, ap (λ (x : Channel). x.id) ne)
        ]
      ];
      kinds = λ e m. elim (split e m) [
        | inl old ↦ sound.kinds e old
        | inr new ↦ subst IsOfKind new kind
      ];
      attached = λ b m.
          let a = sound.attached b m in
          IsAttached-in s _ b a
            (
              a.from,
              Any-append_left (λ y. y ≡ a.from) s.channels _ a.from_stored,
              IsSame-refl a.from,
            )
            (a.to, Any-append_left (λ y. y ≡ a.to) s.channels _ a.to_stored, IsSame-refl a.to);
      pairs = sound.pairs;
      acyclic = sound.acyclic;
    }

-- DELETE of bridges.
pub keep-IsSound :
    (s : Store) (p : Bridge → Bool) → IsSound s → IsSound (record s { bridges = keep p s.bridges })
unfolding HasKeys
keep-IsSound s p sound =
    let old = λ (b : Bridge) (m : Has b (keep p s.bridges)). (Has-keep_from p s.bridges m).0 in
    record {
      keys = sound.keys;
      entities = sound.entities;
      kinds = sound.kinds;
      attached = λ b m.
          let a = sound.attached b (old b m) in
          IsAttached-in s _ b a (a.from, a.from_stored, IsSame-refl a.from)
            (a.to, a.to_stored, IsSame-refl a.to);
      pairs = λ b c mb mc. sound.pairs b c (old b mb) (old c mc);
      acyclic = subset-IsAcyclic (keep p s.bridges) s.bridges old sound.acyclic;
    }

-- DELETE of a channel, with the bridges that touch it.
pub remove_channel-IsSound : (s : Store) (id : String) → IsSound s → IsSound (remove_channel s id)
unfolding remove_channel has_id touches HasKeys
remove_channel-IsSound s id sound =
    let kept = λ (c : Channel). not (has_id id c) in
    let free = λ (b : Bridge). not (touches id b) in
    let old =
      λ (c : Channel) (m : Has c (keep kept s.channels)). (Has-keep_from kept s.channels m).0 in
    let old_bridge =
      λ (b : Bridge) (m : Has b (keep free s.bridges)). (Has-keep_from free s.bridges m).0 in
    record {
      keys = λ c e mc me. sound.keys c e (old c mc) (old e me);
      entities = λ c e ref mc me. sound.entities c e ref (old c mc) (old e me);
      kinds = λ c m. sound.kinds c (old c m);
      attached = λ b m.
          let hit = Has-keep_from free s.bridges m in
          let a = sound.attached b hit.0 in
          IsAttached-in s _ b a
            (
              a.from,
              Has-keep kept s.channels a.from_stored (
                  ground (
                    arith,
                    hit.1,
                    a.from_id,
                    string_eq.beq_iff a.from.id id,
                    string_eq.beq_iff b.from_channel id,
                  )),
              IsSame-refl a.from,
            )
            (
              a.to,
              Has-keep kept s.channels a.to_stored (
                  ground (
                    arith,
                    hit.1,
                    a.to_id,
                    string_eq.beq_iff a.to.id id,
                    string_eq.beq_iff b.to_channel id,
                  )),
              IsSame-refl a.to,
            );
      pairs = λ b c mb mc. sound.pairs b c (old_bridge b mb) (old_bridge c mc);
      acyclic = subset-IsAcyclic (keep free s.bridges) s.bridges old_bridge sound.acyclic;
    }
