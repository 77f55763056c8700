-- ===== src/Channels/Bridging/Race.antt =====
-- Two calls of `CreateBridge` of services/hub/internal/channels/store.go whose statements
-- interleave: each checks the graph before either inserts.
use ainsel.Prelude.{
  Bool, false, ◌≡◌, ◌≢◌, ◌∙◌, refl, subst, ap, inl, inr, List, [], ◌∷◌, ◌++◌, String, ◌==◌,
  string_eq, arith, any, Any-append_left, Any-append_right,
}
use ainsel.Prelude.Time.{Instant}
use ainsel.Channels.Rows.{Bridge}
use ainsel.Channels.Graph.{here, step}
use ainsel.Channels.Graph.Acyclic.{IsAcyclic}
use ainsel.Channels.{Store, ok}
use ainsel.Channels.Bridges.{check_bridge, insert_bridge, clashes, new_bridge, after_check}
use ainsel.Channels.Invariant.{any_misses}
use ainsel.Channels.Invariant.Preserved.{in_either}
use ainsel.Channels.Bridging.{IsChecked, Ensures, check_bridge-Ensures}
use ainsel.Channels.Bridging.Free.{IsFree, any_none, has_id-any, insert_bridge-adds, unjoined}

IsChecked-pair :
    (s : Store) (x y name given : String) → check_bridge s x y name ≡ ok given → IsChecked s x y
unfolding Ensures
IsChecked-pair s x y name given e =
    subst (Ensures (λ _. IsChecked s x y)) e (check_bridge-Ensures s x y name)

abbrev pub has_bridge : String → List Bridge → Bool
has_bridge id bridges = any (λ (o : Bridge). o.id == id) bridges

module _ (s : Store) (b c : Bridge) (there : IsChecked s b.from_channel b.to_channel)
    (back : IsChecked s b.to_channel b.from_channel) (turned : c.from_channel ≡ b.to_channel)
    (around : c.to_channel ≡ b.from_channel) (new_b : has_bridge b.id s.bridges ≡ false)
    (new_c : has_bridge c.id s.bridges ≡ false) (apart : b.id ≢ c.id) where
  abbrev after_first : Store
  after_first = record s { bridges = s.bridges ++ b ∷ [] }

  first-IsFree : IsFree s b
  first-IsFree = record {
    other = there.other;
    from_stored = has_id-any s there.from b.from_channel there.from_stored there.from_named;
    to_stored = has_id-any s there.to b.to_channel there.to_stored there.to_named;
    unclashed = unjoined s b back new_b;
  }

  second-IsFree : IsFree after_first c
  unfolding clashes
  second-IsFree = record {
    other = λ e. back.other (cc (turned, around, e));
    from_stored =
        has_id-any after_first back.from c.from_channel back.from_stored
          (cc (back.from_named, turned));
    to_stored =
        has_id-any after_first back.to c.to_channel back.to_stored (cc (back.to_named, around));
    unclashed = any_none (clashes c) (s.bridges ++ b ∷ []) (λ o m.
        elim (in_either s.bridges b o m) [
          | inl old ↦
              any_misses (clashes c) s.bridges o (unjoined s c (rw (turned, around) there) new_c)
                old
          | inr new ↦
              subst (λ z. clashes c z ≡ false) new
                (ground (
                  arith,
                  string_eq.beq_iff b.from_channel c.from_channel,
                  string_eq.beq_iff b.id c.id,
                  turned,
                  there.other,
                  apart,
                ))
        ]);
  }

  -- Each bridge leads back over the other.
  both_inserted : IsAcyclic (insert_bridge (insert_bridge s b).0 c).0.bridges → ⊥
  unfolding IsAcyclic
  both_inserted acyclic =
      let all = s.bridges ++ b ∷ [] in
      let done =
        ap (λ (t : Store). (insert_bridge t c).0) (insert_bridge-adds s b first-IsFree)
        ∙ insert_bridge-adds after_first c second-IsFree in
      let final : IsAcyclic (all ++ c ∷ []) =
        subst (λ (t : Store). IsAcyclic t.bridges) done acyclic in
      final b.from_channel b.to_channel
        (
          b,
          Any-append_left (λ y. y ≡ b) all (c ∷ [])
              (Any-append_right (λ y. y ≡ b) s.bridges (b ∷ []) (inl refl)),
          refl,
          refl,
        )
        (step here (c, Any-append_right (λ y. y ≡ c) all (c ∷ []) (inl refl), turned, around))

-- Two calls that join the same two channels in opposite directions, and that both check the tables
-- before either inserts, close a cycle whenever each check passes and the ids are new.
pub interleaved_bridges-cycle :
    (s : Store) (now : Instant) (id other_id x y name other_name given other_given : String)
    → check_bridge s x y name ≡ ok given
    → check_bridge s y x other_name ≡ ok other_given
    → has_bridge id s.bridges ≡ false
    → has_bridge other_id s.bridges ≡ false
    → id ≢ other_id
    → IsAcyclic
        (after_check
          (after_check s now id x y (check_bridge s x y name)).0
          now
          other_id
          y
          x
          (check_bridge s y x other_name)).0.bridges
    → ⊥
unfolding after_check new_bridge
interleaved_bridges-cycle s now id other_id x y name other_name given other_given e f new_b new_c
      apart =
    rw (e, f)
      (both_inserted s (new_bridge now id x y given) (new_bridge now other_id y x other_given)
        (IsChecked-pair s x y name given e) (IsChecked-pair s y x other_name other_given f) refl
        refl new_b new_c apart)
