-- ===== src/Channels/Walk/Inboxes.antt =====
-- The loop of `Deliveries` of services/hub/internal/channels/store.go over the rows of `Walk`.
pub mod Exact
use mathlib.Core.List.{Pairwise}
use mathlib.Core.List.Pairwise
use mathlib.Core.Bool.{Bool-set}
use ainsel.Prelude.{
  ℕ, ◌≤◌, Bool, true, false, not, ◌&&◌, ◌≡◌, ◌≢◌, refl, sym, subst, inl, inr, List, [], ◌∷◌, String,
  ◌==◌, string_eq, arith, Any, All, All-imp, Has, Has-mem, All-Mem, Bool-cases, ltb, ==_refl,
}
use ainsel.Prelude.Order.{IsSorted, IsKeyed}
use ainsel.Channels.Rows.{Delivery}
use ainsel.Channels.Graph.{on_path}
use ainsel.Channels.Walk.{WalkRow, row_less, is_inbox_row, delivery_of, first_hits}

abbrev is_taken : List String → WalkRow → Bool
is_taken seen w = is_inbox_row w && not (on_path seen w.channel_id)

hits_taken :
    (seen : List String) (u : WalkRow) (us : List WalkRow)
    → is_taken seen u ≡ true
    → first_hits seen (u ∷ us) ≡ delivery_of u ∷ first_hits (u.channel_id ∷ seen) us
hits_taken seen u us t = rw (t, first_hits) refl

hits_skipped :
    (seen : List String) (u : WalkRow) (us : List WalkRow)
    → is_taken seen u ≡ false
    → first_hits seen (u ∷ us) ≡ first_hits seen us
hits_skipped seen u us t = rw (t, first_hits) refl

module _ (text_less : String → String → Bool) where
  -- The row behind a delivery: no row of the same inbox is shallower.
  pub record IsFirstHit (seen : List String) (ws : List WalkRow) (d : Delivery) : Type 0 where
    pub row : WalkRow
    pub found : Has row ws
    pub inbox : is_inbox_row row ≡ true
    pub unseen : on_path seen row.channel_id ≡ false
    pub delivery : delivery_of row ≡ d
    pub shallowest :
        (v : WalkRow)
        → Has v ws
        → is_inbox_row v ≡ true
        → v.channel_id ≡ row.channel_id
        → row.depth ≤ v.depth

  forget :
      (x : String) (seen : List String) (us : List WalkRow) (d : Delivery)
      → IsFirstHit (x ∷ seen) us d
      → IsFirstHit seen us d
  forget x seen us d h = record {
    row = h.row;
    found = h.found;
    inbox = h.inbox;
    unseen = ground (arith, h.unseen);
    delivery = h.delivery;
    shallowest = h.shallowest;
  }

  later-IsFirstHit :
      (seen : List String) (u : WalkRow) (us : List WalkRow) (d : Delivery)
      (h : IsFirstHit seen us d)
      → (is_inbox_row u ≡ true → u.channel_id ≡ h.row.channel_id → h.row.depth ≤ u.depth)
      → IsFirstHit seen (u ∷ us) d
  later-IsFirstHit seen u us d h first = record {
    row = h.row;
    found = inr h.found;
    inbox = h.inbox;
    unseen = h.unseen;
    delivery = h.delivery;
    shallowest = each;
  }
    where
      each :
          (v : WalkRow)
          → Has v (u ∷ us)
          → is_inbox_row v ≡ true
          → v.channel_id ≡ h.row.channel_id
          → h.row.depth ≤ v.depth
      each v (inl e) i same =
          subst (λ (x : WalkRow). h.row.depth ≤ x.depth) e
            (first (subst (λ x. is_inbox_row x ≡ true) (sym e) i)
              (subst (λ (x : WalkRow). x.channel_id ≡ h.row.channel_id) (sym e) same))
      each v (inr m) i same = h.shallowest v m i same

  taken-IsFirstHit :
      (seen : List String) (u : WalkRow) (us : List WalkRow)
      → IsSorted (row_less text_less) (u ∷ us)
      → is_taken seen u ≡ true
      → IsFirstHit seen (u ∷ us) (delivery_of u)
  taken-IsFirstHit seen u us (Pairwise.cons least rest) t = record {
    row = u;
    found = inl refl;
    inbox = ground arith;
    unseen = ground arith;
    delivery = refl;
    shallowest = each;
  }
    where
      each :
          (v : WalkRow)
          → Has v (u ∷ us)
          → is_inbox_row v ≡ true
          → v.channel_id ≡ u.channel_id
          → u.depth ≤ v.depth
      each v (inl e) i same = subst (λ (x : WalkRow). u.depth ≤ x.depth) e (omega arith)
      each v (inr m) i same = ground (arith, least v (Has-mem us m))

  pub first_hits-IsFirstHit :
      (seen : List String) (ws : List WalkRow) (d : Delivery)
      → IsSorted (row_less text_less) ws
      → Has d (first_hits seen ws)
      → IsFirstHit seen ws d
  first_hits-IsFirstHit seen [] d sorted m = absurd m
  first_hits-IsFirstHit seen (u ∷ us) d sorted m = elim (Bool-cases (is_taken seen u)) [
    | inl t ↦
        taken (subst (Has d) (hits_taken seen u us t) m) t
          (first_hits-IsFirstHit (u.channel_id ∷ seen) us d (Pairwise.of_cons sorted))
    | inr t ↦
        let h =
          first_hits-IsFirstHit seen us d (Pairwise.of_cons sorted)
            (subst (Has d) (hits_skipped seen u us t) m) in
        later-IsFirstHit seen u us d h (λ i same.
          let clash = subst (λ y. on_path seen y ≡ false) (sym same) h.unseen in
          absurd (ground (arith, t, i, clash)))
  ]
    where
      taken :
          Has d (delivery_of u ∷ first_hits (u.channel_id ∷ seen) us)
          → is_taken seen u ≡ true
          → (Has d (first_hits (u.channel_id ∷ seen) us) → IsFirstHit (u.channel_id ∷ seen) us d)
          → IsFirstHit seen (u ∷ us) d
      taken (inl e) t ih = subst (IsFirstHit seen (u ∷ us)) e (taken-IsFirstHit seen u us sorted t)
      taken (inr m) t ih =
          let h = ih m in
          later-IsFirstHit seen u us d (forget u.channel_id seen us d h) (λ i same.
            absurd (ground (arith, h.unseen, string_eq.beq_iff u.channel_id h.row.channel_id)))

-- Every inbox among the rows is delivered to, unless it was before.
pub first_hits-IsComplete :
    (seen : List String) (ws : List WalkRow) (w : WalkRow)
    → Has w ws
    → is_inbox_row w ≡ true
    → on_path seen w.channel_id ≡ false
    → Any (λ (d : Delivery). d.agent_channel ≡ w.channel_id) (first_hits seen ws)
first_hits-IsComplete seen [] w m i fresh = absurd m
first_hits-IsComplete seen (u ∷ us) w (inl e) i fresh =
    rw (hits_taken seen u us (subst (λ x. is_taken seen x ≡ true) (sym e) (ground arith)))
      (inl (subst (λ (x : WalkRow). u.channel_id ≡ x.channel_id) e refl))
first_hits-IsComplete seen (u ∷ us) w (inr m) i fresh = elim (Bool-cases (is_taken seen u)) [
  | inl t ↦ elim (Bool-cases (u.channel_id == w.channel_id)) [
    | inl same ↦ rw (hits_taken seen u us t) (inl ((string_eq.beq_iff _ _).0 same))
    | inr other ↦
        rw (hits_taken seen u us t) (
          inr (first_hits-IsComplete (u.channel_id ∷ seen) us w m i (ground (arith, other, fresh))))
  ]
  | inr t ↦ rw (hits_skipped seen u us t) (first_hits-IsComplete seen us w m i fresh)
]

-- No inbox is delivered to twice, and none of those that were taken before.
first_hits-IsNew :
    (seen : List String) (ws : List WalkRow)
    → All (λ (d : Delivery). on_path seen d.agent_channel ≡ false) (first_hits seen ws)
first_hits-IsNew seen [] = tt
first_hits-IsNew seen (u ∷ us) = elim (Bool-cases (is_taken seen u)) [
  | inl t ↦ rw (hits_taken seen u us t) (
    ground arith,
    All-imp (first_hits (u.channel_id ∷ seen) us) (λ d h. ground (arith, h))
        (first_hits-IsNew (u.channel_id ∷ seen) us),
  )
  | inr t ↦ rw (hits_skipped seen u us t) (first_hits-IsNew seen us)
]

pub first_hits-IsKeyed :
    (seen : List String) (ws : List WalkRow)
    → IsKeyed (λ (d : Delivery). d.agent_channel) (first_hits seen ws)
first_hits-IsKeyed seen [] = Pairwise.nil
first_hits-IsKeyed seen (u ∷ us) = elim (Bool-cases (is_taken seen u)) [
  | inl t ↦ rw (hits_taken seen u us t) (
      Pairwise.cons
        (λ d m same.
          let fresh =
            All-Mem (λ (d : Delivery). on_path (u.channel_id ∷ seen) d.agent_channel ≡ false)
              (Bool-set _ _) (first_hits-IsNew (u.channel_id ∷ seen) us) m in
          ground (arith, fresh, string_eq.beq_iff u.channel_id d.agent_channel))
        (first_hits-IsKeyed (u.channel_id ∷ seen) us))
  | inr t ↦ rw (hits_skipped seen u us t) (first_hits-IsKeyed seen us)
]
