-- ===== src/Channels/Graph/Acyclic.antt =====
-- The cycle test of `CreateBridge` of services/hub/internal/channels/store.go: what one more bridge
-- does to a graph without cycles.
use ainsel.Prelude.{
  ◌≡◌, ◌≢◌, sym, subst, inl, inr, ◌⊎◌, List, [], ◌∷◌, ◌++◌, String, Has, Any-append, false,
}
use ainsel.Channels.Rows.{Bridge}
use ainsel.Channels.Graph.{Direction, forwards, Edge, Leads, here, step, reaches}
use ainsel.Channels.Graph.Reachable.{reaches_iff}

-- No bridge leads back to its own start, directly or over others.
unfoldable pub IsAcyclic : List Bridge → Type 0
IsAcyclic bridges = (x y : String) → Edge forwards bridges x y → Leads forwards bridges y x → ⊥

pub joined :
    {d : Direction} {bridges : List Bridge} {x y z : String}
    → Leads d bridges x y
    → Leads d bridges y z
    → Leads d bridges x z
joined l here = l
joined l (step m e) = step (joined l m) e

pub Leads-subset :
    {d : Direction} {some_bridges bridges : List Bridge} {x y : String}
    → ((b : Bridge) → Has b some_bridges → Has b bridges)
    → Leads d some_bridges x y
    → Leads d bridges x y
Leads-subset inside here = here
Leads-subset inside (step l (b, m, s, t)) = step (Leads-subset inside l) (b, inside b m, s, t)

pub subset-IsAcyclic :
    (some_bridges bridges : List Bridge)
    → ((b : Bridge) → Has b some_bridges → Has b bridges)
    → IsAcyclic bridges
    → IsAcyclic some_bridges
unfolding IsAcyclic
subset-IsAcyclic some_bridges bridges inside acyclic x y (b, m, s, t) l =
    acyclic x y (b, inside b m, s, t) (Leads-subset inside l)

module _ (bridges : List Bridge) (b : Bridge) where
  old_or_new :
      {x y : String}
      → Edge forwards (bridges ++ b ∷ []) x y
      → Edge forwards bridges x y ⊎ ((b.from_channel ≡ x) × (b.to_channel ≡ y))
  old_or_new (c, m, s, t) = elim (Any-append (λ y. y ≡ c) bridges (b ∷ []) m) [
    | inl old ↦ inl (c, old, s, t)
    | inr (inl e) ↦ inr (cc (e, s), cc (e, t))
    | inr (inr none_left) ↦ absurd none_left
  ]

  -- A path does without the new bridge, or reaches its start and goes on from its end.
  over_new :
      {x y : String}
      → Leads forwards (bridges ++ b ∷ []) x y
      → Leads forwards bridges x y
        ⊎ (Leads forwards bridges x b.from_channel × Leads forwards bridges b.to_channel y)
  over_new here = inl here
  over_new (step l e) = elim (over_new l) [
    | inl without ↦ elim (old_or_new e) [
      | inl old ↦ inl (step without old)
      | inr (s, t) ↦ inr (
        subst (Leads forwards bridges _) (sym s) without,
        subst (Leads forwards bridges b.to_channel) t here,
      )
    ]
    | inr (before, after) ↦ elim (old_or_new e) [
      | inl old ↦ inr (before, step after old)
      | inr (s, t) ↦ inr (before, subst (Leads forwards bridges b.to_channel) t here)
    ]
  ]

  append-IsAcyclic :
      IsAcyclic bridges
      → (Leads forwards bridges b.to_channel b.from_channel → ⊥)
      → IsAcyclic (bridges ++ b ∷ [])
  unfolding IsAcyclic
  append-IsAcyclic acyclic apart x y e l = elim (old_or_new e) [
    | inl old ↦ elim (over_new l) [
      | inl without ↦ acyclic x y old without
      | inr (before, after) ↦ apart (joined after (joined (step here old) before))
    ]
    | inr (s, t) ↦ elim (over_new l) [
      | inl without ↦ apart (
          subst (λ v. Leads forwards bridges v b.from_channel) (sym t)
            (subst (Leads forwards bridges y) (sym s) without))
      | inr (before, after) ↦
          apart (subst (λ v. Leads forwards bridges v b.from_channel) (sym t) before)
    ]
  ]

  -- A bridge between two channels that passes the cycle test closes no cycle.
  pub tested-IsAcyclic :
      IsAcyclic bridges
      → b.from_channel ≢ b.to_channel
      → reaches bridges b.to_channel b.from_channel ≡ false
      → IsAcyclic (bridges ++ b ∷ [])
  tested-IsAcyclic acyclic other test =
      append-IsAcyclic acyclic
        (λ l. cc (test, (reaches_iff bridges b.to_channel b.from_channel).1 (l, other)))
