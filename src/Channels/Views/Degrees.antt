-- ===== src/Channels/Views/Degrees.antt =====
-- `degrees` of services/hub/internal/channels/service.go against the edges that `Get` lists.
use ainsel.Prelude.{
  ℕ, suc, ◌+◌, false, ◌≡◌, ◌≢◌, refl, inl, inr, List, [], ◌∷◌, String, if◌then◌else◌, ◌==◌,
  string_eq, arith, length, All, Bool-cases, ==_false,
}
use ainsel.Prelude.Dict.{lookup, lookup-insert}
use ainsel.Channels.Views.{
  Subscription, or_zero, count_at, bump, EdgeCounts, count_end, count_ends, degrees, incoming,
  outgoing,
}

count_at-bump :
    (id x : String) (m : List (String × ℕ))
    → count_at id (bump x m) ≡ (if x == id then suc (count_at id m) else count_at id m)
unfolding count_at bump or_zero
count_at-bump id x m =
    rw (lookup-insert x id (suc (or_zero (lookup x m))) m) (elim (Bool-cases (x == id)) [
      | inl same ↦ rw (same, if◌then◌else◌, (string_eq.beq_iff x id).0 same) refl
      | inr other ↦ rw (other, if◌then◌else◌) refl
    ])

-- One end of an edge adds one to its own channel.
count_at-end :
    (id x source : String) (d : EdgeCounts)
    → id ≢ ""
    → count_at id (count_end source d x).all_edges
      ≡ (if x == id then suc (count_at id d.all_edges) else count_at id d.all_edges)
unfolding count_end
count_at-end id x source d known = elim (Bool-cases (x == "")) [
  | inl blank ↦
      let other : (x == id) ≡ false =
        ==_false x id (λ e. known (cc (e, (string_eq.beq_iff x "").0 blank))) in
      rw (blank, other, if◌then◌else◌) refl
  | inr named ↦ rw (named, if◌then◌else◌) (count_at-bump id x d.all_edges)
]

count_ends-edges :
    (id : String) (subs : List Subscription) (d : EdgeCounts)
    → id ≢ ""
    → All (λ (sub : Subscription). sub.from_channel ≢ sub.to_channel) subs
    → count_at id (count_ends subs d).all_edges
      ≡ count_at id d.all_edges + length (incoming id subs) + length (outgoing id subs)
unfolding count_ends incoming outgoing
count_ends-edges id [] d known apart = omega arith
count_ends-edges id (sub ∷ subs) d known (other, apart) =
    let first = count_end sub.source d sub.from_channel in
    let rest = count_ends-edges id subs (count_end sub.source first sub.to_channel) known apart in
    let second = count_at-end id sub.to_channel sub.source first known in
    let before = count_at-end id sub.from_channel sub.source d known in
    ground (
      arith,
      rest,
      second,
      before,
      other,
      string_eq.beq_iff sub.to_channel id,
      string_eq.beq_iff sub.from_channel id,
    )

-- A channel's degree is the number of the edges that `Get` lists of it, in both directions together,
-- provided that no edge joins a channel with itself.
pub degrees-edges :
    (id : String) (subs : List Subscription)
    → id ≢ ""
    → All (λ (sub : Subscription). sub.from_channel ≢ sub.to_channel) subs
    → count_at id (degrees subs).all_edges ≡ length (incoming id subs) + length (outgoing id subs)
unfolding degrees count_at or_zero lookup
degrees-edges id subs known apart =
    omega
      (arith, count_ends-edges id subs (record { all_edges = []; bridge_edges = [] }) known apart)
