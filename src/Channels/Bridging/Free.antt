-- ===== src/Channels/Bridging/Free.antt =====
-- When the INSERT of `CreateBridge` of services/hub/internal/channels/store.go adds its row.
use ainsel.Prelude.{
  Bool, true, false, ◌&&◌, ◌≡◌, ◌≢◌, refl, inl, inr, List, [], ◌∷◌, ◌++◌, String, if◌then◌else◌,
  ◌==◌, string_eq, arith, any, any_finds, Has, Bool-cases, ==_false,
}
use ainsel.Channels.Rows.{Channel, Bridge}
use ainsel.Channels.Graph.{here, step}
use ainsel.Channels.Graph.Reachable.{reaches_iff}
use ainsel.Channels.{Store, has_id}
use ainsel.Channels.Bridges.{insert_bridge, clashes}
use ainsel.Channels.Invariant.{any_misses}
use ainsel.Channels.Bridging.{IsChecked}

pub any_none :
    {A : Type 0} (p : A → Bool) (xs : List A)
    → ((a : A) → Has a xs → p a ≡ false)
    → any p xs ≡ false
any_none p [] h = refl
any_none p (x ∷ xs) h = ground (arith, h x (inl refl), any_none p xs (λ a m. h a (inr m)))

pub has_id-any :
    (s : Store) (c : Channel) (id : String)
    → Has c s.channels
    → c.id ≡ id
    → any (has_id id) s.channels ≡ true
unfolding has_id
has_id-any s c id m e = any_finds (has_id id) s.channels c m ((string_eq.beq_iff c.id id).1 e)

-- What one more bridge needs of the tables: two different stored channels that it is the first to
-- join in its direction, and an id of its own.
pub record IsFree (s : Store) (b : Bridge) : Type 0 where
  pub other : b.from_channel ≢ b.to_channel
  pub from_stored : any (has_id b.from_channel) s.channels ≡ true
  pub to_stored : any (has_id b.to_channel) s.channels ≡ true
  pub unclashed : any (clashes b) s.bridges ≡ false

pub insert_bridge-adds :
    (s : Store) (b : Bridge)
    → IsFree s b
    → (insert_bridge s b).0 ≡ record s { bridges = s.bridges ++ b ∷ [] }
unfolding insert_bridge
insert_bridge-adds s b free =
    rw
      (
        ==_false b.from_channel b.to_channel free.other,
        free.unclashed,
        free.from_stored,
        free.to_stored,
        if◌then◌else◌,
      )
      refl

-- No bridge joins two channels of which the first does not reach the second.
pub unjoined :
    (s : Store) (b : Bridge)
    → IsChecked s b.to_channel b.from_channel
    → any (λ (o : Bridge). o.id == b.id) s.bridges ≡ false
    → any (clashes b) s.bridges ≡ false
unfolding clashes
unjoined s b k fresh = any_none (clashes b) s.bridges (λ o m.
    let new = any_misses (λ (x : Bridge). x.id == b.id) s.bridges o fresh m in
    elim (Bool-cases (o.from_channel == b.from_channel && o.to_channel == b.to_channel)) [
      | inl both ↦
          let f = (string_eq.beq_iff o.from_channel b.from_channel).0 (ground (arith, both)) in
          let t = (string_eq.beq_iff o.to_channel b.to_channel).0 (ground (arith, both)) in
          absurd (
            cc (
              k.apart,
              (reaches_iff s.bridges b.from_channel b.to_channel).1
                  (step here (o, m, f, t), k.other),
            ))
      | inr neither ↦ ground (arith, neither, new)
    ])
