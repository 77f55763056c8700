-- ===== src/Channels/Walk/Inboxes/Exact.antt =====
-- What `Deliveries` of services/hub/internal/channels/service.go promises of the channel graph.
use mathlib.Core.List.{Pairwise}
use ainsel.Prelude.{
  ℕ, ◌<◌, ◌≤◌, Bool, true, false, not, ◌≡◌, ◌≢◌, refl, sym, subst, ap, inl, inr, List, [], ◌∷◌,
  String, ◌==◌, string_eq, arith, Any-found, Has, Has-keep_from, Has-keep, keep, Mem-keep, ==_false,
  Bool-cases, leb, positive, if◌then◌else◌, any,
}
use ainsel.Prelude.Order.{IsKeyed}
use ainsel.Channels.Rows.{Channel, ref_of, kind_agent, Bridge, Delivery}
use ainsel.Channels.{Store}
use ainsel.Channels.Walk.{
  Collation, WalkRow, max_walk_depth, walk, is_inbox_row, is_new, store_deliveries, deliveries,
  first_hits,
}
use ainsel.Channels.Walk.Depth.{LeadsIn, here, step, Row, IsWalked, IsEntered, Row-IsWalked}
use ainsel.Channels.Walk.Found.{HasEnds, LeadsIn-IsStored, LeadsIn-Shallow, walk-Row, Row-walk}
use ainsel.Channels.Walk.Inboxes.{
  IsFirstHit, first_hits-IsFirstHit, first_hits-IsComplete, first_hits-IsKeyed,
}

-- The primary key of `channels`.
unfoldable pub HasKeys : Store → Type 0
HasKeys s = (c e : Channel) → Has c s.channels → Has e s.channels → c.id ≡ e.id → c ≡ e

-- A delivery into an agent's inbox, by the bridge that ends a shortest path into it.
pub record IsTransfer (s : Store) (from : String) (d : Delivery) : Type 0 where
  pub channel : Channel
  pub channel_stored : Has channel s.channels
  pub channel_id : channel.id ≡ d.agent_channel
  pub kind : channel.kind ≡ kind_agent
  pub agent_name : ref_of channel ≡ d.agent_name
  pub named : d.agent_name ≢ ""
  pub bridge : Bridge
  pub bridge_stored : Has bridge s.bridges
  pub bridge_end : bridge.to_channel ≡ d.agent_channel
  pub bridge_id : bridge.id ≡ d.bridge_id
  pub bridge_name : bridge.name ≡ d.bridge_name
  pub before : ℕ
  pub source : LeadsIn s.bridges from before bridge.from_channel
  pub bounded : before < max_walk_depth
  pub shortest : (n : ℕ) → LeadsIn s.bridges from n d.agent_channel → before < n
  pub other : d.agent_channel ≢ from

LeadsIn-zero :
    {bridges : List Bridge} {x : String} {n : ℕ} {y : String}
    → LeadsIn bridges x n y
    → n ≡ 0
    → x ≡ y
LeadsIn-zero here e = refl
LeadsIn-zero (step l edge) e = absurd (omega (arith, e))

module _ (db : Collation) (s : Store) (from : String) where
  inbox_row : (w : WalkRow) → is_inbox_row w ≡ true → (w.kind ≡ kind_agent) × (w.entity_ref ≢ "")
  inbox_row w i = (
    (string_eq.beq_iff w.kind kind_agent).0 (ground arith),
    λ e. ground (arith, string_eq.beq_iff w.entity_ref "", i),
  )

  row_inbox : (w : WalkRow) → w.kind ≡ kind_agent → w.entity_ref ≢ "" → is_inbox_row w ≡ true
  row_inbox w k r =
      ground (arith, string_eq.beq_iff w.kind kind_agent, string_eq.beq_iff w.entity_ref "")

  -- Two rows of one channel are both an inbox or neither is.
  same_inbox :
      (v w : WalkRow)
      → HasKeys s
      → IsWalked s from v
      → IsWalked s from w
      → v.channel_id ≡ w.channel_id
      → is_inbox_row w ≡ true
      → is_inbox_row v ≡ true
  unfolding HasKeys
  same_inbox v w keys kv kw same i =
      let one =
        keys kv.channel kw.channel kv.stored kw.stored (cc (kv.channel_id, kw.channel_id, same)) in
      let kinds = ap (λ (c : Channel). c.kind) one in
      let refs = ap ref_of one in
      let inbox = inbox_row w i in
      row_inbox v (cc (kinds, kv.kind, kw.kind, inbox.0))
        (λ e. inbox.1 (cc (refs, kv.entity_ref, kw.entity_ref, e)))

  IsEntered-Row : {w : WalkRow} → Row s from w → 0 < w.depth → IsEntered s from w
  IsEntered-Row {w} row deep = elim ((Row-IsWalked s from row).entered) [
    | inl zero_depth ↦ absurd (omega (arith, zero_depth, deep))
    | inr entered ↦ entered
  ]

  first_hit-shortest :
      (d : Delivery) (hit : IsFirstHit db.text_less [] (walk db s from) d)
      → Row s from hit.row
      → (e : IsEntered s from hit.row) → HasEnds s
      → HasKeys s
      → (n : ℕ) → LeadsIn s.bridges from n hit.row.channel_id
      → e.before < n
  first_hit-shortest d hit row e ends keys n l = elim (Bool-cases (leb n max_walk_depth)) [
    | inl short ↦
        let (v, found, at, deep) =
          LeadsIn-Shallow s from ends (LeadsIn-IsStored s ends l e.left_start) (ground arith) l in
        let kv = Row-IsWalked s from found in
        let below = λ (z : v.depth ≡ 0). e.left_start (cc (LeadsIn-zero kv.leads z, at)) in
        let inbox = same_inbox v hit.row keys kv (Row-IsWalked s from row) at hit.inbox in
        let least = hit.shallowest v (Row-walk db s from found (positive _ below)) inbox at in
        omega (arith, least, deep, e.one_more)
    | inr long ↦
        let within = (Row-IsWalked s from row).bounded in ground (arith, e.one_more, within)
  ]

  store_deliveries-IsTransfer :
      (d : Delivery)
      → HasEnds s
      → HasKeys s
      → Has d (store_deliveries db s from)
      → IsTransfer s from d
  unfolding store_deliveries walk
  store_deliveries-IsTransfer d ends keys m =
      let hit =
        first_hits-IsFirstHit db.text_less [] (walk db s from) d (db.sort_rows.sort-IsSorted _) m in
      let from_row = walk-Row db s from hit.found in
      let k = Row-IsWalked s from from_row.0 in
      let e = IsEntered-Row from_row.0 from_row.1 in
      let inbox = inbox_row hit.row hit.inbox in
      subst (IsTransfer s from) hit.delivery (record {
        channel = k.channel;
        channel_stored = k.stored;
        channel_id = k.channel_id;
        kind = cc (k.kind, inbox.0);
        agent_name = k.entity_ref;
        named = inbox.1;
        bridge = e.bridge;
        bridge_stored = e.stored;
        bridge_end = e.bridge_end;
        bridge_id = e.bridge_id;
        bridge_name = e.bridge_name;
        before = e.before;
        source = e.source;
        bounded = omega (arith, k.bounded, e.one_more);
        shortest = first_hit-shortest d hit from_row.0 e ends keys;
        other = e.left_start;
      })

  store_deliveries-IsComplete :
      (c : Channel) (n : ℕ)
      → HasEnds s
      → HasKeys s
      → Has c s.channels
      → c.kind ≡ kind_agent
      → ref_of c ≢ ""
      → c.id ≢ from
      → n ≤ max_walk_depth
      → LeadsIn s.bridges from n c.id
      → (d : Delivery) × Has d (store_deliveries db s from) × (d.agent_channel ≡ c.id)
  unfolding store_deliveries HasKeys
  store_deliveries-IsComplete c n ends keys m agent named other short l =
      let (v, row, at, deep) =
        LeadsIn-Shallow s from ends (LeadsIn-IsStored s ends l other) short l in
      let k = Row-IsWalked s from row in
      let one = keys k.channel c k.stored m (cc (k.channel_id, at)) in
      let inbox =
        row_inbox v (cc (k.kind, ap (λ (x : Channel). x.kind) one, agent))
          (λ e. named (cc (k.entity_ref, ap ref_of one, e))) in
      let below = λ (z : v.depth ≡ 0). other (cc (LeadsIn-zero k.leads z, at)) in
      let found = Any-found (first_hits [] (walk db s from)) (
        first_hits-IsComplete [] (walk db s from) v (Row-walk db s from row (positive _ below))
          inbox refl) in
      (found.0, found.1, cc (found.2, at))

-- Each inbox once.
store_deliveries-IsKeyed :
    (db : Collation) (s : Store) (from : String)
    → IsKeyed (λ (d : Delivery). d.agent_channel) (store_deliveries db s from)
unfolding store_deliveries
store_deliveries-IsKeyed db s from = first_hits-IsKeyed [] (walk db s from)

keep-IsKeyed :
    (p : Delivery → Bool) (ds : List Delivery)
    → IsKeyed (λ (d : Delivery). d.agent_channel) ds
    → IsKeyed (λ (d : Delivery). d.agent_channel) (keep p ds)
keep-IsKeyed p [] keyed = Pairwise.nil
keep-IsKeyed p (d ∷ ds) (Pairwise.cons apart keyed) = elim (Bool-cases (p d)) [
  | inl t ↦
      rw (t, if◌then◌else◌)
        (Pairwise.cons (λ e m. apart e (Mem-keep p ds m)) (keep-IsKeyed p ds keyed))
  | inr f ↦ rw (f, if◌then◌else◌) (keep-IsKeyed p ds keyed)
]

-- Where the foreign keys and the primary key hold, every transfer of an event is into the inbox of
-- an agent, other than the event's own channel, that some agent's name belongs to and that has not
-- received the event; it is attributed to a stored bridge that ends a shortest path of at most eight
-- bridges into that inbox; and no inbox is transferred into twice. This holds of a graph with cycles
-- too.
pub deliveries-IsTransfer :
    (db : Collation) (s : Store) (birth : String) (delivered : List String)
    → HasEnds s
    → HasKeys s
    → ((d : Delivery)
        → Has d (deliveries db s birth delivered)
        → IsTransfer s birth d × (is_new delivered d ≡ true))
      × IsKeyed (λ (d : Delivery). d.agent_channel) (deliveries db s birth delivered)
unfolding deliveries
deliveries-IsTransfer db s birth delivered ends keys = elim (Bool-cases (birth == "")) [
  | inl e ↦ rw (e, if◌then◌else◌) (λ d m. absurd m, Pairwise.nil)
  | inr e ↦
      rw (e, if◌then◌else◌)
        (
          λ d m.
              let kept = Has-keep_from (is_new delivered) (store_deliveries db s birth) m in
              (store_deliveries-IsTransfer db s birth d ends keys kept.0, kept.1),
          keep-IsKeyed (is_new delivered) (store_deliveries db s birth)
              (store_deliveries-IsKeyed db s birth),
        )
]

-- No inbox is missed: where the foreign keys and the primary key hold, an agent's inbox that a path
-- of at most eight bridges reaches from the event's channel gets a transfer, unless it is that
-- channel or the agent has received the event.
pub deliveries-IsComplete :
    (db : Collation) (s : Store) (birth : String) (delivered : List String) (c : Channel) (n : ℕ)
    → HasEnds s
    → HasKeys s
    → birth ≢ ""
    → Has c s.channels
    → c.kind ≡ kind_agent
    → ref_of c ≢ ""
    → any (λ name. name == ref_of c) delivered ≡ false
    → c.id ≢ birth
    → n ≤ max_walk_depth
    → LeadsIn s.bridges birth n c.id
    → (d : Delivery) × Has d (deliveries db s birth delivered)
      × (d.agent_channel ≡ c.id)
      × (d.agent_name ≡ ref_of c)
unfolding deliveries HasKeys
deliveries-IsComplete db s birth delivered c n ends keys known m agent named fresh other short l =
    let (d, found, at) =
      store_deliveries-IsComplete db s birth c n ends keys m agent named other short l in
    let t = store_deliveries-IsTransfer db s birth d ends keys found in
    let one = keys t.channel c t.channel_stored m (cc (t.channel_id, at)) in
    let name : ref_of c ≡ d.agent_name = cc (ap ref_of one, t.agent_name) in
    rw (==_false birth "" known, if◌then◌else◌)
      (
        d,
        Has-keep (is_new delivered) (store_deliveries db s birth) found
            (subst (λ a. not (any (λ n. n == a) delivered) ≡ true) name (ground (arith, fresh))),
        at,
        sym name,
      )
