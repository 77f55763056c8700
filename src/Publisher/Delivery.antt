-- ===== src/Publisher/Delivery.antt =====
-- That services/hub/internal/queuesignal/queuesignal.go loses no agent between rounds.
use ainsel.Prelude.{
  ◌≡◌, ◌≢◌, refl, sym, ◌⊎◌, inl, inr, Bool, true, false, List, [], ◌∷◌, Option, none, some, String,
  if◌then◌else◌, string_eq, ==_false, Option-cases, arith, Has, ==_refl,
}
use ainsel.Prelude.Dict.{lookup, insert, delete, lookup-insert, lookup-delete}
use ainsel.Prelude.Time.{Instant}
use ainsel.Queue.{QueueDepth}
use ainsel.Publisher.Report.{Signal, PatchResult, written, not_found, refused, same_counts}
use ainsel.Publisher.{
  Publisher, World, mark, mark_each, publish_one, publish_measured, after_patch, act, verdict,
  Verdict, nothing_new, debounced, write, is_settled, signal_of, is_repeat, earliest_pub,
}

-- The agent is still owed a report.
unfoldable pub IsDirty : Publisher → String → Type 0
IsDirty p name = lookup name p.dirty ≡ some true

pub mark-IsDirty : (p : Publisher) (a b : String) → IsDirty p a → IsDirty (mark p b) a
unfolding IsDirty mark
mark-IsDirty p a b h = rw lookup-insert (ground arith)

pub marked : (p : Publisher) (a : String) → IsDirty (mark p a) a
unfolding IsDirty mark
marked p a = rw lookup-insert (ground (arith, string_eq.beq_iff a a))

pub mark_each-IsDirty :
    (ns : List String) (p : Publisher) (a : String) → IsDirty p a → IsDirty (mark_each ns p) a
unfolding mark_each
mark_each-IsDirty [] p a h = h
mark_each-IsDirty (n ∷ ns) p a h = mark_each-IsDirty ns (mark p n) a (mark-IsDirty p a n h)

pub mark_each-marks :
    (ns : List String) (p : Publisher) (a : String) → Has a ns → IsDirty (mark_each ns p) a
unfolding mark_each
mark_each-marks [] p a h = absurd h
mark_each-marks (n ∷ ns) p a (inl e) = mark_each-IsDirty ns (mark p n) a (rw e (marked p a))
mark_each-marks (n ∷ ns) p a (inr h) = mark_each-marks ns (mark p n) a h

-- The report rests on the API server: it took the write of it in this round, or it is the one that
-- was recorded before the round.
abbrev pub IsBacked : World → Option Signal → String → Option Signal → Type 0
IsBacked w before name told =
    (sig : Signal) → told ≡ some sig → (w.patch name sig ≡ written) ⊎ (before ≡ some sig)

-- What is known of an agent after its turn: the hub could measure its queue, and either the report
-- last made says these counts, or the API server has no such agent. The API server took the write
-- of that report in this round; only where the round was not forced, it may also be the report
-- recorded before the round.
pub record IsTold (w : World) (force : Bool) (before : Option Signal) (name : String)
    (told : Option Signal) : Type 0 where
  pub depth : QueueDepth
  pub measured : w.measure name ≡ some depth
  pub outcome :
      ((sig : Signal) × (told ≡ some sig)
        × (sig.pending ≡ depth.pending)
        × (sig.active ≡ depth.active)
        × (((w.patch name sig ≡ written) × (sig.observed_at ≡ w.now name))
            ⊎ ((force ≡ false) × ((w.patch name sig ≡ written) ⊎ (before ≡ some sig)))))
      ⊎ ((told ≡ none) × ((sig : Signal) × (w.patch name sig ≡ not_found)))

-- Nothing is lost: the agent is still owed a report, or was told.
unfoldable pub IsCovered : World → Bool → Option Signal → Publisher → String → Type 0
IsCovered w force before p name = IsDirty p name ⊎ IsTold w force before name (lookup name p.last)

pub inserted :
    {A : Type 0} (name : String) (x : A) (m : List (String × A))
    → lookup name (insert name x m) ≡ some x
inserted name x m = rw (lookup-insert, ==_refl name) refl

pub deleted :
    {A : Type 0} (name : String) (m : List (String × A)) → lookup name (delete name m) ≡ none
deleted name m = rw (lookup-delete, ==_refl name) refl

after_patch-IsTold :
    (w : World) (force : Bool) (before : Option Signal) (p : Publisher) (name : String)
    (depth : QueueDepth) (prev : Option Signal) (result : PatchResult)
    → w.measure name ≡ some depth
    → w.patch name (signal_of prev depth (w.now name)) ≡ result
    → is_settled (after_patch p name (signal_of prev depth (w.now name)) result).1 ≡ true
    → IsTold w force before name
        (lookup name (after_patch p name (signal_of prev depth (w.now name)) result).0.last)
unfolding after_patch signal_of is_settled
after_patch-IsTold w force before p name depth prev written m e s = record {
  depth = depth;
  measured = m;
  outcome = inl (
    signal_of prev depth (w.now name),
    rw lookup-insert (ground (arith, string_eq.beq_iff name name)),
    refl,
    refl,
    inl (e, refl),
  );
}
after_patch-IsTold w force before p name depth prev not_found m e s = record {
  depth = depth;
  measured = m;
  outcome = inr (
    rw lookup-delete (ground (arith, string_eq.beq_iff name name)),
    (signal_of prev depth (w.now name), e),
  );
}
after_patch-IsTold w force before p name depth prev refused m e s = absurd (ground arith)

verdict-nothing_new :
    (prev : Option Signal) (sig : Signal) (force : Bool) (now earliest : Instant)
    → verdict prev sig force now earliest ≡ nothing_new
    → (is_repeat prev sig ≡ true) × (force ≡ false)
unfolding verdict
verdict-nothing_new prev sig force now earliest h = ground arith

repeated :
    (prev : Option Signal) (sig : Signal)
    → is_repeat prev sig ≡ true
    → (old : Signal) × (prev ≡ some old) × (old.pending ≡ sig.pending) × (old.active ≡ sig.active)
unfolding is_repeat same_counts
repeated none sig h = absurd (ground arith)
repeated (some old) sig h = (old, refl, ground arith, ground arith)

nothing_new-IsTold :
    (w : World) (force : Bool) (before : Option Signal) (p : Publisher) (name : String)
    (depth : QueueDepth)
    → IsBacked w before name (lookup name p.last)
    → w.measure name ≡ some depth
    → verdict
        (lookup name p.last)
        (signal_of (lookup name p.last) depth (w.now name))
        force
        (w.now name)
        (earliest_pub (lookup name p.next_pub))
      ≡ nothing_new
    → IsTold w force before name (lookup name p.last)
unfolding signal_of
nothing_new-IsTold w force before p name depth backed m v =
    let sig = signal_of (lookup name p.last) depth (w.now name) in
    let (same, unforced) =
      verdict-nothing_new (lookup name p.last) sig force (w.now name)
        (earliest_pub (lookup name p.next_pub)) v in
    let (old, had, pending, active) = repeated (lookup name p.last) sig same in
    record {
      depth = depth;
      measured = m;
      outcome = inl (old, had, pending, active, inr (unforced, backed old had));
    }

pub Verdict-cases : (v : Verdict) → (v ≡ nothing_new) ⊎ ((v ≡ debounced) ⊎ (v ≡ write))
Verdict-cases nothing_new = inl refl
Verdict-cases debounced = inr (inl refl)
Verdict-cases write = inr (inr refl)

unsettled : false ≡ true → ⊥
unsettled h = cc h

pub publish_one-IsTold :
    (w : World) (force : Bool) (before : Option Signal) (p : Publisher) (name : String)
    → IsBacked w before name (lookup name p.last)
    → is_settled (publish_one w p name force).1 ≡ true
    → IsTold w force before name (lookup name (publish_one w p name force).0.last)
unfolding publish_one publish_measured act is_settled
publish_one-IsTold w force before p name backed s = elim (Option-cases (w.measure name)) [
  | inl e ↦ absurd (unsettled (rw (e, publish_measured) at s))
  | inr (depth, e) ↦
      let prev = lookup name p.last in
      let v =
        verdict prev (signal_of prev depth (w.now name)) force (w.now name)
          (earliest_pub (lookup name p.next_pub)) in
      elim (Verdict-cases v) [
        | inl f ↦
            rw (e, publish_measured, f, act)
              (nothing_new-IsTold w force before p name depth backed e f)
        | inr (inl f) ↦ absurd (unsettled (rw (e, publish_measured, f, act) at s))
        | inr (inr f) ↦
            rw (e, publish_measured, f, act)
              (after_patch-IsTold w force before _ name depth prev
                (w.patch name (signal_of prev depth (w.now name))) e refl
                (rw (e, publish_measured, f, act) at s))
      ]
]

after_patch-other :
    (p : Publisher) (name other : String) (sig : Signal) (result : PatchResult)
    → other ≢ name
    → lookup other (after_patch p name sig result).0.last ≡ lookup other p.last
unfolding after_patch
after_patch-other p name other sig written d =
    rw lookup-insert (rw (==_false name other (λ e. d (sym e)), if◌then◌else◌) refl)
after_patch-other p name other sig not_found d =
    rw lookup-delete (rw (==_false name other (λ e. d (sym e)), if◌then◌else◌) refl)
after_patch-other p name other sig refused d = refl

after_patch-dirty :
    (p : Publisher) (name : String) (sig : Signal) (result : PatchResult)
    → (after_patch p name sig result).0.dirty ≡ p.dirty
unfolding after_patch
after_patch-dirty p name sig written = refl
after_patch-dirty p name sig not_found = refl
after_patch-dirty p name sig refused = refl

-- A turn of another agent leaves what was told alone.
pub publish_one-other :
    (w : World) (force : Bool) (p : Publisher) (name other : String)
    → other ≢ name
    → lookup other (publish_one w p name force).0.last ≡ lookup other p.last
unfolding publish_one publish_measured act after_patch
publish_one-other w force p name other distinct = elim (Option-cases (w.measure name)) [
  | inl e ↦ rw (e, publish_measured) refl
  | inr (depth, e) ↦
      let prev = lookup name p.last in
      let sig = signal_of prev depth (w.now name) in
      elim (Verdict-cases
        (verdict prev sig force (w.now name) (earliest_pub (lookup name p.next_pub)))) [
          | inl f ↦ rw (e, publish_measured, f, act) refl
          | inr (inl f) ↦ rw (e, publish_measured, f, act) refl
          | inr (inr f) ↦
              rw (e, publish_measured, f, act)
                (after_patch-other _ name other sig (w.patch name sig) distinct)
        ]
]

pub publish_one-dirty :
    (w : World) (force : Bool) (p : Publisher) (name : String)
    → (publish_one w p name force).0.dirty ≡ p.dirty
unfolding publish_one publish_measured act after_patch
publish_one-dirty w force p name = elim (Option-cases (w.measure name)) [
  | inl e ↦ rw (e, publish_measured) refl
  | inr (depth, e) ↦
      let prev = lookup name p.last in
      let sig = signal_of prev depth (w.now name) in
      elim (Verdict-cases
        (verdict prev sig force (w.now name) (earliest_pub (lookup name p.next_pub)))) [
          | inl f ↦ rw (e, publish_measured, f, act) refl
          | inr (inl f) ↦ rw (e, publish_measured, f, act) refl
          | inr (inr f) ↦
              rw (e, publish_measured, f, act) (after_patch-dirty _ name sig (w.patch name sig))
        ]
]
