-- ===== src/Publisher/Backed.antt =====
-- That services/hub/internal/queuesignal/queuesignal.go records only reports which the API server took.
use mathlib.Core.Option.{none-ne-some, some-injective}
use ainsel.Prelude.{
  ◌≡◌, refl, sym, ◌∙◌, subst, inl, inr, Bool, Option, some, String, ◌==◌, string_eq, Option-cases,
  Bool-cases,
}
use ainsel.Prelude.Dict.{lookup}
use ainsel.Publisher.Report.{Signal, PatchResult, written, not_found, refused}
use ainsel.Publisher.{
  Publisher, World, publish_one, publish_measured, after_patch, act, verdict, signal_of,
  earliest_pub,
}
use ainsel.Publisher.Delivery.{IsBacked, inserted, deleted, Verdict-cases, publish_one-other}

after_patch-IsBacked :
    (w : World) (before : Option Signal) (p : Publisher) (name : String) (sig : Signal)
    (result : PatchResult)
    → w.patch name sig ≡ result
    → IsBacked w before name (lookup name p.last)
    → IsBacked w before name (lookup name (after_patch p name sig result).0.last)
unfolding after_patch
after_patch-IsBacked w before p name sig written e backed s told =
    let same : some sig ≡ some s = sym (inserted name sig p.last) ∙ told in
    inl (subst (λ x. w.patch name x ≡ written) (some-injective _ _ same) e)
after_patch-IsBacked w before p name sig not_found e backed s told =
    absurd (none-ne-some _ (sym (deleted name p.last) ∙ told))
after_patch-IsBacked w before p name sig refused e backed s told = backed s told

-- A turn of the agent records nothing that the API server did not take.
publish_one-IsBacked_self :
    (w : World) (force : Bool) (before : Option Signal) (p : Publisher) (name : String)
    → IsBacked w before name (lookup name p.last)
    → IsBacked w before name (lookup name (publish_one w p name force).0.last)
unfolding publish_one publish_measured act
publish_one-IsBacked_self w force before p name backed = elim (Option-cases (w.measure name)) [
  | inl e ↦ rw (e, publish_measured) backed
  | inr (depth, e) ↦
      let prev = lookup name p.last in
      let sig = signal_of prev depth (w.now name) in
      elim (Verdict-cases
        (verdict prev sig force (w.now name) (earliest_pub (lookup name p.next_pub)))) [
          | inl f ↦ rw (e, publish_measured, f, act) backed
          | inr (inl f) ↦ rw (e, publish_measured, f, act) backed
          | inr (inr f) ↦
              rw (e, publish_measured, f, act)
                (after_patch-IsBacked w before _ name sig (w.patch name sig) refl backed)
        ]
]

pub publish_one-IsBacked :
    (w : World) (force : Bool) (before : Option Signal) (p : Publisher) (name a : String)
    → IsBacked w before a (lookup a p.last)
    → IsBacked w before a (lookup a (publish_one w p name force).0.last)
publish_one-IsBacked w force before p name a backed = elim (Bool-cases (name == a)) [
  | inl e ↦
      rw ((string_eq.beq_iff name a).0 e) (publish_one-IsBacked_self w force before p a backed)
  | inr e ↦
      rw (publish_one-other w force p name a (λ s. cc (e, (string_eq.beq_iff name a).1 (sym s))))
        backed
]
