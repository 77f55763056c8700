-- ===== src/Invocations/Listing.antt =====
-- What the listing of services/hub/internal/invocations/store.go returns.
use mathlib.Core.List.{append-nil}
use mathlib.Core.List.{Permᴰ}
use ainsel.Prelude.{
  ℕ, ◌<◌, ◌≤◌, ◌≡◌, refl, ◌⊎◌, inl, inr, List, [], ◌++◌, string_eq, ltb, arith, Bool-cases, length,
  take, drop, length-take, take-append-drop,
}
use ainsel.Prelude.Int.{ℤ, pos, negsuc}
use ainsel.Prelude.Order.{SortSlice, IsSorted}
use ainsel.Invocations.Selection.{IsHits, matching-IsHits}
use ainsel.Invocations.{
  Invocation, MemoryStore, ListOptions, selects, matching, newer, limited, list_with_total,
}

limited-take :
    (limit : ℤ) (out : List Invocation)
    → (limited limit out ≡ out)
      ⊎ ((n : ℕ) × (limit ≡ pos n) × (1 ≤ n) × (n < length out) × (limited limit out ≡ take n out))
unfolding limited
limited-take (negsuc n) out = inl refl
limited-take (pos n) out = elim (Bool-cases (ltb 0 n)) [
  | inl a ↦ elim (Bool-cases (ltb n (length out))) [
    | inl b ↦ inr (n, refl, ground arith, ground arith, ground arith)
    | inr b ↦ inl (ground arith)
  ]
  | inr a ↦ inl (ground arith)
]

-- What `ListWithTotal` promises of its page and its total: the page is the beginning of a list of
-- the hits, each as often as it is a hit, newest first; the total is the number of them; and nothing
-- is cut off unless there are more than a positive limit.
pub record IsListing (opts : ListOptions) (s : MemoryStore) (items : List Invocation) (total : ℕ)
    : Type 0 where
  pub hits : List Invocation
  pub exact : IsHits opts s.by_id s.order hits
  pub rest : List Invocation
  pub same : Permᴰ (items ++ rest) hits
  pub newest_first : IsSorted newer (items ++ rest)
  pub counted : total ≡ length (items ++ rest)
  pub cut :
      (rest ≡ []) ⊎ ((n : ℕ) × (opts.limit ≡ pos n) × (1 ≤ n) × (length items ≡ n) × (n < total))

-- A listing returns invocations that the store holds and that pass every filter of the options, each
-- of them once for its id unless the limit cuts it off, newest first, and reports how many there are
-- before the cut; for any filters, any limit and any sort.
pub list_with_total-IsListing :
    (srt : SortSlice newer) (s : MemoryStore) (opts : ListOptions)
    → IsListing opts s (list_with_total srt s opts).0 (list_with_total srt s opts).1
unfolding list_with_total
list_with_total-IsListing srt s opts =
    let found = matching (selects opts) s.by_id s.order in
    let out = srt.sort found in
    let hits = matching-IsHits opts s.by_id s.order in
    elim (limited-take opts.limit out) [
      | inl whole ↦ rw whole (record {
        hits = found;
        exact = hits;
        rest = [];
        same = rw (append-nil out) (srt.sort-perm found);
        newest_first = rw (append-nil out) (srt.sort-IsSorted found);
        counted = rw (append-nil out) refl;
        cut = inl refl;
      })
      | inr (n, e, some_, over, part) ↦ rw part (record {
        hits = found;
        exact = hits;
        rest = drop n out;
        same = rw (take-append-drop n out) (srt.sort-perm found);
        newest_first = rw (take-append-drop n out) (srt.sort-IsSorted found);
        counted = rw (take-append-drop n out) refl;
        cut = inr (n, e, some_, omega (arith, length-take n out, over), over);
      })
    ]
