-- ===== src/Paging/Bounds.antt =====
-- The bounds of services/hub/internal/api/pagination.go: what a handler may slice with.
use mathlib.Core.Option.{some-injective, none-ne-some}
use ainsel.Prelude.{
  ◌⊎◌, sym, ap, ◌∙◌, ℕ, ◌*◌, ◌≤◌, ◌≡◌, refl, false, some, String, arith, Option-cases, Bool-cases,
  inl, inr, ◌==◌, string_eq,
}
use ainsel.Prelude.Int.{ℤ, pos, ◌+ℤ◌, ◌-ℤ◌, ◌*ℤ◌, ◌≤ℤ◌, leb_ℤ, wrap64, IsInt64, wrap64_of_IsInt64}
use ainsel.Paging.{
  PageParams, Query, parse_page_params, parse_number, at_least_one, at_most_max, slice, clamp_low,
  clamp_high,
}

-- What a list handler relies on once the query was accepted.
pub record IsPage (p : PageParams) : Type 0 where
  pub page_low : pos 1 ≤ℤ p.page
  pub size_low : pos 1 ≤ℤ p.page_size
  pub size_high : p.page_size ≤ℤ pos 200

parse_number_lem :
    (q : Query) (bound : ℤ → ℤ) (default : ℤ) (v : String) (n : ℤ)
    → parse_number q bound default v ≡ some n
    → (n ≡ default) ⊎ ((k : ℤ) × (n ≡ bound k))
unfolding parse_number
parse_number_lem q bound default v n h = elim (Bool-cases (v == "")) [
  | inl e ↦ inl (sym (some-injective _ _ (rw (e, parse_number) at h)))
  | inr e ↦ elim (Option-cases (q.atoi v)) [
    | inl f ↦ absurd (none-ne-some _ (rw (e, f, parse_number) at h))
    | inr (k, f) ↦ inr (k, sym (some-injective _ _ (rw (e, f, parse_number) at h)))
  ]
]

-- The two parameters, where the query was accepted.
parts :
    (q : Query) (p : PageParams)
    → parse_page_params q ≡ some p
    → (parse_number q at_least_one (pos 1) (q.get "page") ≡ some p.page)
      × (parse_number q (λ n. at_most_max (at_least_one n)) (pos 50) (q.get "pageSize")
          ≡ some p.page_size)
unfolding parse_page_params
parts q p h = elim (Option-cases (parse_number q at_least_one (pos 1) (q.get "page"))) [
  | inl e ↦ absurd (none-ne-some _ (rw (e, parse_page_params) at h))
  | inr (page, e) ↦
      elim (Option-cases
        (parse_number q (λ n. at_most_max (at_least_one n)) (pos 50) (q.get "pageSize"))) [
          | inl f ↦ absurd (none-ne-some _ (rw (e, f, parse_page_params) at h))
          | inr (size, f) ↦
              let same = some-injective _ _ (rw (e, f, parse_page_params) at h) in
              (
                e ∙ ap (λ (r : PageParams). some r.page) same,
                f ∙ ap (λ (r : PageParams). some r.page_size) same,
              )
        ]
]

-- Whatever the query says, accepted parameters name a page from 1 on of 1 to 200 items.
pub parse_page_params-IsPage :
    (q : Query) (p : PageParams) → parse_page_params q ≡ some p → IsPage p
unfolding at_least_one at_most_max
parse_page_params-IsPage q p h =
    let (page, size) = parts q p h in
    let page_is = parse_number_lem q at_least_one (pos 1) (q.get "page") p.page page in
    let size_is =
      parse_number_lem q (λ n. at_most_max (at_least_one n)) (pos 50) (q.get "pageSize") p.page_size
        size in
    record {
      page_low = elim page_is [ inl e ↦ rw e (ground arith) | inr (k, e) ↦ rw e (ground arith) ];
      size_low = elim size_is [ inl e ↦ rw e (ground arith) | inr (k, e) ↦ rw e (ground arith) ];
      size_high = elim size_is [ inl e ↦ rw e (ground arith) | inr (k, e) ↦ rw e (ground arith) ];
    }

clamp_low_bounds :
    (lo total : ℤ) → pos 0 ≤ℤ total → (pos 0 ≤ℤ clamp_low lo total) × (clamp_low lo total ≤ℤ total)
unfolding clamp_low
clamp_low_bounds lo total h = ground arith

clamp_high_bounds :
    (lo size total : ℤ)
    → pos 0 ≤ℤ lo
    → lo ≤ℤ total
    → pos 1 ≤ℤ size
    → IsInt64 (lo +ℤ size)
    → (lo ≤ℤ clamp_high (wrap64 (lo +ℤ size)) total)
      × (clamp_high (wrap64 (lo +ℤ size)) total ≤ℤ total)
unfolding clamp_high ◌+ℤ◌
clamp_high_bounds lo size total a b c fits = ground (arith, wrap64_of_IsInt64 (lo +ℤ size) fits)

sum_fits :
    (lo size total : ℤ)
    → pos 0 ≤ℤ lo
    → lo ≤ℤ total
    → pos 1 ≤ℤ size
    → size ≤ℤ pos 200
    → total ≤ℤ pos 9223372036854775607
    → IsInt64 (lo +ℤ size)
unfolding ◌+ℤ◌
sum_fits lo size total a b c d e = ground arith

leb_false : (size : ℤ) → pos 1 ≤ℤ size → leb_ℤ size (pos 0) ≡ false
leb_false size h = ground arith

-- A caller can slice directly: for a page size of 1 to 200 and any page number at all, also one
-- whose offset overflows, 0 ≤ lo ≤ hi ≤ total. The total is that of a list in memory (200 below
-- the largest int).
pub slice_bounds :
    (p : PageParams) (total : ℤ)
    → pos 1 ≤ℤ p.page_size
    → p.page_size ≤ℤ pos 200
    → pos 0 ≤ℤ total
    → total ≤ℤ pos 9223372036854775607
    → (pos 0 ≤ℤ (slice p total).0)
      × ((slice p total).0 ≤ℤ (slice p total).1)
      × ((slice p total).1 ≤ℤ total)
unfolding slice
slice_bounds p total a b c d =
    let lo = clamp_low (wrap64 (wrap64 (p.page -ℤ pos 1) *ℤ p.page_size)) total in
    let (low, high) = clamp_low_bounds (wrap64 (wrap64 (p.page -ℤ pos 1) *ℤ p.page_size)) total c in
    let fits = sum_fits lo p.page_size total low high a b d in
    let rest = clamp_high_bounds lo p.page_size total low high a fits in
    rw (leb_false p.page_size a, slice) (low, rest.0, rest.1)

offset_wraps :
    (k : ℕ)
    → k ≤ 50
    → wrap64 (wrap64 (pos 4611686018427387905 -ℤ pos 1) *ℤ pos (4 * k))
      ≡ wrap64 (wrap64 (pos 1 -ℤ pos 1) *ℤ pos (4 * k))
unfolding wrap64 ◌-ℤ◌ ◌*ℤ◌
offset_wraps k small = ground arith

-- An offset that overflows. Page 2^62 + 1 of pages of 4 k items, far past the end of any list, has
-- the bounds of page 1, not of an empty page.
pub slice-wraps :
    (k : ℕ) (total : ℤ)
    → k ≤ 50
    → slice (record { page = pos 4611686018427387905; page_size = pos (4 * k) }) total
      ≡ slice (record { page = pos 1; page_size = pos (4 * k) }) total
unfolding slice
slice-wraps k total small = rw (offset_wraps k small) refl
