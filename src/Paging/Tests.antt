-- ===== src/Paging/Tests.antt =====
-- The theorems about pages at concrete queries.
use ainsel.Prelude.Int.{div_ℤ, rem_ℤ, pos, ◌≤ℤ◌, wrap64, ◌-ℤ◌, ◌*ℤ◌, ◌+ℤ◌}
use ainsel.Prelude.{ℕ, ◌≡◌, refl, some, if◌then◌else◌, ◌==◌, string_eq, arith}
use ainsel.Paging.{PageParams, Query, slice, total_pages, clamp_low, clamp_high}
use ainsel.Paging.Bounds.{slice_bounds, slice-wraps}

abbrev page : ℕ → ℕ → PageParams
page n size = record { page = pos n; page_size = pos size }

-- `?page=3&pageSize=1000`
abbrev third : Query
third = record {
  get = λ k. if k == "page" then "3" else "1000";
  atoi = λ v. if v == "3" then some (pos 3) else some (pos 1000);
}

third_page : slice (page 3 10) (pos 25) ≡ (pos 20, pos 25)
unfolding slice clamp_low clamp_high wrap64 ◌*ℤ◌ ◌+ℤ◌ ◌-ℤ◌
third_page = refl

three_pages : total_pages (page 3 10) (pos 25) ≡ pos 3
unfolding total_pages rem_ℤ wrap64 ◌+ℤ◌ div_ℤ
three_pages = refl

slice_bounds_example :
    (pos 0 ≤ℤ (slice (page 3 10) (pos 25)).0)
    × ((slice (page 3 10) (pos 25)).0 ≤ℤ (slice (page 3 10) (pos 25)).1)
    × ((slice (page 3 10) (pos 25)).1 ≤ℤ pos 25)
slice_bounds_example =
    slice_bounds (page 3 10) (pos 25) (omega arith) (omega arith) (omega arith) (omega arith)

slice-wraps_example : slice (page 4611686018427387905 200) (pos 25) ≡ slice (page 1 200) (pos 25)
slice-wraps_example = slice-wraps 50 (pos 25) (omega arith)
