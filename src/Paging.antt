-- ===== src/Paging.antt =====
-- services/hub/internal/api/pagination.go. Go's `int` is 64 bits wide here. `strconv.Atoi` and the
-- query's `Get` are parameters.
pub mod Bounds
pub mod Count
mod Tests
use mathlib.Core.Option
use ainsel.Prelude.{
  ℕ, Bool, true, false, ◌||◌, ◌&&◌, not, List, Option, none, some, String, if◌then◌else◌, ◌==◌,
  string_eq,
}
use ainsel.Prelude.Int.{ℤ, pos, negsuc, ◌+ℤ◌, ◌-ℤ◌, ◌*ℤ◌, ltb_ℤ, leb_ℤ, wrap64, div_ℤ, rem_ℤ}

pub record PageParams : Type 0 where
  pub page : ℤ
  pub page_size : ℤ

abbrev pub default_page_size : ℤ
default_page_size = pos 50

abbrev pub max_page_size : ℤ
max_page_size = pos 200

infixl 10 ◌>>=◌
abbrev ◌>>=◌ : {A B : Type 0} → Option A → (A → Option B) → Option B
none >>= f = none
some a >>= f = f a

pub record Query : Type 0 where
  pub get : String → String
  pub atoi : String → Option ℤ

unfoldable pub at_least_one : ℤ → ℤ
at_least_one n = if ltb_ℤ n (pos 1) then pos 1 else n

unfoldable pub at_most_max : ℤ → ℤ
at_most_max n = if ltb_ℤ max_page_size n then max_page_size else n

-- One parameter: the default where it is empty, an error where it is not a number.
unfoldable pub parse_number : Query → (ℤ → ℤ) → ℤ → String → Option ℤ
parse_number q bound default v = if v == "" then some default else Option.map bound (q.atoi v)

unfoldable pub parse_page_params : Query → Option PageParams
parse_page_params q = do
  page ← parse_number q at_least_one (pos 1) (q.get "page")
  page_size ←
      parse_number q (λ n. at_most_max (at_least_one n)) default_page_size (q.get "pageSize")
  some (record { page = page; page_size = page_size })

unfoldable pub clamp_low : ℤ → ℤ → ℤ
clamp_low lo total =
    let capped = if ltb_ℤ total lo then total else lo in
    if ltb_ℤ capped (pos 0) then pos 0 else capped

unfoldable pub clamp_high : ℤ → ℤ → ℤ
clamp_high hi total = if ltb_ℤ total hi then total else hi

unfoldable pub slice : PageParams → ℤ → ℤ × ℤ
slice p total =
    let lo = clamp_low (wrap64 (wrap64 (p.page -ℤ pos 1) *ℤ p.page_size)) total in
    let bounds : ℤ × ℤ = (lo, clamp_high (wrap64 (lo +ℤ p.page_size)) total) in
    if leb_ℤ p.page_size (pos 0) then (pos 0, pos 0) else bounds

unfoldable pub total_pages : PageParams → ℤ → ℤ
total_pages p total =
    let pages = div_ℤ total p.page_size in
    if leb_ℤ p.page_size (pos 0) || leb_ℤ total (pos 0)
    then pos 0
    else if is_zero_rem (rem_ℤ total p.page_size)
    then pages
    else wrap64 (pages +ℤ pos 1)
  where
    is_zero_rem : ℤ → Bool
    is_zero_rem r = leb_ℤ r (pos 0) && leb_ℤ (pos 0) r

pub record PageMeta : Type 0 where
  pub total : ℤ
  pub page : ℤ
  pub page_size : ℤ
  pub total_pages : ℤ

unfoldable pub meta : PageParams → ℤ → PageMeta
meta p total = record {
  total = total;
  page = p.page;
  page_size = p.page_size;
  total_pages = total_pages p total;
}
