-- ===== src/Paging/Count.antt =====
-- The page count of services/hub/internal/api/pagination.go.
use native.Mathlib.Nat.{div-add-mod', mod-lt, div-le_self, suc-mul}
use ainsel.Prelude.{ℕ, suc, ◌+◌, ◌*◌, ◌/◌, ◌%◌, ◌≤◌, ◌<◌, ◌≡◌, leb, arith, Bool-cases, inl, inr}
use ainsel.Prelude.Int.{ℤ, pos, ◌+ℤ◌, wrap64, div_ℤ, rem_ℤ}
use ainsel.Paging.{total_pages}

rounded_up : (q s r n : ℕ) → q * s + r ≡ n → r < s → 1 ≤ r → (n ≤ suc q * s) × (suc q * s < n + s)
rounded_up q s r n whole short some_left =
    let next : suc q * s ≡ q * s + s = suc-mul q s in
    rw next (omega (arith, whole, short), omega (arith, whole, some_left))

-- The page count covers the list and has no empty page: for a list of n items (fewer than the largest
-- int) in pages of s, the count k is the one number with n ≤ k s < n + s.
pub total_pages_bounds :
    (page : ℤ) (s n : ℕ)
    → 1 ≤ s
    → 1 ≤ n
    → n < 9223372036854775807
    → (k : ℕ) × (total_pages (record { page = page; page_size = pos s }) (pos n) ≡ pos k)
      × (n ≤ k * s)
      × (k * s < n + s)
unfolding total_pages div_ℤ rem_ℤ wrap64 ◌+ℤ◌
total_pages_bounds page s n size some_ fits =
    let whole = div-add-mod' n s in
    let short : n % s < s = mod-lt n size in
    let small = div-le_self n s in
    elim (Bool-cases (leb (n % s) 0)) [
      | inl even ↦
          let none_left : n % s ≡ 0 = ground arith in
          (n / s, ground arith, omega (arith, whole, none_left), omega (arith, whole, size))
      | inr odd ↦
          let (high, low) = rounded_up (n / s) s (n % s) n whole short (ground arith) in
          (suc (n / s), ground (arith, small), high, low)
    ]
