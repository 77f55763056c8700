-- ===== src/Access/Roles.antt =====
-- The group roles of services/hub/internal/authz/types.go. A role is a Go string.
use ainsel.Prelude.{ℕ, Bool, [], ◌∷◌, Option, none, some, String, leb, string_eq}
use ainsel.Prelude.Dict.{lookup}

abbrev pub role_reader : String
role_reader = "reader"

abbrev pub role_writer : String
role_writer = "writer"

abbrev pub role_owner : String
role_owner = "owner"

-- `rank[r]`, 0 for a missing key
unfoldable pub rank_or_zero : Option ℕ → ℕ
rank_or_zero none = 0
rank_or_zero (some n) = n

unfoldable pub rank : String → ℕ
rank role = rank_or_zero (lookup role ((role_reader, 1) ∷ (role_writer, 2) ∷ (role_owner, 3) ∷ []))

unfoldable pub role_covers : String → String → Bool
role_covers have need = leb (rank need) (rank have)
