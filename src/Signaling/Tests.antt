-- ===== src/Signaling/Tests.antt =====
-- A concrete route prefix.
use telekit.Common.{ℕ, ◌≡◌, refl, true, List, [], ◌∷◌, All}
use telekit.Common.Results.{ok}
use telekit.Signaling.{validate_route_prefix, split, is_separator}
use telekit.Signaling.Routes.{IsRouteByte, route_bytes_of_valid}

-- `a/b1`
abbrev prefix : List ℕ
prefix = 97 ∷ 47 ∷ 98 ∷ 49 ∷ []

prefix_valid : validate_route_prefix prefix 47 ≡ ok tt
unfolding validate_route_prefix split
prefix_valid = refl

route_bytes_of_valid_example : (is_separator 47 ≡ true) × All (IsRouteByte 47) prefix
route_bytes_of_valid_example = route_bytes_of_valid prefix 47 prefix_valid
