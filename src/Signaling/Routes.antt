-- ===== src/Signaling/Routes.antt =====
-- What an accepted name or prefix may hold.
use telekit.Common.{
  ℕ, ◌≡◌, refl, Bool, true, ◌&&◌, ◌||◌, List, [], ◌∷◌, ◌==◌, arith, All, Bool-cases, inl, inr,
}
use telekit.Common.Results.{ok}
use telekit.Peer.Handshake.{is_id_byte, all_id_bytes}
use telekit.Signaling.{validate_route_prefix, split, into_first, all_match, is_separator}

-- The bytes of names, and the separator.
abbrev pub IsRouteByte : ℕ → ℕ → Type 0
IsRouteByte separator c = (is_id_byte c || c == separator) ≡ true

abbrev all_names : List (List ℕ) → Bool
all_names [] = true
all_names (s ∷ ss) = all_id_bytes s && all_names ss

names_of_match : (ss : List (List ℕ)) → all_match ss ≡ true → all_names ss ≡ true
names_of_match [] h = refl
names_of_match (s ∷ ss) h = ground (arith, names_of_match ss)

names_of_first :
    (c : ℕ) (ss : List (List ℕ))
    → all_names (into_first c ss) ≡ true
    → (is_id_byte c ≡ true) × (all_names ss ≡ true)
names_of_first c [] h = ground (arith, h)
names_of_first c (s ∷ ss) h = ground (arith, h)

bytes_of_names :
    (separator : ℕ) (p : List ℕ)
    → all_names (split separator p) ≡ true
    → All (IsRouteByte separator) p
unfolding split
bytes_of_names separator [] h = tt
bytes_of_names separator (c ∷ cs) h = elim (Bool-cases (c == separator)) [
  | inl e ↦ (ground (arith, e), bytes_of_names separator cs (ground (arith, h, e)))
  | inr e ↦
      let r = names_of_first c (split separator cs) (rw e at h) in
      (ground (arith, r.0), bytes_of_names separator cs r.1)
]

-- An accepted route prefix is made of letters, digits, underscore, hyphen and its separator alone: no
-- wildcard of a broker, and no other separator, can stand in it.
pub route_bytes_of_valid :
    (prefix : List ℕ) (separator : ℕ)
    → validate_route_prefix prefix separator ≡ ok tt
    → (is_separator separator ≡ true) × All (IsRouteByte separator) prefix
unfolding validate_route_prefix
route_bytes_of_valid prefix separator h = (
  ground (arith, h),
  bytes_of_names separator prefix (names_of_match (split separator prefix) (ground (arith, h))),
)
