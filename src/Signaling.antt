-- ===== src/Signaling.antt =====
-- signaling/types.go: the checks of room names, route prefixes and message types. Strings are their bytes.
pub mod Routes
pub mod Broker
mod Tests
use telekit.Common.{
  ℕ, Bool, true, false, not, ◌&&◌, ◌||◌, List, [], ◌∷◌, ◌==◌, ltb, if◌then◌else◌, length,
}
use telekit.Common.Results.{Result, ok, error}
use telekit.Peer.Handshake.{all_id_bytes}

pub data RouteError : Type 0 where
  bad_length bad_byte unsupported_separator : RouteError

abbrev pub max_room_id_length : ℕ
max_room_id_length = 128

abbrev pub max_message_type_length : ℕ
max_message_type_length = 32

abbrev pub max_route_prefix_length : ℕ
max_route_prefix_length = 128

-- `roomPattern`, which asks for a byte at least.
abbrev pub matches_pattern : List ℕ → Bool
matches_pattern s = not (length s == 0) && all_id_bytes s

unfoldable pub validate_room_id : List ℕ → Result RouteError Unit
validate_room_id s =
    if length s == 0 || ltb max_room_id_length (length s)
    then error bad_length
    else if matches_pattern s
    then ok tt
    else error bad_byte

unfoldable pub validate_message_type : List ℕ → Result RouteError Unit
validate_message_type s =
    if length s == 0 || ltb max_message_type_length (length s)
    then error bad_length
    else if matches_pattern s
    then ok tt
    else error bad_byte

abbrev pub into_first : ℕ → List (List ℕ) → List (List ℕ)
into_first c [] = (c ∷ []) ∷ []
into_first c (s ∷ ss) = (c ∷ s) ∷ ss

-- `strings.Split` at a separator of one byte.
unfoldable pub split : ℕ → List ℕ → List (List ℕ)
split separator [] = [] ∷ []
split separator (c ∷ cs) =
    let rest = split separator cs in if c == separator then [] ∷ rest else into_first c rest

abbrev pub all_match : List (List ℕ) → Bool
all_match [] = true
all_match (s ∷ ss) = matches_pattern s && all_match ss

-- `/`, `.` and `:`
abbrev pub is_separator : ℕ → Bool
is_separator c = c == 47 || c == 46 || c == 58

unfoldable pub validate_route_prefix : List ℕ → ℕ → Result RouteError Unit
validate_route_prefix prefix separator =
    if length prefix == 0 || ltb max_route_prefix_length (length prefix)
    then error bad_length
    else if not (is_separator separator)
    then error unsupported_separator
    else if all_match (split separator prefix)
    then ok tt
    else error bad_byte
