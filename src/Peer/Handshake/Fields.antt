-- ===== src/Peer/Handshake/Fields.antt =====
-- `encodeHandshakeFields` loses nothing.
use telekit.Common.{
  ℕ, ◌%◌, ◌^◌, ◌<◌, ◌≡◌, ◌≢◌, refl, ap, sym, ◌∙◌, List, [], ◌∷◌, ◌++◌, length, arith, All,
  length-append,
}
use native.Mathlib.Nat.{mod-eq_of_lt}
use telekit.Common.Bytes.{big_endian, big_endian-injective, length-big_endian, append-injective}
use telekit.Peer.Handshake.{encode_handshake_fields}

-- The length fits the 32 bits that are written.
abbrev pub IsShort : List ℕ → Type 0
IsShort f = length f < 2 ^ 32

abbrev header : List ℕ → List ℕ
header f = big_endian 4 (length f % 2 ^ 32)

length-header : (f : List ℕ) → length (header f) ≡ 4
length-header f = length-big_endian 4 (length f % 2 ^ 32)

header-injective :
    (f g : List ℕ) → IsShort f → IsShort g → header f ≡ header g → length f ≡ length g
header-injective f g a b e =
    sym (mod-eq_of_lt a)
    ∙ big_endian-injective 4 (length f % 2 ^ 32) (length g % 2 ^ 32) (omega arith) (omega arith) e
    ∙ mod-eq_of_lt b

encode-cons :
    (f g : List ℕ) (fs gs : List (List ℕ))
    → IsShort f
    → IsShort g
    → encode_handshake_fields (f ∷ fs) ≡ encode_handshake_fields (g ∷ gs)
    → (f ≡ g) × (encode_handshake_fields fs ≡ encode_handshake_fields gs)
unfolding encode_handshake_fields
encode-cons f g fs gs a b e =
    let (h, rest) =
      append-injective (header f) (header g) {us = f ++ encode_handshake_fields fs}
        {vs = g ++ encode_handshake_fields gs} (length-header f ∙ sym (length-header g)) e in
    append-injective f g (header-injective f g a b h) rest

encode-nil :
    (f : List ℕ) (fs : List (List ℕ))
    → encode_handshake_fields (f ∷ fs) ≢ encode_handshake_fields []
unfolding encode_handshake_fields
encode-nil f fs e = omega (
  arith,
  ap length e,
  length-append (header f) (f ++ encode_handshake_fields fs),
  length-header f,
)

-- Lists of fields with the same encoding are the same list: no field can be moved across a boundary.
pub encode_handshake_fields-injective :
    (fs gs : List (List ℕ))
    → All IsShort fs
    → All IsShort gs
    → encode_handshake_fields fs ≡ encode_handshake_fields gs
    → fs ≡ gs
encode_handshake_fields-injective [] [] a b e = refl
encode_handshake_fields-injective [] (g ∷ gs) a b e = absurd (encode-nil g gs (sym e))
encode_handshake_fields-injective (f ∷ fs) [] a b e = absurd (encode-nil f fs e)
encode_handshake_fields-injective (f ∷ fs) (g ∷ gs) (a, short) (b, also) e =
    let (p, rest) = encode-cons f g fs gs a b e in
    ap (λ x. x ∷ fs) p ∙ ap (λ xs. g ∷ xs) (encode_handshake_fields-injective fs gs short also rest)
