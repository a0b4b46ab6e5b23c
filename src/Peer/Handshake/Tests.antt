-- ===== src/Peer/Handshake/Tests.antt =====
-- Concrete handshakes.
use telekit.Common.{ℕ, ◌≡◌, ◌≢◌, refl, arith, true, List, [], ◌∷◌, ◌++◌, replicate}
use telekit.Common.Results.{ok}
use telekit.Peer.Handshake.{
  Handshake, Signatures, encode_handshake_fields, validate_server_hello_transcript,
  sign_server_hello, verify_server_hello, client_hello_info, server_hello_info, session_info,
}
use telekit.Peer.Handshake.Fields.{encode_handshake_fields-injective}
use telekit.Peer.Handshake.Bindings.{
  HasShortNames, server_hello_transcript-injective, verify_server_hello-sign_server_hello,
  infos-differ, first_field,
}

abbrev bytes32 : ℕ → List ℕ
bytes32 b = replicate 32 b

abbrev hello : Handshake
hello = record {
  room_id = 114 ∷ [];
  client_id = 99 ∷ 49 ∷ [];
  server_id = 115 ∷ [];
  client_nonce = bytes32 1;
  server_nonce = bytes32 2;
  client_ephemeral_key = bytes32 3;
  server_ephemeral_key = bytes32 4;
  session_salt = bytes32 5;
}

hello-HasShortNames : HasShortNames hello
hello-HasShortNames = omega arith

hello_valid : validate_server_hello_transcript hello ≡ ok tt
unfolding validate_server_hello_transcript
hello_valid = refl

abbrev fields : List (List ℕ)
fields = (1 ∷ []) ∷ (2 ∷ 3 ∷ []) ∷ []

encode_handshake_fields-injective_example : fields ≡ fields
encode_handshake_fields-injective_example =
    encode_handshake_fields-injective fields fields (omega arith) (omega arith) refl

server_hello_transcript-injective_example : hello ≡ hello
server_hello_transcript-injective_example =
    server_hello_transcript-injective hello hello hello-HasShortNames hello-HasShortNames
      hello_valid hello_valid refl

-- A scheme with the sizes of Ed25519 in which every signature verifies.
abbrev lax : Signatures
lax = record {
  new_key_from_seed = λ seed. seed ++ bytes32 6;
  public_key = λ seed. bytes32 6;
  sign = λ key message. replicate 64 0;
  verify = λ key message signature. true;
  new_key_from_seed-eq-append = λ seed h. refl;
  length-public_key = λ seed. refl;
  length-sign = λ key message. refl;
  verify-sign = λ seed message. refl;
}

verify_server_hello-sign_server_hello_example :
    (signature : List ℕ) × (sign_server_hello lax (lax.new_key_from_seed (bytes32 8)) hello
      ≡ ok signature)
    × (verify_server_hello lax (lax.public_key (bytes32 8)) hello signature ≡ true)
verify_server_hello-sign_server_hello_example =
    verify_server_hello-sign_server_hello lax (bytes32 8) refl hello hello_valid

infos-differ_example :
    (first_field (encode_handshake_fields (client_hello_info hello))
      ≢ first_field (encode_handshake_fields (server_hello_info hello)))
    × (first_field (encode_handshake_fields (client_hello_info hello))
        ≢ first_field (encode_handshake_fields (session_info hello)))
    × (first_field (encode_handshake_fields (server_hello_info hello))
        ≢ first_field (encode_handshake_fields (session_info hello)))
infos-differ_example = infos-differ hello hello
