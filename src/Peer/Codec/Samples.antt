-- ===== src/Peer/Codec/Samples.antt =====
-- A codec and an encoding for concrete runs.
use telekit.Common.{
  true, ℕ, zero, suc, ◌≡◌, refl, arith, ap, ◌∙◌, Option, none, some, List, [], ◌∷◌,
}
use telekit.Encryption.{Kit}
use telekit.Encryption.Samples.{sender_kit, receiver_kit, sender_kit-IsReady}
use telekit.Peer.Codec.{Codec, Gob, chacha20_poly1305, build_additional_data}
use telekit.Peer.Codec.Packets.{IsMatched}

abbrev pub codec_with : Kit → Codec
codec_with kit = record {
  secret = 3 ∷ [];
  typ = chacha20_poly1305;
  encryption_kit = some kit;
  additional_data = 8 ∷ [];
  data_aad = build_additional_data (8 ∷ []) 1 [];
  header_aad = build_additional_data (8 ∷ []) 2 [];
}

abbrev pub codecs-IsMatched : IsMatched (codec_with sender_kit) (codec_with receiver_kit)
codecs-IsMatched = record {
  kit = sender_kit;
  other = receiver_kit;
  sender_kit = refl;
  receiver_kit = refl;
  ready = sender_kit-IsReady;
  same_cipher = refl;
  same_data = refl;
  sender_prepared = record { data_prepared = refl; header_prepared = refl };
  receiver_prepared = record { data_prepared = refl; header_prepared = refl };
}

-- A chunk is its bytes, each one higher, and a 0.
abbrev chunk : List ℕ → List ℕ → List ℕ
chunk [] rest = 0 ∷ rest
chunk (b ∷ bs) rest = suc b ∷ chunk bs rest

abbrev body : List (List ℕ) → List ℕ
body [] = []
body (c ∷ cs) = chunk c (body cs)

abbrev into_first : ℕ → List (List ℕ) → List (List ℕ)
into_first b [] = (b ∷ []) ∷ []
into_first b (c ∷ cs) = (b ∷ c) ∷ cs

abbrev parse : List ℕ → List (List ℕ)
parse [] = []
parse (zero ∷ bs) = [] ∷ parse bs
parse (suc b ∷ bs) = into_first b (parse bs)

parse-chunk : (c rest : List ℕ) → parse (chunk c rest) ≡ c ∷ parse rest
parse-chunk [] rest = refl
parse-chunk (b ∷ bs) rest = ap (into_first b) (parse-chunk bs rest)

pub parse-body : (cs : List (List ℕ)) → parse (body cs) ≡ cs
parse-body [] = refl
parse-body (c ∷ cs) = parse-chunk c (body cs) ∙ ap (λ ds. c ∷ ds) (parse-body cs)

abbrev tail : List ℕ → Option (List ℕ)
tail [] = none
tail (_ ∷ bs) = some bs

abbrev parse_tail : List ℕ → Option (List (List ℕ))
parse_tail [] = none
parse_tail (_ ∷ bs) = some (parse bs)

-- Headers and payloads are byte strings, each behind a byte that marks its beginning.
abbrev pub marked : Gob (List ℕ) (List ℕ)
marked = record {
  write_header = λ h. (1 ∷ h, true);
  read_header = tail;
  write_payload = λ p. (2 ∷ p, true);
  read_payload = tail;
  encode_chunks = λ cs. 3 ∷ body cs;
  decode_chunks = parse_tail;
  read-write_header = λ h e. refl;
  read-write_payload = λ p e. refl;
  decode-encode_chunks = λ cs. ap some (parse-body cs);
  length-write_header = λ h e. omega arith;
  length-write_payload = λ p e. omega arith;
  length-encode_chunks = λ cs. omega arith;
}
