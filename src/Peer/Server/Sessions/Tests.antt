-- ===== src/Peer/Server/Sessions/Tests.antt =====
-- A server with one connection through its life.
use telekit.Common.{
  ℕ, ◌≡◌, ◌≢◌, inl, inr, sym, Bool-cases, refl, ap, arith, true, false, Option, none, some, List,
  [], ◌∷◌, if◌then◌else◌,
}
use telekit.Common.Bytes.{same_bytes, same_bytes_refl, same_bytes_sound}
use telekit.Peer.Server.Sessions.Sound.{IsSound}
use telekit.Peer.Server.Sessions.Closing.{IsShut}
use telekit.Peer.Server.Sessions.Replays.{IsSameProof, handle_hello-replay}
use telekit.Peer.Server.Sessions.Hello.{Hello, Lru, handle_hello, is_nonce_available, offered}
use telekit.Peer.Server.Sessions.Runs.{
  new_server, Step, hello, agent, transport, select, establish, tick, serve, serve-IsSound,
  serve-IsShut,
}
use telekit.Peer.Server.Sessions.{close_server}

abbrev Cache : Type 0
Cache = List (List ℕ × ℕ)

abbrev find : Cache → List ℕ → Option ℕ
find [] key = none
find ((k, v) ∷ c) key = if same_bytes k key then some v else find c key

differ : (key other : List ℕ) → other ≢ key → same_bytes key other ≡ false
differ key other ne = elim (Bool-cases (same_bytes key other)) [
  | inl e ↦ absurd (ne (sym (same_bytes_sound key other e)))
  | inr e ↦ e
]

-- A cache that keeps everything.
abbrev full_cache : Lru Cache
full_cache = record {
  get = find;
  used = λ c key. c;
  add = λ c key v. (key, v) ∷ c;
  get-used = λ c key other. refl;
  get-add = λ c key v. ap (λ b. if b then some v else find c key) (same_bytes_refl key);
  get-add_other =
      λ c key v other ne. inl (ap (λ b. if b then some v else find c other) (differ key other ne));
}

abbrev first_hello : Hello
first_hello = record { source_id = 8; nonce = 1 ∷ 2 ∷ []; ephemeral_key = 4 ∷ [] }

abbrev second_hello : Hello
second_hello = record { source_id = 8; nonce = 1 ∷ 3 ∷ []; ephemeral_key = 5 ∷ [] }

abbrev life : List Step
life =
    hello first_hello 50 100 true true true
    ∷ select 0 2 true
    ∷ agent 0 60
    ∷ transport 0 60 70 1100
    ∷ establish 0 60 70
    ∷ hello second_hello 51 200 true true true
    ∷ agent 1 61
    ∷ tick 1 70 51 300 15 true
    ∷ []

serve-IsSound_example : IsSound none (serve full_cache 300 (new_server 4 2, []) life).0
serve-IsSound_example = serve-IsSound full_cache 300 4 2 [] life

serve-IsShut_example : IsShut (close_server (serve full_cache 300 (new_server 4 2, []) life).0)
serve-IsShut_example = serve-IsShut full_cache 300 4 2 [] life

abbrev between : List (List ℕ × ℕ)
between = (9 ∷ [], 120) ∷ (1 ∷ 2 ∷ [], 130) ∷ []

no_session : IsSameProof (new_server 4 2) first_hello → ⊥
unfolding new_server
no_session v = absurd (cc v.named)

handle_hello-replay_example :
    let taken = (is_nonce_available full_cache [] (1 ∷ 2 ∷ []) 100 300).0 in
    let later = offered full_cache taken between 300 in
    handle_hello full_cache (new_server 4 2) later first_hello 50 200 300 true true true
    ≡ (new_server 4 2, later)
unfolding is_nonce_available
handle_hello-replay_example =
    handle_hello-replay full_cache (new_server 4 2) [] first_hello between 50 100 200 300 true true
      true refl (omega arith) (omega arith) (λ e. absurd (cc e)) no_session
