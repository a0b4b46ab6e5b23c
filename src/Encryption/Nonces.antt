-- ===== src/Encryption/Nonces.antt =====
-- The nonces that one source hands out.
use native.Mathlib.Decide.{dec_lt}
use telekit.Common.{
  ℕ, zero, suc, ◌+◌, ◌≤◌, ◌<◌, ◌≡◌, refl, ap, sym, ◌∙◌, some, List, [], ◌∷◌, ◌++◌, length,
  get_elem?, arith,
}
use telekit.Common.Bytes.{big_endian, big_endian-injective, append-injective}
use telekit.Common.Results.{ok, error}
use telekit.Encryption.{NonceSource, next, max_uint64, nonce_counter_size, counter_exhausted}

-- The nonce for a count.
abbrev pub numbered : NonceSource → ℕ → List ℕ
numbered s n = s.prefix ++ big_endian 8 n

-- The nonces of `k` calls of `next`, as far as they succeed.
unfoldable pub nonces : ℕ → NonceSource → List (List ℕ)
nonces zero s = []
nonces (suc k) s = elim (next s (length s.prefix + nonce_counter_size)) [
  | error _ ↦ []
  | ok (n, s') ↦ n ∷ nonces k s'
]

abbrev advanced : NonceSource → NonceSource
advanced s = record s { counter = s.counter + 1 }

pub next-ok :
    (s : NonceSource) (size : ℕ)
    → size ≡ length s.prefix + 8
    → s.counter < max_uint64
    → next s size ≡ ok (numbered s (s.counter + 1), record s { counter = s.counter + 1 })
unfolding next
next-ok s size e h = ground arith

next-exhausted :
    (s : NonceSource)
    → s.counter ≡ max_uint64
    → next s (length s.prefix + nonce_counter_size) ≡ error counter_exhausted
unfolding next
next-exhausted s e = ground arith

numbered-injective :
    (s : NonceSource) (n m : ℕ)
    → n ≤ max_uint64
    → m ≤ max_uint64
    → numbered s n ≡ numbered s m
    → n ≡ m
numbered-injective s n m a b e =
    big_endian-injective 8 n m (omega arith) (omega arith)
      (append-injective s.prefix s.prefix refl e).1

-- The `i`-th nonce carries the `i`-th count after the present one.
get_elem?-nonces :
    (k i : ℕ) (s : NonceSource) {x : List ℕ}
    → s.counter ≤ max_uint64
    → get_elem? (nonces k s) i ≡ some x
    → (x ≡ numbered s (s.counter + 1 + i)) × (s.counter + 1 + i ≤ max_uint64)
unfolding nonces
get_elem?-nonces zero i s h e = absurd (cc e)
get_elem?-nonces (suc k) i s {x} h e = elim (dec_lt s.counter max_uint64) [
  | no l ↦ absurd (cc (rw (next-exhausted s (omega arith), nonces) at e))
  | yes l ↦
      found l (λ j. get_elem?-nonces k j (advanced s) (omega (arith, l))) i
        (rw (next-ok s (length s.prefix + nonce_counter_size) refl l, nonces) at e)
]
  where
    found :
        s.counter < max_uint64
        → ((j : ℕ)
            → get_elem? (nonces k (advanced s)) j ≡ some x
            → (x ≡ numbered s (s.counter + 1 + 1 + j)) × (s.counter + 1 + 1 + j ≤ max_uint64))
        → (j : ℕ) → get_elem? (numbered s (s.counter + 1) ∷ nonces k (advanced s)) j ≡ some x
        → (x ≡ numbered s (s.counter + 1 + j)) × (s.counter + 1 + j ≤ max_uint64)
    found l later zero f = (
      cc f ∙ ap (numbered s) {x = s.counter + 1} {y = s.counter + 1 + 0} (omega arith),
      omega arith,
    )
    found l later (suc j) f =
        let (p, b) = later j f in
        (
          p ∙ ap (numbered s) {x = s.counter + 1 + 1 + j} {y = s.counter + 1 + suc j} (omega arith),
          omega (arith, b),
        )

-- One source never hands out a nonce twice, whatever its prefix and its counter are.
pub nonces-distinct :
    (k i j : ℕ) (s : NonceSource) {x : List ℕ}
    → s.counter ≤ max_uint64
    → get_elem? (nonces k s) i ≡ some x
    → get_elem? (nonces k s) j ≡ some x
    → i ≡ j
nonces-distinct k i j s h e f =
    let (p, a) = get_elem?-nonces k i s h e in
    let (q, b) = get_elem?-nonces k j s h f in
    omega (arith, numbered-injective s (s.counter + 1 + i) (s.counter + 1 + j) a b (sym p ∙ q))

-- As long as the counter has not run out, every call succeeds.
pub length-nonces : (k : ℕ) (s : NonceSource) → s.counter + k ≤ max_uint64 → length (nonces k s) ≡ k
unfolding nonces
length-nonces zero s h = refl
length-nonces (suc k) s h =
    rw (next-ok s (length s.prefix + nonce_counter_size) refl (omega arith), nonces)
      (ap suc (length-nonces k (advanced s) (omega arith)))
