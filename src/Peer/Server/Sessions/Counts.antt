-- ===== src/Peer/Server/Sessions/Counts.antt =====
-- How many connections of a list have a property.
use telekit.Common.{
  ℕ, zero, suc, ◌+◌, ◌≡◌, refl, Bool, true, false, some, List, [], ◌∷◌, ◌++◌, get_elem?, set, arith,
}
use telekit.Peer.Server.Sessions.{Connection}

abbrev pub one : Bool → ℕ
one true = 1
one false = 0

abbrev pub count : (Connection → Bool) → List Connection → ℕ
count p [] = 0
count p (c ∷ cs) = one (p c) + count p cs

pub count-set :
    (p : Connection → Bool) (cs : List Connection) (i : ℕ) (c' : Connection) {c : Connection}
    → get_elem? cs i ≡ some c
    → count p (set cs i c') + one (p c) ≡ count p cs + one (p c')
count-set p [] i c' e = cc
count-set p (c₀ ∷ cs) zero c' {c} e = let f : c₀ ≡ c = cc in rw f (omega arith)
count-set p (c ∷ cs) (suc i) c' e = omega (arith, count-set p cs i c' e)

pub count-append :
    (p : Connection → Bool) (cs ds : List Connection) → count p (cs ++ ds) ≡ count p cs + count p ds
count-append p [] ds = omega arith
count-append p (c ∷ cs) ds = omega (arith, count-append p cs ds)

pub count-none :
    (p : Connection → Bool) (cs : List Connection)
    → ((i : ℕ) (c : Connection) → get_elem? cs i ≡ some c → p c ≡ false)
    → count p cs ≡ 0
count-none p [] h = refl
count-none p (c ∷ cs) h =
    let e = h 0 c refl in rw e (omega (arith, count-none p cs (λ i. h (suc i))))
