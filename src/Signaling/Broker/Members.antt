-- ===== src/Signaling/Broker/Members.antt =====
-- The counts through connections that come and go.
use telekit.Common.{
  ℕ, suc, ◌+◌, ◌≤◌, ◌≡◌, refl, ap, ◌∙◌, ◌||◌, none, some, List, [], ◌∷◌, ◌==◌, leb, if◌then◌else◌,
  arith, inl, inr, Bool-cases, Option-cases,
}
use telekit.Common.Entries.{lookup}
use telekit.Signaling.Broker.Counts.{
  Counts, Member, new_counts, reserve, release, got, shown, one, in_room, at_ip, without,
  raised-Shows, lowered-Shows, without-counts, got-shown,
}

-- A connection that asks for its place, and one that gives it back.
pub data Step : Type 0 where
  join leave : ℕ → ℕ → Step

unfoldable pub step : Counts × List Member → Step → Counts × List Member
step (c, ms) (join room ip) =
    let (c', granted) = reserve c room ip in (c', if granted then (room, ip) ∷ ms else ms)
step (c, ms) (leave room ip) = elim (without (room, ip) ms) [
  | none ↦ (c, ms)
  | some rest ↦ (release c room ip, rest)
]

unfoldable pub run : Counts × List Member → List Step → Counts × List Member
run t [] = t
run t (x ∷ xs) = run (step t x) xs

-- The maps show how many connections each room and each address has, none more than its limit.
pub record IsCounted (c : Counts) (ms : List Member) : Type 0 where
  pub rooms : (id : ℕ) → lookup id c.room_counts ≡ shown (in_room id ms)
  pub ips : (id : ℕ) → lookup id c.ip_counts ≡ shown (at_ip id ms)
  pub room_within : (id : ℕ) → in_room id ms ≤ c.connections_per_room
  pub ip_within : (id : ℕ) → at_ip id ms ≤ c.connections_per_ip

reserve-IsCounted :
    (c : Counts) (ms : List Member) (room ip : ℕ)
    → IsCounted c ms
    → let (c', granted) = reserve c room ip in
      IsCounted c' (if granted then (room, ip) ∷ ms else ms)
unfolding reserve
reserve-IsCounted c ms room ip v =
    let here : got (lookup room c.room_counts) ≡ in_room room ms =
      ap got (v.rooms room) ∙ got-shown _ in
    let there : got (lookup ip c.ip_counts) ≡ at_ip ip ms = ap got (v.ips ip) ∙ got-shown _ in
    elim (Bool-cases (
      leb c.connections_per_room (got (lookup room c.room_counts))
      || leb c.connections_per_ip (got (lookup ip c.ip_counts)))) [
        | inl f ↦ rw (f, reserve) v
        | inr f ↦
            rw (f, reserve)
              (record {
                rooms = raised-Shows room c.room_counts (λ id. in_room id ms) v.rooms;
                ips = raised-Shows ip c.ip_counts (λ id. at_ip id ms) v.ips;
                room_within = λ id.
                    within room id (λ k. in_room k ms) c.connections_per_room v.room_within
                      (ground (arith, here));
                ip_within = λ id.
                    within ip id (λ k. at_ip k ms) c.connections_per_ip v.ip_within
                      (ground (arith, there));
              })
      ]
  where
    within :
        (k id : ℕ) (g : ℕ → ℕ) (limit : ℕ)
        → ((i : ℕ) → g i ≤ limit)
        → suc (g k) ≤ limit
        → one (k == id) + g id ≤ limit
    within k id g limit h l = elim (Bool-cases (k == id)) [
      | inr e ↦ rw e (omega (arith, h id))
      | inl e ↦ let same : k ≡ id = ground arith in rw e (omega (arith, ap g same))
    ]

release-IsCounted :
    (c : Counts) (ms rest : List Member) (room ip : ℕ)
    → without (room, ip) ms ≡ some rest
    → IsCounted c ms
    → IsCounted (release c room ip) rest
unfolding release
release-IsCounted c ms rest room ip e v =
    let less = without-counts room ip ms rest e in
    record {
      rooms =
          lowered-Shows room c.room_counts (λ id. in_room id ms) (λ id. in_room id rest) v.rooms
            (λ id. (less id).0);
      ips =
          lowered-Shows ip c.ip_counts (λ id. at_ip id ms) (λ id. at_ip id rest) v.ips
            (λ id. (less id).1);
      room_within = λ id. omega (arith, v.room_within id, (less id).0);
      ip_within = λ id. omega (arith, v.ip_within id, (less id).1);
    }

step-IsCounted :
    (c : Counts) (ms : List Member) (x : Step)
    → IsCounted c ms
    → IsCounted (step (c, ms) x).0 (step (c, ms) x).1
unfolding step
step-IsCounted c ms (join room ip) v = reserve-IsCounted c ms room ip v
step-IsCounted c ms (leave room ip) v = elim (Option-cases (without (room, ip) ms)) [
  | inl e ↦ rw (e, step) v
  | inr (rest, e) ↦ rw (e, step) (release-IsCounted c ms rest room ip e v)
]

steps-IsCounted :
    (xs : List Step) (c : Counts) (ms : List Member)
    → IsCounted c ms
    → IsCounted (run (c, ms) xs).0 (run (c, ms) xs).1
unfolding run
steps-IsCounted [] c ms v = v
steps-IsCounted (x ∷ xs) c ms v =
    steps-IsCounted xs (step (c, ms) x).0 (step (c, ms) x).1 (step-IsCounted c ms x v)

-- Through any connections that come and go from its start on, the two maps of a broker show how many
-- connections each room and each address has, with no entry where there is none, and never more than the
-- limits.
pub run-IsCounted :
    (per_room per_ip : ℕ) (xs : List Step)
    → let (c, ms) = run (new_counts per_room per_ip, []) xs in IsCounted c ms
unfolding new_counts
run-IsCounted per_room per_ip xs = steps-IsCounted xs (new_counts per_room per_ip) [] (record {
  rooms = λ id. refl;
  ips = λ id. refl;
  room_within = λ id. omega arith;
  ip_within = λ id. omega arith;
})
