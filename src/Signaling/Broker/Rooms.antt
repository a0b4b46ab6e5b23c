-- ===== src/Signaling/Broker/Rooms.antt =====
-- The rooms of a broker: `ensureRoom`, `replaceRoom`, `add`, `remove` and the clients of `broadcast`. A room is
-- its place among all that were made; `room_id` is the name that it was made for. The two locks of `remove` are
-- two steps, and `forget` is the second one, as it is the whole of `replaceRoom`.
use telekit.Common.{
  ℕ, Bool, true, false, ◌||◌, Option, none, some, List, [], ◌∷◌, ◌++◌, ◌==◌, if◌then◌else◌, length,
  get_elem?, set,
}
use telekit.Common.Entries.{Directory, lookup, insert, remove}

pub record RoomState : Type 0 where
  pub room_id : ℕ
  pub closed : Bool
  pub clients : List ℕ

pub record Rooms : Type 0 where
  pub rooms : Directory
  pub all : List RoomState

-- `newRoomState`
abbrev pub new_room : ℕ → RoomState
new_room id = record { room_id = id; closed = false; clients = [] }

-- `ensureRoom`, for a name that is valid.
unfoldable pub ensure_room : Rooms → ℕ → Rooms × ℕ
ensure_room s id = elim (lookup id s.rooms) [
  | some i ↦ (s, i)
  | none ↦ (
    record { rooms = insert id (length s.all) s.rooms; all = s.all ++ new_room id ∷ [] },
    length s.all,
  )
]

-- `delete` from the set of clients.
abbrev pub without_client : ℕ → List ℕ → List ℕ
without_client k [] = []
without_client k (c ∷ cs) = if c == k then without_client k cs else c ∷ without_client k cs

unfoldable pub add : Rooms → ℕ → ℕ → Rooms × Bool
add s i client = elim (get_elem? s.all i) [
  | none ↦ (s, false)
  | some r ↦ elim r.closed [
    | true ↦ (s, false)
    | false ↦ (
      record s {
        all = set s.all i (record r { clients = client ∷ without_client client r.clients });
      },
      true,
    )
  ]
]

-- `remove` of a room, which tells whether the room is empty.
unfoldable pub remove_client : Rooms → ℕ → ℕ → Rooms × Bool
remove_client s i client = elim (get_elem? s.all i) [
  | none ↦ (s, false)
  | some r ↦
      let clients = without_client client r.clients in
      let empty = length clients == 0 in
      (
        record s { all = set s.all i (record r { clients = clients; closed = r.closed || empty }) },
        empty,
      )
]

abbrev pub leads_to : Option ℕ → ℕ → Bool
leads_to none i = false
leads_to (some j) i = j == i

unfoldable pub forget : Rooms → ℕ → ℕ → Rooms
forget s id i = if leads_to (lookup id s.rooms) i then record s { rooms = remove id s.rooms } else s

-- Whom `broadcast` reaches.
unfoldable pub targets : Rooms → ℕ → List ℕ
targets s id = elim (lookup id s.rooms) [
  | none ↦ []
  | some i ↦ elim (get_elem? s.all i) [ none ↦ [] | some r ↦ r.clients ]
]

pub data Step : Type 0 where
  ensure : ℕ → Step
  enter leave : ℕ → ℕ → Step
  drop : ℕ → Step

-- A room is forgotten, under the name that it was made for, after it was seen closed.
unfoldable pub step : Rooms → Step → Rooms
step s (ensure id) = (ensure_room s id).0
step s (enter i client) = (add s i client).0
step s (leave i client) = (remove_client s i client).0
step s (drop i) = elim (get_elem? s.all i) [
  | none ↦ s
  | some r ↦ elim r.closed [ true ↦ forget s r.room_id i | false ↦ s ]
]

unfoldable pub run : Rooms → List Step → Rooms
run s [] = s
run s (x ∷ xs) = run (step s x) xs
