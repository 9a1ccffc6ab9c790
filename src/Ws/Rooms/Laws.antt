-- ===== src/Ws/Rooms/Laws.antt =====
-- Membership in the rooms of src/ws_session.cpp.
use drogon_r.Prelude.{
  ℕ, ◌≡◌, refl, Bool, true, false, List, [], ◌∷◌, arith, ◌==◌, if◌then◌else◌, Bool-cases, inl, inr,
}
use drogon_r.Prelude.Bytes.{Bytes, bytes_eq, bytes_eq_iff}
use drogon_r.Ws.Rooms.{
  contains, insert_id, erase_id, members, room_join, room_leave, keep_room, drop_from_all_rooms,
}

-- The id is in the room.
abbrev pub is_in : ℕ → Bytes → List (Bytes × List ℕ) → Bool
is_in id room rooms = contains id (members room rooms)

contains-insert_id :
    (x id : ℕ) (xs : List ℕ)
    → contains x (insert_id id xs) ≡ (if id == x then true else contains x xs)
unfolding contains insert_id
contains-insert_id x id xs = elim (Bool-cases (contains id xs)) [
  | inl e ↦ rw (e, insert_id) (ground arith)
  | inr e ↦ rw (e, insert_id) (ground arith)
]

contains-erase_id :
    (x id : ℕ) (xs : List ℕ)
    → contains x (erase_id id xs) ≡ (if id == x then false else contains x xs)
unfolding contains erase_id
contains-erase_id x id [] = ground arith
contains-erase_id x id (y ∷ xs) = ground (arith, contains-erase_id x id xs)

-- After a join the id is in the room, and nothing else has changed.
pub is_in-join :
    (x id : ℕ) (r room : Bytes) (rooms : List (Bytes × List ℕ))
    → is_in x r (room_join room id rooms)
      ≡ (if bytes_eq room r then (if id == x then true else is_in x r rooms) else is_in x r rooms)
unfolding room_join members contains
is_in-join x id r room [] = ground arith
is_in-join x id r room ((name, ids) ∷ rooms) = ground (
  arith,
  contains-insert_id x id ids,
  is_in-join x id r room rooms,
  bytes_eq_iff name room,
  bytes_eq_iff name r,
  bytes_eq_iff room r,
)

-- When its session ends, an id is in no room any more, and nobody else has left one.
pub is_in-drop :
    (x id : ℕ) (r : Bytes) (rooms : List (Bytes × List ℕ))
    → is_in x r (drop_from_all_rooms id rooms) ≡ (if id == x then false else is_in x r rooms)
unfolding drop_from_all_rooms members contains
is_in-drop x id r [] = ground arith
is_in-drop x id r ((name, ids) ∷ rooms) =
    ground (arith, contains-erase_id x id ids, is_in-drop x id r rooms)

-- No two rooms have one name.
abbrev pub IsAbsent : Bytes → List (Bytes × List ℕ) → Type 0
IsAbsent room [] = Unit {0}
IsAbsent room ((name, ids) ∷ rooms) = (bytes_eq name room ≡ false) × IsAbsent room rooms

abbrev pub HasDistinctRooms : List (Bytes × List ℕ) → Type 0
HasDistinctRooms [] = Unit {0}
HasDistinctRooms ((name, ids) ∷ rooms) = IsAbsent name rooms × HasDistinctRooms rooms

members_of_IsAbsent :
    (room : Bytes) (rooms : List (Bytes × List ℕ)) → IsAbsent room rooms → members room rooms ≡ []
unfolding members
members_of_IsAbsent room [] h = refl
members_of_IsAbsent room ((name, ids) ∷ rooms) h =
    ground (arith, members_of_IsAbsent room rooms h.1)

members-keep_room :
    (r name : Bytes) (ids : List ℕ) (rooms : List (Bytes × List ℕ))
    → IsAbsent name rooms
    → members r (keep_room name ids rooms) ≡ (if bytes_eq name r then ids else members r rooms)
unfolding members
members-keep_room r name [] rooms h =
    ground (arith, members_of_IsAbsent name rooms h, bytes_eq_iff name r)
members-keep_room r name (x ∷ ids) rooms h = refl

-- Where the rooms have distinct names, after a leave the id is not in the room, and nothing else has
-- changed, also where the room is erased because it became empty.
pub is_in-leave :
    (x id : ℕ) (r room : Bytes) (rooms : List (Bytes × List ℕ))
    → HasDistinctRooms rooms
    → is_in x r (room_leave room id rooms)
      ≡ (if bytes_eq room r then (if id == x then false else is_in x r rooms) else is_in x r rooms)
unfolding room_leave members contains
is_in-leave x id r room [] h = ground arith
is_in-leave x id r room ((name, ids) ∷ rooms) h = ground (
  arith,
  contains-erase_id x id ids,
  is_in-leave x id r room rooms h.1,
  members-keep_room r name (erase_id id ids) rooms h.0,
  bytes_eq_iff name room,
  bytes_eq_iff name r,
  bytes_eq_iff room r,
)

join-IsAbsent :
    (name room : Bytes) (id : ℕ) (rooms : List (Bytes × List ℕ))
    → bytes_eq room name ≡ false
    → IsAbsent name rooms
    → IsAbsent name (room_join room id rooms)
unfolding room_join
join-IsAbsent name room id [] n h = (n, tt)
join-IsAbsent name room id ((other, ids) ∷ rooms) n h =
    ground (arith, join-IsAbsent name room id rooms n h.1)

-- Joining keeps the names of the rooms distinct.
pub join-HasDistinctRooms :
    (room : Bytes) (id : ℕ) (rooms : List (Bytes × List ℕ))
    → HasDistinctRooms rooms
    → HasDistinctRooms (room_join room id rooms)
unfolding room_join
join-HasDistinctRooms room id [] h = (tt, tt)
join-HasDistinctRooms room id ((name, ids) ∷ rooms) h = elim (Bool-cases (bytes_eq name room)) [
  | inl e ↦ rw (e, room_join) (h.0, h.1)
  | inr e ↦
      rw (e, room_join)
        (
          join-IsAbsent name room id rooms
              (ground (arith, bytes_eq_iff room name, bytes_eq_iff name room)) h.0,
          join-HasDistinctRooms room id rooms h.1,
        )
]
