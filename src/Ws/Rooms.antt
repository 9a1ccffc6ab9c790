-- ===== src/Ws/Rooms.antt =====
-- Rooms of src/ws_session.cpp: named sets of connection ids.
pub mod Laws
pub mod Refinement
use drogon_r.Prelude.{
  ℕ, suc, ◌+◌, Bool, true, false, List, [], ◌∷◌, ◌++◌, Option, none, some, ◌==◌, if◌then◌else◌,
  length,
}
use drogon_r.Prelude.Bytes.{Bytes, bytes_eq}

-- A set of ids: a list in which each stands once.
unfoldable pub contains : ℕ → List ℕ → Bool
contains id [] = false
contains id (x ∷ xs) = if x == id then true else contains id xs

unfoldable pub insert_id : ℕ → List ℕ → List ℕ
unfolding contains
insert_id id xs = if contains id xs then xs else id ∷ xs

unfoldable pub erase_id : ℕ → List ℕ → List ℕ
erase_id id [] = []
erase_id id (x ∷ xs) = if x == id then erase_id id xs else x ∷ erase_id id xs

-- The members of a room; a missing room has none.
unfoldable pub members : Bytes → List (Bytes × List ℕ) → List ℕ
members room [] = []
members room ((name, ids) ∷ rooms) = if bytes_eq name room then ids else members room rooms

-- `g_wsRooms[room].insert(id)`.
unfoldable pub room_join : Bytes → ℕ → List (Bytes × List ℕ) → List (Bytes × List ℕ)
room_join room id [] = (room, id ∷ []) ∷ []
room_join room id ((name, ids) ∷ rooms) =
    if bytes_eq name room
    then (name, insert_id id ids) ∷ rooms
    else (name, ids) ∷ room_join room id rooms

abbrev pub keep_room : Bytes → List ℕ → List (Bytes × List ℕ) → List (Bytes × List ℕ)
keep_room name [] rooms = rooms
keep_room name (x ∷ ids) rooms = (name, x ∷ ids) ∷ rooms

-- A room that becomes empty is erased.
unfoldable pub room_leave : Bytes → ℕ → List (Bytes × List ℕ) → List (Bytes × List ℕ)
room_leave room id [] = []
room_leave room id ((name, ids) ∷ rooms) =
    if bytes_eq name room
    then keep_room name (erase_id id ids) rooms
    else (name, ids) ∷ room_leave room id rooms

unfoldable pub drop_from_all_rooms : ℕ → List (Bytes × List ℕ) → List (Bytes × List ℕ)
drop_from_all_rooms id [] = []
drop_from_all_rooms id ((name, ids) ∷ rooms) =
    (name, erase_id id ids) ∷ drop_from_all_rooms id rooms
