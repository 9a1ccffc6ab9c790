-- ===== src/Ws/Rooms/Refinement.antt =====
-- The rooms of src/ws_session.cpp against what they stand for: a relation of ids and names, in which
-- there is no order, no empty room and no list.
use drogon_r.Prelude.{
  ℕ, ◌≡◌, Bool, false, ◌||◌, ◌&&◌, not, List, [], ◌∷◌, arith, ◌==◌, Bool-cases, inl, inr,
}
use drogon_r.Prelude.Bytes.{Bytes, bytes_eq}
use drogon_r.Ws.Rooms.{room_join, room_leave, keep_room, erase_id, drop_from_all_rooms}
use drogon_r.Ws.Rooms.Laws.{
  is_in, is_in-join, is_in-leave, is_in-drop, IsAbsent, HasDistinctRooms, join-HasDistinctRooms,
}

pub data RoomOp : Type 0 where
  joins leaves : Bytes → ℕ → RoomOp
  drops : ℕ → RoomOp

abbrev pub run_op : RoomOp → List (Bytes × List ℕ) → List (Bytes × List ℕ)
run_op (joins room id) rooms = room_join room id rooms
run_op (leaves room id) rooms = room_leave room id rooms
run_op (drops id) rooms = drop_from_all_rooms id rooms

abbrev pub run_ops : List RoomOp → List (Bytes × List ℕ) → List (Bytes × List ℕ)
run_ops [] rooms = rooms
run_ops (op ∷ ops) rooms = run_ops ops (run_op op rooms)

abbrev pub Membership : Type 0
Membership = ℕ → Bytes → Bool

-- The pair that an operation names.
abbrev pub concerns : Bytes → ℕ → ℕ → Bytes → Bool
concerns room id x r = bytes_eq room r && (id == x)

abbrev pub spec_op : RoomOp → Membership → Membership
spec_op (joins room id) m x r = m x r || concerns room id x r
spec_op (leaves room id) m x r = m x r && not (concerns room id x r)
spec_op (drops id) m x r = m x r && not (id == x)

abbrev pub spec_ops : List RoomOp → Membership → Membership
spec_ops [] m = m
spec_ops (op ∷ ops) m = spec_ops ops (spec_op op m)

drop-IsAbsent :
    (name : Bytes) (id : ℕ) (rooms : List (Bytes × List ℕ))
    → IsAbsent name rooms
    → IsAbsent name (drop_from_all_rooms id rooms)
unfolding drop_from_all_rooms
drop-IsAbsent name id [] h = tt
drop-IsAbsent name id ((other, ids) ∷ rooms) h = (h.0, drop-IsAbsent name id rooms h.1)

drop-HasDistinctRooms :
    (id : ℕ) (rooms : List (Bytes × List ℕ))
    → HasDistinctRooms rooms
    → HasDistinctRooms (drop_from_all_rooms id rooms)
unfolding drop_from_all_rooms
drop-HasDistinctRooms id [] h = tt
drop-HasDistinctRooms id ((name, ids) ∷ rooms) h =
    (drop-IsAbsent name id rooms h.0, drop-HasDistinctRooms id rooms h.1)

keep_room-IsAbsent :
    (name other : Bytes) (ids : List ℕ) (rooms : List (Bytes × List ℕ))
    → bytes_eq other name ≡ false
    → IsAbsent name rooms
    → IsAbsent name (keep_room other ids rooms)
keep_room-IsAbsent name other [] rooms n h = h
keep_room-IsAbsent name other (x ∷ ids) rooms n h = (n, h)

leave-IsAbsent :
    (name room : Bytes) (id : ℕ) (rooms : List (Bytes × List ℕ))
    → IsAbsent name rooms
    → IsAbsent name (room_leave room id rooms)
unfolding room_leave
leave-IsAbsent name room id [] h = tt
leave-IsAbsent name room id ((other, ids) ∷ rooms) h = elim (Bool-cases (bytes_eq other room)) [
  | inl e ↦ rw (e, room_leave) (keep_room-IsAbsent name other (erase_id id ids) rooms h.0 h.1)
  | inr e ↦ rw (e, room_leave) (h.0, leave-IsAbsent name room id rooms h.1)
]

keep_room-HasDistinctRooms :
    (name : Bytes) (ids : List ℕ) (rooms : List (Bytes × List ℕ))
    → IsAbsent name rooms
    → HasDistinctRooms rooms
    → HasDistinctRooms (keep_room name ids rooms)
keep_room-HasDistinctRooms name [] rooms a h = h
keep_room-HasDistinctRooms name (x ∷ ids) rooms a h = (a, h)

leave-HasDistinctRooms :
    (room : Bytes) (id : ℕ) (rooms : List (Bytes × List ℕ))
    → HasDistinctRooms rooms
    → HasDistinctRooms (room_leave room id rooms)
unfolding room_leave
leave-HasDistinctRooms room id [] h = tt
leave-HasDistinctRooms room id ((name, ids) ∷ rooms) h = elim (Bool-cases (bytes_eq name room)) [
  | inl e ↦ rw (e, room_leave) (keep_room-HasDistinctRooms name (erase_id id ids) rooms h.0 h.1)
  | inr e ↦
      rw (e, room_leave)
        (leave-IsAbsent name room id rooms h.0, leave-HasDistinctRooms room id rooms h.1)
]

run_op-HasDistinctRooms :
    (op : RoomOp) (rooms : List (Bytes × List ℕ))
    → HasDistinctRooms rooms
    → HasDistinctRooms (run_op op rooms)
run_op-HasDistinctRooms (joins room id) rooms h = join-HasDistinctRooms room id rooms h
run_op-HasDistinctRooms (leaves room id) rooms h = leave-HasDistinctRooms room id rooms h
run_op-HasDistinctRooms (drops id) rooms h = drop-HasDistinctRooms id rooms h

run_op-refines :
    (op : RoomOp) (rooms : List (Bytes × List ℕ)) (m : Membership)
    → HasDistinctRooms rooms
    → ((x : ℕ) (r : Bytes) → is_in x r rooms ≡ m x r)
    → (x : ℕ) (r : Bytes) → is_in x r (run_op op rooms) ≡ spec_op op m x r
run_op-refines (joins room id) rooms m h e x r = ground (arith, is_in-join x id r room rooms, e x r)
run_op-refines (leaves room id) rooms m h e x r =
    ground (arith, is_in-leave x id r room rooms h, e x r)
run_op-refines (drops id) rooms m h e x r = ground (arith, is_in-drop x id r rooms, e x r)

-- Any joins, leaves and ends of sessions, on rooms of distinct names that stand for a relation, leave
-- rooms that stand for what the relation becomes: a join adds one pair, a leave takes one away, and
-- the end of a session all pairs of its id.
pub rooms-refine :
    (ops : List RoomOp) (rooms : List (Bytes × List ℕ)) (m : Membership)
    → HasDistinctRooms rooms
    → ((x : ℕ) (r : Bytes) → is_in x r rooms ≡ m x r)
    → (x : ℕ) (r : Bytes) → is_in x r (run_ops ops rooms) ≡ spec_ops ops m x r
rooms-refine [] rooms m h e x r = e x r
rooms-refine (op ∷ ops) rooms m h e x r =
    rooms-refine ops (run_op op rooms) (spec_op op m) (run_op-HasDistinctRooms op rooms h)
      (run_op-refines op rooms m h e) x r
