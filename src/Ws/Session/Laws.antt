-- ===== src/Ws/Session/Laws.antt =====
-- The end of a connection in src/ws_session.cpp, and what a broadcast reaches.
use drogon_r.Prelude.{
  ℕ, suc, ◌+◌, ◌≡◌, refl, sym, ap, ◌∙◌, Bool, List, [], ◌∷◌, ◌++◌, none, some, arith, length,
  append-nil, append_assoc, Option-cases, inl, inr,
}
use drogon_r.Prelude.Bytes.{Bytes}
use drogon_r.Prelude.Table.{find, find-erase, find-modify_self}
use drogon_r.Ws.{WsSession, World, LoopTask, send_frame, find_ws_session}
use drogon_r.Ws.Rooms.{erase_id, drop_from_all_rooms, members}
use drogon_r.Ws.Session.{
  erase_ws_session, open_session, send_to_conn, set_closing, ws_close, send_all, room_broadcast,
}

erase_id_idem : (id : ℕ) (xs : List ℕ) → erase_id id (erase_id id xs) ≡ erase_id id xs
unfolding erase_id
erase_id_idem id [] = refl
erase_id_idem id (x ∷ xs) = ground (arith, erase_id_idem id xs)

drop_idem :
    (id : ℕ) (rooms : List (Bytes × List ℕ))
    → drop_from_all_rooms id (drop_from_all_rooms id rooms) ≡ drop_from_all_rooms id rooms
unfolding drop_from_all_rooms
drop_idem id [] = refl
drop_idem id ((name, ids) ∷ rooms) = ground (arith, drop_idem id rooms, erase_id_idem id ids)

-- After the erasure there is no session of the id.
pub find-erase_session : (id : ℕ) (w : World) → find id (erase_ws_session id w).sessions ≡ none
unfolding erase_ws_session find_ws_session
find-erase_session id w = ground (arith, find-erase id id w.sessions)

-- Erasing a session a second time changes nothing: the slot is given back once.
pub erase_ws_session_idem :
    (id : ℕ) (w : World) → erase_ws_session id (erase_ws_session id w) ≡ erase_ws_session id w
unfolding erase_ws_session find_ws_session
erase_ws_session_idem id w = ground (arith, find-erase id id w.sessions, drop_idem id w.rooms)

pub open_session-close : (id : ℕ) (w : World) → open_session id (ws_close id w) ≡ none
unfolding open_session ws_close find_ws_session
open_session-close id w = elim (Option-cases (find id w.sessions)) [
  | inl e ↦ ground arith
  | inr (s, e) ↦ ground (arith, find-modify_self id set_closing w.sessions s e)
]

-- One frame for each member with an open session, in the order of the members.
abbrev pub frames : List ℕ → Bytes → Bool → World → List LoopTask
frames [] bytes binary w = []
frames (id ∷ ids) bytes binary w = elim (open_session id w) [
  | none ↦ frames ids bytes binary w
  | some s ↦ send_frame s.conn bytes binary ∷ frames ids bytes binary w
]

-- The members that no open session answers to.
abbrev pub gone : List ℕ → World → ℕ
gone [] w = 0
gone (id ∷ ids) w = elim (open_session id w) [ none ↦ suc (gone ids w) | some s ↦ gone ids w ]

open_session-tasks :
    (id : ℕ) (w : World) (ts : List LoopTask)
    → open_session id (record w { tasks = ts }) ≡ open_session id w
unfolding open_session find_ws_session
open_session-tasks id w ts = refl

frames-tasks :
    (ids : List ℕ) (bytes : Bytes) (binary : Bool) (w : World) (ts : List LoopTask)
    → frames ids bytes binary (record w { tasks = ts }) ≡ frames ids bytes binary w
frames-tasks [] bytes binary w ts = refl
frames-tasks (id ∷ ids) bytes binary w ts =
    ground (arith, open_session-tasks id w ts, frames-tasks ids bytes binary w ts)

send_to_conn-none :
    (id : ℕ) (bytes : Bytes) (binary : Bool) (w : World)
    → open_session id w ≡ none
    → send_to_conn id bytes binary w ≡ w
unfolding send_to_conn
send_to_conn-none id bytes binary w e = rw (e, send_to_conn)

send_to_conn-some :
    (id : ℕ) (bytes : Bytes) (binary : Bool) (w : World) (s : WsSession)
    → open_session id w ≡ some s
    → send_to_conn id bytes binary w
      ≡ record w { tasks = w.tasks ++ send_frame s.conn bytes binary ∷ [] }
unfolding send_to_conn
send_to_conn-some id bytes binary w s e = rw (e, send_to_conn)

pub send_all-frames :
    (ids : List ℕ) (bytes : Bytes) (binary : Bool) (w : World)
    → send_all ids bytes binary w ≡ record w { tasks = w.tasks ++ frames ids bytes binary w }
unfolding send_all
send_all-frames [] bytes binary w = ap (λ ts. record w { tasks = ts }) (sym (append-nil w.tasks))
send_all-frames (id ∷ ids) bytes binary w = elim (Option-cases (open_session id w)) [
  | inl e ↦
      ap (send_all ids bytes binary) (send_to_conn-none id bytes binary w e)
      ∙ send_all-frames ids bytes binary w
      ∙ ap (λ ts. record w { tasks = ts }) (ground arith)
  | inr (s, e) ↦
      let f = send_frame s.conn bytes binary in
      let w' : World = record w { tasks = w.tasks ++ f ∷ [] } in
      ap (send_all ids bytes binary) (send_to_conn-some id bytes binary w s e)
      ∙ send_all-frames ids bytes binary w'
      ∙ ap (λ ts. record w { tasks = ts })
          (ground (
            arith,
            frames-tasks ids bytes binary w (w.tasks ++ f ∷ []),
            append_assoc w.tasks (f ∷ []) (frames ids bytes binary w),
          ))
]

count-frames :
    (ids : List ℕ) (bytes : Bytes) (binary : Bool) (w : World)
    → length ids ≡ length (frames ids bytes binary w) + gone ids w
count-frames [] bytes binary w = omega arith
count-frames (id ∷ ids) bytes binary w = ground (arith, count-frames ids bytes binary w)

-- A broadcast queues one frame for each member of the room that has an open session, and changes
-- nothing else. The number that it returns is that of all members: the frames it has queued and the
-- members whose session is gone or closing.
pub room_broadcast_lem :
    (room bytes : Bytes) (binary : Bool) (w : World)
    → ((room_broadcast room bytes binary w).0
        ≡ record w { tasks = w.tasks ++ frames (members room w.rooms) bytes binary w })
      × ((room_broadcast room bytes binary w).1
          ≡ length (frames (members room w.rooms) bytes binary w) + gone (members room w.rooms) w)
unfolding room_broadcast
room_broadcast_lem room bytes binary w = (
  send_all-frames (members room w.rooms) bytes binary w,
  count-frames (members room w.rooms) bytes binary w,
)
