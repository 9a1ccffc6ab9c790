-- ===== src/Ws/Entry.antt =====
-- The .Call entry points of src/ws_session.cpp: drogonR_register_ws_cpp with reqNonNegNum, and the
-- checks of drogonR_ws_send, drogonR_ws_close, drogonR_ws_join, drogonR_ws_leave and
-- drogonR_ws_broadcast. `Rf_error` is `none`; the conversion of an id to 64 bits is an argument.
use drogon_r.Prelude.{ℕ, Bool, true, false, ◌||◌, [], ◌∷◌, Option, none, some, if◌then◌else◌, ◌>>=◌}
use drogon_r.Prelude.Sexp.{Sexp, reals, integers, ℤ, Real, na_real, nan, id_of, is_true}
use drogon_r.Server.Tables.{address_of}
use drogon_r.Ws.{World}
use drogon_r.Ws.Session.{send_to_conn, ws_close, ws_join, ws_leave, room_broadcast}
use drogon_r.Ws.Routes.{add_ws_route, single_string}

-- The arithmetic on doubles: an `int` as a double, `v < 0`, `(int)(v + 0.5)` and
-- `(int64_t)(v * 1000.0 + 0.5)`, the last two of which are used on what is not negative.
pub record Arithmetic : Type 0 where
  pub to_double : ℤ → Real
  pub negative : Real → Bool
  pub whole : Real → ℕ
  pub millis : Real → ℕ

abbrev pub is_nan : Real → Bool
is_nan na_real = true
is_nan nan = true
is_nan x = false

abbrev pub non_negative : Arithmetic → Real → Option Real
non_negative m v = if is_nan v || m.negative v then none else some v

unfoldable pub req_non_neg_num : Arithmetic → Sexp → Option Real
req_non_neg_num m (reals a (x ∷ [])) = non_negative m x
req_non_neg_num m (integers a (i ∷ [])) = non_negative m (m.to_double i)
req_non_neg_num m x = none

unfoldable pub register_ws_cpp :
    Arithmetic → Bool → Sexp → Sexp → Sexp → Sexp → Sexp → World → Option (World × ℕ)
unfolding single_string req_non_neg_num add_ws_route
register_ws_cpp m running path ptr max_conns idle_timeout max_lifetime w =
    if running
    then none
    else (single_string path >>= λ p. address_of ptr >>= λ fn.
        req_non_neg_num m max_conns >>= λ conns. req_non_neg_num m idle_timeout >>= λ idle.
        req_non_neg_num m max_lifetime >>= λ life. some (
          add_ws_route
            (record {
              path = p;
              on_connect = none;
              on_message = none;
              on_close = none;
              cpp_fn = some fn;
              max_conns = m.whole conns;
              idle_ms = m.millis idle;
              lifetime_ms = m.millis life;
              live = 0;
            })
            w))

module _ (to_uint64 : Real → ℕ) where
  unfoldable pub ws_send_entry : Sexp → Sexp → Sexp → World → Option World
  unfolding single_string send_to_conn
  ws_send_entry conn_id msg binary w = id_of to_uint64 conn_id >>= λ id.
      single_string msg >>= λ text. some (send_to_conn id text (is_true binary) w)

  unfoldable pub ws_close_entry : Sexp → World → Option World
  unfolding ws_close
  ws_close_entry conn_id w = id_of to_uint64 conn_id >>= λ id. some (ws_close id w)

  unfoldable pub ws_join_entry : Sexp → Sexp → World → Option World
  unfolding single_string ws_join
  ws_join_entry room conn_id w =
      single_string room >>= λ name. id_of to_uint64 conn_id >>= λ id. some (ws_join name id w)

  unfoldable pub ws_leave_entry : Sexp → Sexp → World → Option World
  unfolding single_string ws_leave
  ws_leave_entry room conn_id w =
      single_string room >>= λ name. id_of to_uint64 conn_id >>= λ id. some (ws_leave name id w)

unfoldable pub ws_broadcast : Sexp → Sexp → Sexp → World → Option (World × ℕ)
unfolding single_string room_broadcast
ws_broadcast room msg binary w = single_string room >>= λ name.
    single_string msg >>= λ text. some (room_broadcast name text (is_true binary) w)
