-- ===== src/Sessions/Requests.antt =====
-- app.py: what the browser sends to a terminal, over HTTP and over the WebSocket, and the rooms of a
-- WebSocket client. The calls on the PTY are returned; whether they succeed is given. The lookup in
-- the table and the change of the session are one step here.
pub mod KeepAlive
use coding_agents_databricks.Base.{
  ℕ, String, Bool, true, false, ◌&&◌, not, Option, none, some, List, [], ◌∷◌, ltb, any, ◌==◌,
  string_has_eq, if◌then◌else◌,
}
use coding_agents_databricks.Base.Int.{ℤ, pos, negsuc}
use coding_agents_databricks.Base.Dict.{Dict, find, pop}
use coding_agents_databricks.Sessions.{Session, on_session}

-- `os.write`, and the `ioctl` that sets the size
pub data PtyCall : Type 0 where
  write_input : ℕ → String → PtyCall
  set_size : ℕ → ℤ → ℤ → PtyCall

-- Does `struct.pack("H", n)` take the number?
abbrev pub fits_short : ℤ → Bool
fits_short (pos n) = ltb n 65536
fits_short (negsuc n) = false

-- the call that a size makes; of one that does not fit, `struct.pack` raises
unfoldable pub resize_calls : ℕ → ℤ → ℤ → List PtyCall
resize_calls fd rows cols =
    if fits_short rows && fits_short cols then set_size fd rows cols ∷ [] else []

-- `send_input`: the status, and the calls on the PTY
unfoldable pub send_input : Bool → String → String → Dict Session → ℕ × List PtyCall
send_input works session_id input d = elim (find session_id d) [
  | none ↦ (404, [])
  | some s ↦ (if works then 200 else 500, write_input s.master_fd input ∷ [])
]

-- `resize_terminal`; an exception of `struct.pack` is a 500 as well
unfoldable pub resize_terminal : Bool → String → ℤ → ℤ → Dict Session → ℕ × List PtyCall
resize_terminal works session_id rows cols d = elim (find session_id d) [
  | none ↦ (404, [])
  | some s ↦ (
    if fits_short rows && fits_short cols && works then 200 else 500,
    resize_calls s.master_fd rows cols,
  )
]

-- `close_session`, of which the table sees the removal by `terminate_session`
unfoldable pub close_session : Option String → Dict Session → ℕ × Dict Session
close_session none d = (400, d)
close_session (some session_id) d =
    if session_id == ""
    then (400, d)
    else elim (find session_id d) [ none ↦ (200, d) | some s ↦ (200, pop session_id d) ]

-- the session after a sign of life
abbrev pub touched : ℕ → Session → Session
touched now s = record s { last_poll_time = now }

-- the session of a client that joins, without the output that it has already
abbrev pub joined : ℕ → Session → Session
joined now s = record s { last_poll_time = now; output_buffer = [] }

-- `join_room` and `leave_room`
unfoldable pub enter_room : String → List String → List String
enter_room session_id rooms = if any (λ r. r == session_id) rooms then rooms else session_id ∷ rooms

unfoldable pub exit_room : String → List String → List String
exit_room session_id [] = []
exit_room session_id (r ∷ rooms) =
    let rest = exit_room session_id rooms in if r == session_id then rest else r ∷ rest

-- `handle_join_session`: did the client join, the table, and its rooms
unfoldable pub handle_join_session :
    Option String → ℕ → Dict Session → List String → Bool × Dict Session × List String
handle_join_session none now d rooms = (false, d, rooms)
handle_join_session (some session_id) now d rooms =
    if session_id == "" then (false, d, rooms) else elim (find session_id d) [
      | none ↦ (false, d, rooms)
      | some s ↦ (true, on_session session_id (joined now) d, enter_room session_id rooms)
    ]

-- `handle_leave_session`
unfoldable pub handle_leave_session : Option String → List String → List String
handle_leave_session none rooms = rooms
handle_leave_session (some session_id) rooms =
    if session_id == "" then rooms else exit_room session_id rooms

-- `handle_terminal_input`
unfoldable pub handle_terminal_input :
    String → String → ℕ → Dict Session → Dict Session × List PtyCall
handle_terminal_input session_id input now d = elim (find session_id d) [
  | none ↦ (d, [])
  | some s ↦ (on_session session_id (touched now) d, write_input s.master_fd input ∷ [])
]

-- `handle_terminal_resize`
unfoldable pub handle_terminal_resize :
    String → ℤ → ℤ → ℕ → Dict Session → Dict Session × List PtyCall
handle_terminal_resize session_id rows cols now d = elim (find session_id d) [
  | none ↦ (d, [])
  | some s ↦ (on_session session_id (touched now) d, resize_calls s.master_fd rows cols)
]

-- `handle_ws_heartbeat`
unfoldable pub handle_ws_heartbeat : List String → ℕ → Dict Session → Dict Session
handle_ws_heartbeat [] now d = d
handle_ws_heartbeat (session_id ∷ session_ids) now d =
    handle_ws_heartbeat session_ids now (on_session session_id (touched now) d)
