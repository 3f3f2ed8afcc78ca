-- ===== src/Tests/Requests.antt =====
-- Input of the browser at concrete inputs: app.py.
use coding_agents_databricks.Base.{◌≡◌, refl, true, some, [], ◌∷◌, string_has_eq, arith}
use coding_agents_databricks.Base.Int.{pos, negsuc}
use coding_agents_databricks.Base.Dict.{Dict, find, store, pop}
use coding_agents_databricks.Sessions.{Session, new_session, on_session}
use coding_agents_databricks.Sessions.Requests.{
  send_input, resize_terminal, resize_calls, close_session, enter_room, handle_join_session,
  handle_ws_heartbeat, handle_terminal_input, handle_terminal_resize,
}
use coding_agents_databricks.Sessions.Requests.KeepAlive.{IsKept, websocket_keeps_alive}

abbrev table : Dict Session
table = ("a", new_session 17 4 "shell" 5) ∷ ("b", new_session 18 6 "shell" 5) ∷ []

-- Closing is done once, and a size below 0 is refused without a call.
closed_once :
    (close_session (some "a") table ≡ (200, ("b", new_session 18 6 "shell" 5) ∷ []))
    × ((send_input true "c" "ls" table) ≡ (404, []))
    × (resize_terminal true "a" (negsuc 0) (pos 80) table ≡ (500, []))
unfolding close_session send_input resize_terminal resize_calls find pop
closed_once = (refl, refl, refl)

-- A client that joins does not get the output twice.
joins :
    handle_join_session
      (some "b")
      9
      (store "b" (record (new_session 18 6 "shell" 5) { output_buffer = "x" ∷ [] }) table)
      []
    ≡ (
      true,
      ("a", new_session 17 4 "shell" 5)
          ∷ ("b", record (new_session 18 6 "shell" 5) { last_poll_time = 9 })
          ∷ [],
      "b" ∷ [],
    )
unfolding handle_join_session on_session enter_room find store new_session
joins = refl

websocket_keeps_alive_example :
    IsKept 86400 "b" (handle_ws_heartbeat ("a" ∷ "b" ∷ []) 100 table)
    × IsKept 86400 "b" (handle_terminal_input "b" "ls" 100 table).0
    × IsKept 86400 "b" (handle_terminal_resize "b" (pos 24) (pos 80) 100 table).0
unfolding find
websocket_keeps_alive_example =
    websocket_keeps_alive ("a" ∷ "b" ∷ []) "b" "ls" (pos 24) (pos 80) 100 86400 table
      (new_session 18 6 "shell" 5) (refl, (refl, tt)) refl refl (omega arith)
