-- ===== src/Sessions/Polling.antt =====
-- app.py: output of a session on its way to the browser, keep-alive, and the thread that removes
-- stale sessions. A handler's lookup and its change of the session are one step here.
pub mod Output
pub mod Batch
pub mod Stale
use Prim.Native.String.{◌++◌ as str_append}
use coding_agents_databricks.Base.{
  ℕ, ◌-◌, ◌*◌, String, Bool, true, false, Option, none, some, List, [], ◌∷◌, ◌++◌, length, ltb,
  ◌==◌, string_has_eq, if◌then◌else◌,
}
use coding_agents_databricks.Base.Dict.{Dict, find, store, pop}
use coding_agents_databricks.Sessions.{Session, on_session}

-- `SESSION_TIMEOUT_SECONDS`, in seconds, and the `maxlen` of an output buffer
abbrev pub session_timeout_seconds : ℕ
session_timeout_seconds = 86400

abbrev pub max_chunks : ℕ
max_chunks = 1000

-- `"".join(chunks)`
unfoldable pub join : List String → String
join [] = ""
join (chunk ∷ chunks) = str_append chunk (join chunks)

-- `deque(maxlen=n).append(x)`, which drops the first element of a list that has become too long
unfoldable pub trim {ℓ} : {A : Type ℓ} → ℕ → List A → List A
trim n [] = []
trim n (x ∷ xs) = if ltb n (length (x ∷ xs)) then xs else x ∷ xs

unfoldable pub append_bounded {ℓ} : {A : Type ℓ} → ℕ → List A → A → List A
append_bounded n xs x = trim n (xs ++ x ∷ [])

unfoldable pub buffer_output : ℕ → String → Session → Session
buffer_output now decoded s = record s {
  output_buffer = append_bounded max_chunks s.output_buffer decoded;
  last_poll_time = now;
}

-- `emit_output` of the reader thread, without the push to the WebSocket
unfoldable pub emit_output : String → ℕ → String → Dict Session → Dict Session
emit_output session_id now decoded d =
    if decoded == "" then d else on_session session_id (buffer_output now decoded) d

-- the session after a poll
unfoldable pub drained : ℕ → Session → Session
drained now s = record s { last_poll_time = now; output_buffer = []; timeout_warning = false }

-- `output` and `timeout_warning` of an answer
unfoldable pub output_of : Session → String × Bool
output_of s = (join s.output_buffer, s.timeout_warning)

-- `get_output`; no answer stands for 404
unfoldable pub get_output : String → ℕ → Dict Session → Option (String × Bool) × Dict Session
get_output session_id now d = elim (find session_id d) [
  | none ↦ (none, d)
  | some s ↦ (some (output_of s), store session_id (drained now s) d)
]

-- the first step of `get_output_batch`: the sessions of the ids that are in the table
unfoldable pub resolve : List String → Dict Session → Dict Session → Dict Session
resolve [] d resolved = resolved
resolve (sid ∷ sids) d resolved = elim (find sid d) [
  | none ↦ resolve sids d resolved
  | some s ↦ resolve sids d (store sid s resolved)
]

-- the second and the third step: the buffers are swapped, and the old ones joined
unfoldable pub swap_buffers :
    ℕ → Dict Session → Dict (String × Bool) → Dict Session → Dict (String × Bool) × Dict Session
swap_buffers now [] outputs d = (outputs, d)
swap_buffers now ((sid, s) ∷ resolved) outputs d =
    swap_buffers now resolved (store sid (output_of s) outputs) (store sid (drained now s) d)

-- `get_output_batch`, on the `session_ids` of a request that has them
unfoldable pub get_output_batch :
    List String → ℕ → Dict Session → Dict (String × Bool) × Dict Session
get_output_batch session_ids now d = swap_buffers now (resolve session_ids d []) [] d

-- `heartbeat`; no answer stands for 404
unfoldable pub heartbeat : String → ℕ → Dict Session → Option Bool × Dict Session
heartbeat session_id now d = elim (find session_id d) [
  | none ↦ (none, d)
  | some s ↦ (
    some s.timeout_warning,
    store session_id (record s { last_poll_time = now; timeout_warning = false }) d,
  )
]

-- `attach_session`; of its answer, the output to replay
unfoldable pub attach_session : String → ℕ → Dict Session → Option (List String) × Dict Session
attach_session session_id now d = elim (find session_id d) [
  | none ↦ (none, d)
  | some s ↦ (some s.output_buffer, store session_id (record s { last_poll_time = now }) d)
]

-- `now - session["last_poll_time"]`; a difference below 0, which no test tells from 0, is 0
unfoldable pub idle : ℕ → Session → ℕ
idle now s = now - s.last_poll_time

-- the warning of a session that was idle for more than 0.8 of the timeout
unfoldable pub warned : ℕ → Session → Session
warned now s =
    if ltb (4 * session_timeout_seconds) (5 * idle now s)
    then record s { timeout_warning = true }
    else s

-- the round over the snapshot: the ids that are stale, and the table with the warnings
unfoldable pub sweep : ℕ → Dict Session → List String × Dict Session
sweep now [] = ([], [])
sweep now ((session_id, s) ∷ d) =
    let (stale, rest) = sweep now d in
    if ltb session_timeout_seconds (idle now s)
    then (session_id ∷ stale, (session_id, s) ∷ rest)
    else (stale, (session_id, warned now s) ∷ rest)

-- `terminate_session` of each stale session, of which the table sees the removal
unfoldable pub terminate_all : List String → Dict Session → Dict Session
terminate_all [] d = d
terminate_all (session_id ∷ stale) d = terminate_all stale (pop session_id d)

-- one iteration of `cleanup_stale_sessions`
unfoldable pub cleanup_stale_sessions : ℕ → Dict Session → Dict Session
cleanup_stale_sessions now d = let (stale, d') = sweep now d in terminate_all stale d'
