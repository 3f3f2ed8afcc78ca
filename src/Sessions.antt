-- ===== src/Sessions.antt =====
-- app.py: the table of browser sessions, under its global lock, and the reservation of a slot while
-- a session is launched. Times are whole clock ticks since the epoch; PTYs, processes and threads
-- are not modelled, but for whether launching them succeeds.
pub mod Creation
pub mod Slots
pub mod Polling
pub mod Requests
use coding_agents_databricks.Base.{
  ℕ, ◌+◌, ◌-◌, ◌*◌, String, Bool, true, false, Option, none, some, List, [], ◌∷◌, ◌++◌, length, ltb,
  if◌then◌else◌,
}
use coding_agents_databricks.Base.Dict.{Dict, find, store, pop}
use coding_agents_databricks.Capacity.Cgroup.{CgroupMemory}
use coding_agents_databricks.Capacity.Controller.{Floats, Controller, CapacityDecision, evaluate}

-- One entry of `sessions`. `exited` is read by the handlers and never set, so it is left out;
-- `timeout_warning` is the key that `session.pop("timeout_warning", False)` takes.
pub record Session : Type 0 where
  pub pid : ℕ
  pub master_fd : ℕ
  pub label : String
  pub created_at : ℕ
  pub last_poll_time : ℕ
  pub output_buffer : List String
  pub timeout_warning : Bool

-- the entry that `create_session` inserts
unfoldable pub new_session : ℕ → ℕ → String → ℕ → Session
new_session pid master_fd label now = record {
  pid = pid;
  master_fd = master_fd;
  label = label;
  created_at = now;
  last_poll_time = now;
  output_buffer = [];
  timeout_warning = false;
}

-- A change of the session under a key, if there is one.
unfoldable pub on_session : String → (Session → Session) → Dict Session → Dict Session
on_session session_id f d = elim (find session_id d) [
  | none ↦ d
  | some s ↦ store session_id (f s) d
]

-- The answer of `create_session`: 200, 429 and 500.
pub data Response : Type 0 where
  created : String → Response
  too_many server_error : Response

-- What the launch between the two locked sections comes to: an exception, or a child with its PTY,
-- under a new id and with its entry, whose reader thread then starts or does not.
pub data Launch : Type 0 where
  launch_failed : Launch
  launched : String → Session → Bool → Launch

-- `F` is the floats, and `max_sessions` is `MAX_CONCURRENT_SESSIONS`.
module _ (F : Floats) (max_sessions : ℕ) where
  pub record Server : Type 0 where
    pub sessions : Dict Session
    pub browser_pending : ℕ
    pub capacity : Controller F

  -- `_browser_capacity.evaluate` under the lock of the table, with a number of pending launches
  unfoldable pub evaluate_capacity : CgroupMemory → ℕ → Server → CapacityDecision × Server
  evaluate_capacity memory pending s =
      let (decision, c) = evaluate F s.capacity memory (length s.sessions) max_sessions pending in
      (decision, record s { capacity = c })

  -- the first locked section of `create_session`: was a slot reserved?
  unfoldable pub reserve_slot : CgroupMemory → Server → Bool × Server
  reserve_slot memory s =
      let (decision, s') = evaluate_capacity memory s.browser_pending s in
      if decision.allowed
      then (true, record s' { browser_pending = s'.browser_pending + 1 })
      else (false, s')

  -- the second locked section: was the session inserted?
  unfoldable pub insert_session : CgroupMemory → String → Session → Server → Bool × Server
  insert_session memory session_id session s =
      let (decision, s') = evaluate_capacity memory (s.browser_pending - 1) s in
      let free = record s' { browser_pending = s'.browser_pending - 1 } in
      if decision.allowed
      then (true, record free { sessions = store session_id session free.sessions })
      else (false, free)

  -- the `finally` block of a request that still holds its slot
  unfoldable pub release_slot : Server → Server
  release_slot s = record s { browser_pending = s.browser_pending - 1 }

  -- `sessions.pop(session_id, None)`, of `terminate_session` and of a reader that did not start
  unfoldable pub drop_session : String → Server → Server
  drop_session session_id s = record s { sessions = pop session_id s.sessions }

  -- the start of the reader thread, for a session that was inserted
  unfoldable pub start_reader : String → Bool → Bool × Server → Response × Server
  start_reader session_id true (true, s) = (created session_id, s)
  start_reader session_id false (true, s) = (server_error, drop_session session_id s)
  start_reader session_id starts (false, s) = (too_many, s)

  -- what `create_session` does once the child was launched or was not
  unfoldable pub finish_launch : CgroupMemory → Launch → Server → Response × Server
  finish_launch memory launch_failed s = (server_error, release_slot s)
  finish_launch memory (launched session_id session starts) s =
      start_reader session_id starts (insert_session memory session_id session s)

  -- `create_session` after its first locked section
  unfoldable pub launch_reserved :
      CgroupMemory → Launch → (Server → Server) → Bool × Server → Response × Server
  launch_reserved after launch others (true, s) = finish_launch after launch (others s)
  launch_reserved after launch others (false, s) = (too_many, s)

  -- `create_session`, with its two memory readings, and with what other requests do to the server
  -- while the child is launched.
  unfoldable pub create_session :
      CgroupMemory → CgroupMemory → Launch → (Server → Server) → Server → Response × Server
  create_session before after launch others s =
      launch_reserved after launch others (reserve_slot before s)
