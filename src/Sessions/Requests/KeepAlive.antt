-- ===== src/Sessions/Requests/KeepAlive.antt =====
-- A session that the WebSocket shows to be in use is not stale.
use mathlib.Core.Path.{subst}
use coding_agents_databricks.Base.{
  ℕ, ◌+◌, ◌≤◌, String, ◌≡◌, refl, true, false, some, List, [], ◌∷◌, any, arith, eq_iff,
  Option-cases, Bool-cases, inl, inr, ◌==◌, string_has_eq,
}
use coding_agents_databricks.Base.Int.{ℤ}
use coding_agents_databricks.Base.Dict.{Dict, find, find-store}
use coding_agents_databricks.Sessions.{Session, on_session}
use coding_agents_databricks.Sessions.Polling.{
  session_timeout_seconds, idle, warned, cleanup_stale_sessions,
}
use coding_agents_databricks.Sessions.Polling.Stale.{IsDict, find-cleanup_stale_sessions}
use coding_agents_databricks.Sessions.Polling.Batch.{store-IsDict}
use coding_agents_databricks.Sessions.Requests.{
  touched, handle_ws_heartbeat, handle_terminal_input, handle_terminal_resize,
}

-- The table has the session, which was last polled at that time.
abbrev IsPolled : ℕ → String → Dict Session → Type 0
IsPolled now k d = IsDict d × ((s : Session) × (find k d ≡ some s) × (s.last_poll_time ≡ now))

-- The iteration of the cleaning thread leaves the session in the table.
abbrev pub IsKept : ℕ → String → Dict Session → Type 0
IsKept later k d = (s : Session) × (find k (cleanup_stale_sessions later d) ≡ some s)

on_session-IsDict :
    (k : String) (f : Session → Session) (d : Dict Session) → IsDict d → IsDict (on_session k f d)
unfolding on_session
on_session-IsDict k f d h = elim (Option-cases (find k d)) [
  | inl n ↦ rw (n, on_session) h
  | inr (s, e) ↦ rw (e, on_session) (store-IsDict k (f s) d h)
]

touched-IsPolled :
    (k : String) (now : ℕ) (d : Dict Session) (s : Session)
    → IsDict d
    → find k d ≡ some s
    → IsPolled now k (on_session k (touched now) d)
unfolding on_session
touched-IsPolled k now d s h e = (
  on_session-IsDict k (touched now) d h,
  (
    touched now s,
    rw (e, on_session) (ground (arith, find-store k k (touched now s) d, eq_iff k k)),
    refl,
  ),
)

-- Another sign of life at the same time changes nothing of that.
IsPolled-touched :
    (k j : String) (now : ℕ) (d : Dict Session)
    → IsPolled now k d
    → IsPolled now k (on_session j (touched now) d)
unfolding on_session
IsPolled-touched k j now d (h, (s, e, p)) = elim (Option-cases (find j d)) [
  | inl n ↦ (on_session-IsDict j (touched now) d h, (s, rw (n, on_session) e, p))
  | inr (t, q) ↦ elim (Bool-cases (j == k)) [
    | inl b ↦ (
      on_session-IsDict j (touched now) d h,
      (
        touched now t,
        rw (q, on_session) (ground (arith, find-store j k (touched now t) d, b)),
        refl,
      ),
    )
    | inr b ↦ (
      on_session-IsDict j (touched now) d h,
      (s, rw (q, on_session) (ground (arith, find-store j k (touched now t) d, b, e)), p),
    )
  ]
]

heartbeat-IsPolled :
    (ids : List String) (k : String) (now : ℕ) (d : Dict Session)
    → IsPolled now k d
    → IsPolled now k (handle_ws_heartbeat ids now d)
unfolding handle_ws_heartbeat
heartbeat-IsPolled [] k now d h = h
heartbeat-IsPolled (j ∷ ids) k now d h =
    heartbeat-IsPolled ids k now (on_session j (touched now) d) (IsPolled-touched k j now d h)

IsPolled-IsKept :
    (k : String) (now later : ℕ) (d : Dict Session)
    → IsPolled now k d
    → later ≤ now + session_timeout_seconds
    → IsKept later k d
unfolding idle
IsPolled-IsKept k now later d (h, (s, e, p)) l =
    (warned later s, ground (arith, find-cleanup_stale_sessions later k d h, e, p, l))

find-on_session :
    (j k : String) (now : ℕ) (d : Dict Session)
    → j == k ≡ false
    → find k (on_session j (touched now) d) ≡ find k d
unfolding on_session
find-on_session j k now d b = elim (Option-cases (find j d)) [
  | inl n ↦ rw (n, on_session) refl
  | inr (t, q) ↦ rw (q, on_session) (ground (arith, find-store j k (touched now t) d, b))
]

heartbeat_finds :
    (ids : List String) (k : String) (now : ℕ) (d : Dict Session) (s : Session)
    → IsDict d
    → find k d ≡ some s
    → any (λ j. j == k) ids ≡ true
    → IsPolled now k (handle_ws_heartbeat ids now d)
unfolding handle_ws_heartbeat on_session
heartbeat_finds [] k now d s h e a = absurd (ground (arith, a))
heartbeat_finds (j ∷ ids) k now d s h e a = elim (Bool-cases (j == k)) [
  | inl b ↦ heartbeat-IsPolled ids k now (on_session j (touched now) d) (
      subst (λ i. IsPolled now k (on_session i (touched now) d)) (ground (arith, b, eq_iff j k))
        (touched-IsPolled k now d s h e))
  | inr b ↦ elim (Option-cases (find k (on_session j (touched now) d))) [
    | inl n ↦ absurd (ground (arith, n, e, b, find-on_session j k now d b))
    | inr (t, q) ↦
        heartbeat_finds ids k now (on_session j (touched now) d) t
          (on_session-IsDict j (touched now) d h) q (ground (arith, a, b))
  ]
]

-- A session of the table for which a heartbeat, some input or a new size came over the WebSocket
-- survives every iteration of the cleaning thread up to the timeout after that.
pub websocket_keeps_alive :
    (ids : List String) (k input : String) (rows cols : ℤ) (now later : ℕ) (d : Dict Session)
    (s : Session)
    → IsDict d
    → find k d ≡ some s
    → any (λ j. j == k) ids ≡ true
    → later ≤ now + session_timeout_seconds
    → IsKept later k (handle_ws_heartbeat ids now d)
      × IsKept later k (handle_terminal_input k input now d).0
      × IsKept later k (handle_terminal_resize k rows cols now d).0
unfolding handle_terminal_input handle_terminal_resize
websocket_keeps_alive ids k input rows cols now later d s h e a l =
    let alive =
      IsPolled-IsKept k now later (on_session k (touched now) d) (touched-IsPolled k now d s h e)
        l in
    (
      IsPolled-IsKept k now later (handle_ws_heartbeat ids now d)
          (heartbeat_finds ids k now d s h e a) l,
      rw (e, handle_terminal_input) alive,
      rw (e, handle_terminal_resize) alive,
    )
