-- ===== src/Rotation/Lifetime.antt =====
-- When a wake of the rotation loop may be skipped, and when it never is.
use coding_agents_databricks.Base.{
  ℕ, ◌+◌, ◌≤◌, ◌≡◌, ◌≢◌, true, false, none, some, string_has_eq, arith,
}
use coding_agents_databricks.Rotation.{
  Rotator, expiry_grace, token_near_expiry, wakes_to_rotate, is_token_expired,
  default_token_lifetime, default_rotation_interval,
}

-- A wake that is skipped leaves time for another: there are no sessions, the rotator has rotated
-- before, and one interval later the token counts as expired only if there is no token at all.
pub skip_is_safe :
    (rotation_interval token_lifetime session_count now : ℕ) (r : Rotator)
    → wakes_to_rotate rotation_interval token_lifetime session_count now r ≡ false
    → (session_count ≡ 0)
      × ((r.last_rotation_time ≢ none)
          × (is_token_expired token_lifetime (now + rotation_interval) r
              ≡ (elim r.current_token [ none ↦ true | some _ ↦ false ])))
unfolding wakes_to_rotate token_near_expiry is_token_expired expiry_grace
skip_is_safe rotation_interval token_lifetime session_count now r h = ground arith

-- With the default interval and lifetime, a wake at least one interval after the last rotation is
-- not skipped, with or without sessions.
pub default_never_skips :
    (session_count now last : ℕ) (r : Rotator)
    → r.last_rotation_time ≡ some last
    → last + default_rotation_interval ≤ now
    → wakes_to_rotate default_rotation_interval default_token_lifetime session_count now r ≡ true
unfolding wakes_to_rotate token_near_expiry expiry_grace
default_never_skips session_count now last r e h = ground arith
