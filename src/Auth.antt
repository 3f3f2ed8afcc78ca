-- ===== src/Auth.antt =====
-- app.py: who may use the application. A header or a setting is the list of its code points; the
-- environment and the directory that tell a deployed application are given.
pub mod Gate
use coding_agents_databricks.Base.{
  ℕ, String, Bool, true, false, ◌||◌, Option, none, some, List, [], ◌∷◌, map, if◌then◌else◌,
}
use coding_agents_databricks.Base.Text.{codes, lower_code, is_prefix}
use coding_agents_databricks.Base.Parse.{Text, strip, same_text}

-- `CODA_DISABLE_OWNER_CHECK`, `app_owner` and `_is_databricks_apps()`
pub record Config : Type 0 where
  pub disable_owner_check : Text
  pub app_owner : Option Text
  pub is_databricks_apps : Bool

-- the headers that name a user
pub record Headers : Type 0 where
  pub forwarded_email : Option Text
  pub forwarded_user : Option Text
  pub databricks_user_email : Option Text

-- `a or b`
unfoldable pub first_of : Option Text → Option Text → Option Text
first_of none b = b
first_of (some []) b = b
first_of (some (c ∷ cs)) b = some (c ∷ cs)

-- The truth of a value that is `None` or a text.
unfoldable pub given : Option Text → Option Text
given o = first_of o none

-- `user.lower() if user else user`
unfoldable pub lower_given : Option Text → Option Text
lower_given user = elim (given user) [ none ↦ user | some t ↦ some (map lower_code t) ]

-- `get_request_user`
unfoldable pub get_request_user : Headers → Option Text
get_request_user h =
    lower_given (first_of h.forwarded_email (first_of h.forwarded_user h.databricks_user_email))

-- `_owner_check_disabled`
unfoldable pub owner_check_disabled : Config → Bool
owner_check_disabled c =
    let value = map lower_code (strip c.disable_owner_check) in
    same_text value (codes "true") || same_text value (codes "1") || same_text value (codes "yes")

-- `check_authorization`: is the request authorized, and the user that a refusal names
unfoldable pub check_authorization : Config → Headers → Bool × Option Text
check_authorization c h =
    if owner_check_disabled c then (true, none) else elim (given c.app_owner) [
      | none ↦ if c.is_databricks_apps then (false, some (codes "unknown")) else (true, none)
      | some owner ↦ elim (given (get_request_user h)) [
        | none ↦ if c.is_databricks_apps then (false, some (codes "unknown")) else (true, none)
        | some user ↦ if same_text user owner then (true, none) else (false, some user)
      ]
    ]

-- `_check_ws_authorization`, which reads the headers of the handshake itself
unfoldable pub check_ws_authorization : Config → Headers → Bool
check_ws_authorization c h =
    let raw_user = first_of h.forwarded_email (first_of h.forwarded_user h.databricks_user_email) in
    let current_user = lower_given raw_user in
    if owner_check_disabled c then true else elim (given c.app_owner) [
      | none ↦ if c.is_databricks_apps then false else true
      | some owner ↦ elim (given current_user) [
        | none ↦ if c.is_databricks_apps then false else true
        | some user ↦ if same_text user owner then true else false
      ]
    ]

-- The paths that `authorize_request` leaves to their handlers.
unfoldable pub is_exempt : Text → Bool
is_exempt path =
    same_text path (codes "/health")
    || same_text path (codes "/api/configure-pat")
    || same_text path (codes "/api/inject-pat")
    || is_prefix (codes "/socket.io") path

-- `authorize_request`: the status 403, or no answer, and the request goes on to its handler
unfoldable pub authorize_request : Config → Text → Headers → Option ℕ
authorize_request c path h =
    if is_exempt path then none else if (check_authorization c h).0 then none else some 403
