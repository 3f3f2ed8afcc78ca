-- ===== src/Owner.antt =====
-- app.py: who owns the application: `_owner_from_apps_api`, `get_token_owner`, and the thread that
-- resolves the owner later. The environment and the answers of the workspace are given.
pub mod Recovery
use coding_agents_databricks.Base.{
  ℕ, zero, suc, Option, none, some, List, [], ◌∷◌, map, Result, ok, err, runtime_error,
}
use coding_agents_databricks.Base.Text.{codes, lower_code}
use coding_agents_databricks.Base.Parse.{Text, strip}
use coding_agents_databricks.Auth.{first_of, given}
use coding_agents_databricks.Config.{ensure_https}
use coding_agents_databricks.Gateway.Names.{after}

-- The answer of the Apps API: an exception, or the description and the creator of the application.
pub data Answer : Type 0 where
  api_raised : Answer
  described : Option Text → Option Text → Answer

abbrev pub text_of : Option Text → Text
text_of none = []
text_of (some t) = t

-- the owner that a description names, in small letters
unfoldable pub described_owner : Text → Option Text
described_owner description = elim (after (codes "owner:") description) [
  | none ↦ none
  | some rest ↦ given (some (map lower_code (strip rest)))
]

-- `_owner_from_apps_api`, given DATABRICKS_APP_NAME
unfoldable pub owner_from_apps_api : Option Text → Answer → Result (Option Text)
owner_from_apps_api app_name answer = elim (given app_name) [
  | none ↦ ok none
  | some name ↦ elim answer [
    | api_raised ↦ err runtime_error
    | described description creator ↦ ok (
        first_of (described_owner (text_of description))
          (given (some (map lower_code (text_of creator)))))
  ]
]

-- the attempts at boot: an exception is followed by the next attempt, an answer is not
unfoldable pub boot_attempts : Option Text → List Answer → Option Text
boot_attempts app_name [] = none
boot_attempts app_name (answer ∷ answers) = elim (owner_from_apps_api app_name answer) [
  | ok owner ↦ owner
  | err e ↦ boot_attempts app_name answers
]

-- The user of the token: an exception, or the name.
pub data CurrentUser : Type 0 where
  user_raised : CurrentUser
  user_named : Option Text → CurrentUser

-- what `get_token_owner` reads of the environment
pub record Environment : Type 0 where
  pub app_owner_email : Text
  pub app_name : Option Text
  pub host : Text
  pub token : Option Text

-- the last way, by the token
unfoldable pub token_user : Environment → CurrentUser → Option Text
token_user env user = elim (given (some (ensure_https env.host))) [
  | none ↦ none
  | some host ↦ elim (given env.token) [
    | none ↦ none
    | some token ↦ elim user [
      | user_raised ↦ none
      | user_named name ↦ elim name [ none ↦ none | some n ↦ some (map lower_code n) ]
    ]
  ]
]

-- `get_token_owner`, with the answers of as many attempts as there are
unfoldable pub get_token_owner : Environment → List Answer → CurrentUser → Option Text
get_token_owner env answers user =
    elim (given (some (map lower_code (strip env.app_owner_email)))) [
      | some owner ↦ some owner
      | none ↦ elim (given env.app_name) [
        | none ↦ token_user env user
        | some name ↦ elim (boot_attempts env.app_name answers) [
          | some owner ↦ some owner
          | none ↦ token_user env user
        ]
      ]
    ]

-- one attempt of the thread: the owner that was resolved elsewhere before it, and the answer
pub record Attempt : Type 0 where
  pub elsewhere : Option Text
  pub answer : Answer

-- `_retry`: the owner of the application after the attempts
unfoldable pub retry : Option Text → List Attempt → Option Text → Option Text
retry app_name [] app_owner = app_owner
retry app_name (a ∷ attempts) app_owner = elim (given (first_of a.elsewhere app_owner)) [
  | some owner ↦ some owner
  | none ↦ elim (owner_from_apps_api app_name a.answer) [
    | err e ↦ retry app_name attempts app_owner
    | ok none ↦ retry app_name attempts app_owner
    | ok (some owner) ↦ some owner
  ]
]
