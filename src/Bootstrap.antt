-- ===== src/Bootstrap.antt =====
-- app.py: how a personal access token gets into the application: `_bootstrap_pat` and its two
-- handlers, `configure_pat` of the owner and `inject_pat` of a provisioning script. What the
-- workspace answers is given; the body of a request is reduced to its token.
pub mod Exchange
pub mod Lockout
use Prim.Native.Char.{code}
use coding_agents_databricks.Base.{
  ℕ, String, Bool, true, false, ◌&&◌, ◌||◌, not, Option, none, some, List, [], ◌∷◌, ◌++◌, ltb,
  nat_eq, ◌==◌, string_has_eq, if◌then◌else◌,
}
use coding_agents_databricks.Base.Text.{codes, is_space}
use coding_agents_databricks.Base.Parse.{Text, strip, same_text}
use coding_agents_databricks.Auth.{Config, Headers, given, get_request_user}
use coding_agents_databricks.Gateway.Names.{without}
use coding_agents_databricks.Rotation.{
  Rotator, Action, create_token, persist, delete_token, CreateReply, Outcome, raised, returned,
  TokenInfo, truthy, rotate_once, is_token_expired, revoke_bootstrap_token, default_token_lifetime,
}

-- `s.strip()`, on a text that stays one
unfoldable pub rstrip_text : String → String
rstrip_text String.[] = ""
rstrip_text (String.◌∷◌ c s) =
    let rest = rstrip_text s in if rest == "" && is_space (code c) then "" else String.◌∷◌ c rest

unfoldable pub lstrip_text : String → String
lstrip_text String.[] = ""
lstrip_text (String.◌∷◌ c s) =
    let rest = lstrip_text s in if is_space (code c) then rest else String.◌∷◌ c s

unfoldable pub strip_text : String → String
strip_text s = rstrip_text (lstrip_text s)

-- The answer to the request for the user of a token: an exception, also of a body that is no JSON, or
-- a status.
pub data Me : Type 0 where
  me_raised : Me
  me_answered : ℕ → Me

-- what the workspace, the clock and the targets of a token come to during a request
pub record World : Type 0 where
  pub me : Me
  pub reply : CreateReply
  pub listed : Option (List TokenInfo)
  pub now : ℕ
  pub config_ok : Bool
  pub refresh_ok : Bool

-- The rotator, whether its thread was started, DATABRICKS_TOKEN, the token that the CLIs were last
-- configured with, and whether the setup is complete or was started again.
pub record State : Type 0 where
  pub rotator : Rotator
  pub rotating : Bool
  pub env_token : Option String
  pub cli_token : Option String
  pub setup_complete : Bool
  pub setup_started : Bool

-- DATABRICKS_TOKEN after the actions of a rotation
unfoldable pub env_after : List Action → Option String → Option String
env_after [] env = env
env_after (persist token ∷ actions) env = env_after actions (some token)
env_after (_ ∷ actions) env = env_after actions env

unfoldable pub is_valid : Me → Bool
is_valid me_raised = false
is_valid (me_answered status) = nat_eq status 200

-- `a or b`
abbrev pub or_else : Option String → Option String → Option String
or_else a b = elim (truthy a) [ some t ↦ some t | none ↦ b ]

-- the state once the rotation was tried
abbrev pub tried : String → Rotator → List Action → State → State
tried token r actions s = record s { rotator = r; env_token = env_after actions (some token) }

-- the end of `_bootstrap_pat`, where `token` is what its variable holds
unfoldable pub finish : Option String → Rotator → List Action → State → ℕ × State × List Action
finish token r actions s = (
  200,
  record s {
    rotating = true;
    cli_token = or_else r.current_token token;
    setup_started = s.setup_started || not s.setup_complete;
  },
  actions,
)

-- Was no controlled token produced?
unfoldable pub is_uncontrolled : String → Rotator → Bool
is_uncontrolled token r =
    (elim r.current_token [ none ↦ false | some t ↦ t == token ])
    || (elim (truthy r.current_token_id) [ none ↦ true | some _ ↦ false ])

-- what follows the rotation
unfoldable pub conclude :
    World → String → State → Outcome × Rotator × List Action → ℕ × State × List Action
conclude w token s (raised, r, actions) = (500, tried token r actions s, actions)
conclude w token s (returned true, r, actions) =
    finish r.current_token r (actions ++ revoke_bootstrap_token w.listed r)
      (tried token r actions s)
conclude w token s (returned false, r, actions) =
    if is_uncontrolled token r
    then (503, tried token r actions s, actions)
    else finish (some token) r actions (tried token r actions s)

-- the rotator with the token that was supplied
abbrev pub adopting : String → Rotator → Rotator
adopting token r = record r { current_token = some token; current_token_id = none }

-- `_bootstrap_pat`: the status, the state, and what was sent
unfoldable pub bootstrap_pat : World → String → State → ℕ × State × List Action
bootstrap_pat w supplied s =
    let token = strip_text supplied in
    if token == ""
    then (400, s, [])
    else if not (is_valid w.me)
    then (400, s, [])
    else conclude w token s
        (rotate_once w.reply w.now w.config_ok w.refresh_ok (adopting token s.rotator))

-- the guard of both handlers against a second token, and the bootstrap behind it
unfoldable pub submit : World → String → State → ℕ × State × List Action
submit w supplied s =
    if (elim (truthy s.rotator.current_token) [ none ↦ false | some _ ↦ true ])
      && not (is_token_expired default_token_lifetime w.now s.rotator)
    then (409, s, [])
    else bootstrap_pat w supplied s

-- Does `configure_pat` refuse the user?
unfoldable pub is_foreign : Config → Headers → Bool
is_foreign c h = elim (given c.app_owner) [
  | none ↦ false
  | some owner ↦
      c.is_databricks_apps
      && (elim (get_request_user h) [ none ↦ true | some user ↦ not (same_text user owner) ])
]

-- `configure_pat`
unfoldable pub configure_pat : Config → Headers → World → String → State → ℕ × State × List Action
configure_pat c h w supplied s = if is_foreign c h then (403, s, []) else submit w supplied s

-- the headers of `inject_pat`, which are empty if they are missing
pub record Secrets : Type 0 where
  pub bootstrap_secret : Text
  pub authorization : Text

unfoldable pub provided : Secrets → Text
provided h = elim h.bootstrap_secret [
  | [] ↦ strip (without (codes "Bearer ") h.authorization)
  | _ ∷ _ ↦ h.bootstrap_secret
]

unfoldable pub is_ascii : Text → Bool
is_ascii [] = true
is_ascii (c ∷ cs) = ltb c 128 && is_ascii cs

-- What the comparison of the secrets comes to: a refusal, an exception of `compare_digest`, which
-- takes ASCII texts alone, or no answer yet.
unfoldable pub check_secret : Text → Text → Option ℕ
check_secret expected [] = some 403
check_secret expected (c ∷ cs) =
    if is_ascii (c ∷ cs) && is_ascii expected
    then (if same_text (c ∷ cs) expected then none else some 403)
    else some 500

-- `inject_pat`, given CODA_BOOTSTRAP_SECRET
unfoldable pub inject_pat : Text → Secrets → World → String → State → ℕ × State × List Action
inject_pat secret h w supplied s = elim (strip secret) [
  | [] ↦ (404, s, [])
  | c ∷ cs ↦ elim (check_secret (c ∷ cs) (provided h)) [
    | some status ↦ (status, s, [])
    | none ↦ submit w supplied s
  ]
]
