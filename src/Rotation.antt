-- ===== src/Rotation.antt =====
-- pat_rotator.py: the rotation of the personal access token. The workspace's token service, the
-- configuration file and the CLIs are outside: what they answer is given to each operation, and what
-- is sent to them is returned in order. Times and ages are whole seconds.
pub mod Revocation
pub mod Bootstrap
pub mod Lifetime
use Prim.Native.String.{◌++◌ as str_append}
use coding_agents_databricks.Base.{
  ℕ, ◌+◌, ◌-◌, String, Bool, true, false, ◌&&◌, not, Option, none, some, List, [], ◌∷◌, ◌++◌, ltb,
  leb, nat_eq, ◌==◌, string_has_eq, if◌then◌else◌,
}
use coding_agents_databricks.Base.Text.{codes}

-- `PATRotator`: what changes
pub record Rotator : Type 0 where
  pub current_token : Option String
  pub current_token_id : Option String
  pub last_rotation_time : Option ℕ

-- What the rotator does to the world: requests with the token that authorizes them, and `persist`
-- for the environment, the configuration file, the CLIs and app_state.json.
pub data Action : Type 0 where
  create_token : String → Action
  persist : String → Action
  delete_token : String → String → Action

-- The answer of `token/create`: no answer, or a status with the new token and its id if the body
-- has them.
pub data CreateReply : Type 0 where
  no_answer : CreateReply
  answered : ℕ → Option (String × String) → CreateReply

pub data Outcome : Type 0 where
  raised : Outcome
  returned : Bool → Outcome

-- The truth of a value that is `None` or a text.
unfoldable pub truthy : Option String → Option String
truthy none = none
truthy (some t) = if t == "" then none else some t

-- The third step of a rotation: the old token is revoked once all targets have the new one.
unfoldable pub revoke_old : Option String → String → Bool → List Action
revoke_old old_token_id new_token persistence_ok = elim (truthy old_token_id) [
  | none ↦ []
  | some old ↦ if persistence_ok then delete_token new_token old ∷ [] else []
]

-- `_rotate_once_serialized` with a token that was minted; `config_ok` and `refresh_ok` tell whether
-- the configuration file was written and every CLI refreshed.
unfoldable pub adopt : String → String → ℕ → Bool → Bool → Rotator → Outcome × Rotator × List Action
adopt new_token new_token_id now config_ok refresh_ok r =
    let persistence_ok = config_ok && refresh_ok in
    (
      returned persistence_ok,
      record {
        current_token = some new_token;
        current_token_id = some new_token_id;
        last_rotation_time = some now;
      },
      persist new_token ∷ revoke_old r.current_token_id new_token persistence_ok,
    )

-- The first step of a rotation, with the token that authorizes it, and what follows.
unfoldable pub mint :
    Option String → CreateReply → ℕ → Bool → Bool → Rotator → Outcome × Rotator × List Action
mint none reply now config_ok refresh_ok r = (returned false, r, [])
mint (some token) no_answer now config_ok refresh_ok r =
    (returned false, r, create_token token ∷ [])
mint (some token) (answered status none) now config_ok refresh_ok r =
    (if nat_eq status 200 then raised else returned false, r, create_token token ∷ [])
mint (some token) (answered status (some (new_token, new_token_id))) now config_ok refresh_ok r =
    let (outcome, r', actions) = adopt new_token new_token_id now config_ok refresh_ok r in
    if nat_eq status 200
    then (outcome, r', create_token token ∷ actions)
    else (returned false, r, create_token token ∷ [])

-- `_rotate_once_serialized`
unfoldable pub rotate_once :
    CreateReply → ℕ → Bool → Bool → Rotator → Outcome × Rotator × List Action
rotate_once reply now config_ok refresh_ok r =
    mint (truthy r.current_token) reply now config_ok refresh_ok r

-- `is_token_expired`
unfoldable pub is_token_expired : ℕ → ℕ → Rotator → Bool
is_token_expired token_lifetime now r = elim r.last_rotation_time [
  | none ↦ elim r.current_token [ none ↦ true | some _ ↦ false ]
  | some last ↦ elim r.current_token [
    | none ↦ true
    | some token ↦
        if nat_eq last 0
        then false
        else if token == ""
        then false
        else ltb token_lifetime (now - last)
  ]
]

-- `expiry_grace`
unfoldable pub expiry_grace : ℕ → ℕ
expiry_grace rotation_interval = if leb rotation_interval 60 then 60 else rotation_interval

-- `token_near_expiry`, with the lifetime's comparison written without a difference that may be
-- below 0; a token that was never rotated has no age and counts as near its expiry.
unfoldable pub token_near_expiry : ℕ → ℕ → ℕ → Rotator → Bool
token_near_expiry rotation_interval token_lifetime now r = elim r.last_rotation_time [
  | none ↦ true
  | some last ↦
      if nat_eq last 0
      then true
      else ltb token_lifetime ((now - last) + expiry_grace rotation_interval)
]

-- One wake of `_rotation_loop`: does it rotate?
unfoldable pub wakes_to_rotate : ℕ → ℕ → ℕ → ℕ → Rotator → Bool
wakes_to_rotate rotation_interval token_lifetime session_count now r =
    let near = token_near_expiry rotation_interval token_lifetime now r in
    not (nat_eq session_count 0 && not near)

-- `DEFAULT_TOKEN_LIFETIME` and `DEFAULT_ROTATION_INTERVAL`, without overrides
abbrev pub default_token_lifetime : ℕ
default_token_lifetime = 900

abbrev pub default_rotation_interval : ℕ
default_rotation_interval = 600

-- `rotation_comment`
unfoldable pub rotation_comment : String → String
rotation_comment instance_name =
    if instance_name == ""
    then "coda-auto-rotated"
    else str_append "coda-auto-rotated:" instance_name

-- `str.startswith`, on code points
unfoldable pub starts_with : List ℕ → List ℕ → Bool
starts_with cs [] = true
starts_with [] (p ∷ ps) = false
starts_with (c ∷ cs) (p ∷ ps) = nat_eq c p && starts_with cs ps

-- An entry of `token_infos`.
pub record TokenInfo : Type 0 where
  pub token_id : String
  pub comment : String

unfoldable pub is_candidate : String → TokenInfo → Bool
is_candidate current_id info =
    not (info.token_id == current_id)
    && not (starts_with (codes info.comment) (codes "coda-auto-rotated"))

unfoldable pub candidates : String → List TokenInfo → List TokenInfo
candidates current_id [] = []
candidates current_id (info ∷ infos) =
    let rest = candidates current_id infos in
    if is_candidate current_id info then info ∷ rest else rest

-- the choice of `revoke_bootstrap_token` among the candidates
unfoldable pub revoke_only : String → List TokenInfo → List Action
revoke_only token (info ∷ []) = delete_token token info.token_id ∷ []
revoke_only token _ = []

-- `revoke_bootstrap_token`, given the listed tokens if the listing succeeded
unfoldable pub revoke_bootstrap_token : Option (List TokenInfo) → Rotator → List Action
revoke_bootstrap_token listed r = elim (truthy r.current_token) [
  | none ↦ []
  | some token ↦ elim (truthy r.current_token_id) [
    | none ↦ []
    | some current_id ↦ elim listed [
      | none ↦ []
      | some infos ↦ revoke_only token (candidates current_id infos)
    ]
  ]
]
