-- ===== src/Broker.antt =====
-- sp_token_broker.py: the server that hands short-lived tokens to local processes which know its
-- capability. The minting of a token is outside: what it comes to is given to the step that answers.
pub mod Entry
pub mod Shutdown
pub mod Client
pub mod Digits
pub mod Fetch
pub mod RoundTrip
use coding_agents_databricks.Base.{
  ℕ, zero, suc, String, Bool, true, false, ◌&&◌, ◌||◌, not, Option, none, some, List, [], ◌∷◌, ◌++◌,
  length, any, ltb, nat_eq, if◌then◌else◌,
}
use coding_agents_databricks.Base.Int.{ℤ, pos, negsuc}
use coding_agents_databricks.Base.Text.{codes}
use coding_agents_databricks.Base.Parse.{Text, parse_int, same_text}

-- `_SPTokenBrokerServer`: what changes. `expected_host` is the address it listens on.
pub record Broker : Type 0 where
  pub closing : Bool
  pub broker_capability : Text
  pub expected_host : Text
  pub mint_slots : ℕ

-- A GET request; `from_loopback` tells whether its source address is 127.0.0.1.
pub record Request : Type 0 where
  pub path : Text
  pub from_loopback : Bool
  pub hosts : List Text
  pub transfer_encoding : Option Text
  pub content_lengths : List Text

unfoldable pub is_ascii : Text → Bool
is_ascii [] = true
is_ascii (c ∷ cs) = ltb c 128 && is_ascii cs

-- `_safe_equal_ascii`
unfoldable pub safe_equal_ascii : Text → Text → Bool
safe_equal_ascii candidate expected =
    is_ascii candidate && is_ascii expected && same_text candidate expected

unfoldable pub is_zero : Option ℤ → Bool
is_zero (some (pos zero)) = true
is_zero _ = false

unfoldable pub one_host : Text → List Text → Bool
one_host expected (host ∷ []) = safe_equal_ascii host expected
one_host expected _ = false

-- at most one length, and no body
unfoldable pub empty_body : List Text → Bool
empty_body [] = true
empty_body (l ∷ []) = is_zero (parse_int l)
empty_body _ = false

unfoldable pub no_value : Option Text → Bool
no_value none = true
no_value (some _) = false

-- `_authorized`
unfoldable pub authorized : Broker → Request → Bool
authorized b r =
    not b.closing
    && not (nat_eq (length b.broker_capability) 0)
    && r.from_loopback
    && one_host b.expected_host r.hosts
    && no_value r.transfer_encoding
    && empty_body r.content_lengths
    && safe_equal_ascii r.path (codes "/token/" ++ b.broker_capability)

-- What `do_GET` does before it waits: a status, or a worker that mints in a slot.
pub data Admission : Type 0 where
  rejected : ℕ → Admission
  minting : Admission

unfoldable pub admit : Request → Broker → Admission × Broker
admit r b = if not (authorized b r) then (rejected 404, b) else elim b.mint_slots [
  | zero ↦ (rejected 503, b)
  | suc left ↦ (minting, record b { mint_slots = left })
]

-- The `finally` of a worker, when it exits, whether or not its request still waits.
unfoldable pub worker_exits : Broker → Broker
worker_exits b = record b { mint_slots = suc b.mint_slots }

-- The bytes of a token that may be sent.
unfoldable pub is_deliverable : ℕ → Text → Bool
is_deliverable max_token_bytes body =
    not (nat_eq (length body) 0)
    && not (ltb max_token_bytes (length body))
    && not (any (λ c. nat_eq c 13 || nat_eq c 10) body)

-- The answer once the wait is over, with the bytes of the token if the worker finished in time
-- with a text that has an encoding: a body, or status 503.
unfoldable pub deliver : ℕ → Option Text → Broker → Option Text
deliver max_token_bytes none b = none
deliver max_token_bytes (some body) b =
    if is_deliverable max_token_bytes body && not b.closing then some body else none

-- `begin_shutdown`
unfoldable pub begin_shutdown : Broker → Broker
begin_shutdown b = record b { closing = true; broker_capability = [] }
