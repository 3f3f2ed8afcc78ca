-- ===== src/Broker/Client.antt =====
-- sp_token_broker.py: the start of a broker, its URL, and the client that fetches a token there. How
-- bytes are decoded is outside: `decode` is `bytes.decode("utf-8")`, with `none` for its exception.
-- Of the letters and digits of `isalnum`, those of ASCII are modelled.
use Prim.Native.Nat.{◌/◌, ◌%◌}
use coding_agents_databricks.Base.{
  ℕ, zero, suc, ◌+◌, Bool, true, false, ◌&&◌, ◌||◌, not, Option, none, some, List, [], ◌∷◌, ◌++◌,
  length, any, ltb, leb, nat_eq, if◌then◌else◌, Result, ok, err, value_error, runtime_error,
}
use coding_agents_databricks.Base.Text.{codes}
use coding_agents_databricks.Base.Parse.{Text, strip, same_text, is_digit}
use coding_agents_databricks.Base.Url.{
  Url, urlsplit, partition, lower_text, is_alpha, hostname, port, no_userinfo,
}
use coding_agents_databricks.Broker.{Broker, Request, Admission, rejected, minting, admit, deliver}

-- `str` of a number: its digits before `rest`, on fuel of which one more than the number is enough
unfoldable pub decimal_on : ℕ → ℕ → Text → Text
decimal_on zero n rest = rest
decimal_on (suc fuel) n rest =
    let more = decimal_on fuel (n / 10) ((b'0' + n % 10) ∷ rest) in
    if ltb n 10 then (b'0' + n) ∷ rest else more

unfoldable pub decimal : ℕ → Text
decimal n = decimal_on (suc n) n []

-- `127.0.0.1:<port>`
unfoldable pub address : ℕ → Text
address p = codes "127.0.0.1:" ++ decimal p

-- `start_sp_token_broker`, given the port that the system chose, the capability that was drawn, and
-- whether the two timeouts are above 0
unfoldable pub start_sp_token_broker : ℕ → ℕ → ℕ → Bool → ℕ → Text → Result Broker
start_sp_token_broker asked_port max_mints max_handlers timeouts_ok bound_port capability =
    if ltb 65535 asked_port || nat_eq max_mints 0 || nat_eq max_handlers 0 || not timeouts_ok
    then err value_error
    else ok (record {
      closing = false;
      broker_capability = capability;
      expected_host = address bound_port;
      mint_slots = max_mints;
    })

-- `broker_url`
unfoldable pub broker_url : ℕ → Broker → Result Text
broker_url bound_port b =
    if nat_eq (length b.broker_capability) 0
    then err runtime_error
    else ok (codes "http://" ++ (address bound_port ++ (codes "/token/" ++ b.broker_capability)))

-- `process_request` of the server: whether a thread handles the connection, and the handler slots then,
-- given whether a thread starts
unfoldable pub process_request : Bool → ℕ → Bool × ℕ
process_request thread_starts zero = (false, zero)
process_request true (suc slots) = (true, slots)
process_request false (suc slots) = (false, suc slots)

-- `process_request_thread`, when it ends
unfoldable pub process_request_thread : ℕ → ℕ
process_request_thread slots = suc slots

-- `_reject_method`
unfoldable pub reject_method : ℕ
reject_method = 405

-- `path.split("/")`
unfoldable pub split_slashes : Text → List Text
split_slashes [] = [] ∷ []
split_slashes (c ∷ cs) = elim (nat_eq c b'/') [
  | true ↦ [] ∷ split_slashes cs
  | false ↦ elim (split_slashes cs) [ [] ↦ (c ∷ []) ∷ [] | part ∷ parts ↦ (c ∷ part) ∷ parts ]
]

unfoldable pub is_capability_char : ℕ → Bool
is_capability_char c = is_alpha c || is_digit c || nat_eq c b'-' || nat_eq c b'_'

unfoldable pub is_capability_path : List Text → Bool
is_capability_path (a ∷ b ∷ c ∷ []) =
    same_text a []
    && same_text b (codes "token")
    && leb 32 (length c)
    && not (any (λ d. not (is_capability_char d)) c)
is_capability_path _ = false

unfoldable pub is_open_port : Option (Option ℕ) → Bool
is_open_port (some (some n)) = ltb 0 n && leb n 65535
is_open_port _ = false

unfoldable pub is_broker : Url → Bool
is_broker url =
    same_text url.scheme (codes "http")
    && same_text (hostname url) (codes "127.0.0.1")
    && no_userinfo url
    && is_open_port (port url)
    && same_text url.query []
    && same_text url.fragment []
    && is_capability_path (split_slashes url.path)

-- `_valid_broker_url`
unfoldable pub valid_broker_url : Text → Bool
valid_broker_url target = elim (urlsplit target) [ none ↦ false | some url ↦ is_broker url ]

-- A response: its status, the content type if it has one, and the body.
pub record BrokerResponse : Type 0 where
  pub status : ℕ
  pub content_type : Option Text
  pub body : Text

unfoldable pub is_plain_text : Option Text → Bool
is_plain_text none = false
is_plain_text (some t) =
    same_text (lower_text (strip (partition (nat_eq b';') t).0)) (codes "text/plain")

unfoldable pub has_break : Text → Bool
has_break token = any (λ c. nat_eq c 13 || nat_eq c 10) token

unfoldable pub check_token : Text → Option Text
check_token token =
    if nat_eq (length token) 0 then none else if has_break token then none else some token

module _ (decode : Text → Option Text) where
  -- `_decode_token_response`
  unfoldable pub decode_token_response : ℕ → BrokerResponse → Option Text
  decode_token_response max_token_bytes r =
      if not (nat_eq r.status 200)
        || not (is_plain_text r.content_type)
        || ltb max_token_bytes (length r.body)
      then none
      else elim (decode r.body) [ none ↦ none | some text ↦ check_token (strip text) ]

  -- `fetch_sp_token`, given what the server at the URL answers, if it does
  unfoldable pub fetch_sp_token : ℕ → (Text → Option BrokerResponse) → Text → Option Text
  fetch_sp_token max_token_bytes do_get url =
      if valid_broker_url (strip url)
      then elim (do_get (strip url)) [
        | none ↦ none
        | some response ↦ decode_token_response max_token_bytes response
      ]
      else none

-- The request that `urlopen` makes of a URL to the loopback address.
unfoldable pub request_of : Url → Request
request_of url = record {
  path = url.path;
  from_loopback = true;
  hosts = url.netloc ∷ [];
  transfer_encoding = none;
  content_lengths = [];
}

-- `_send`, of a body with status 200 or of a status alone
unfoldable pub send : ℕ → Text → BrokerResponse
send status body = record {
  status = status;
  content_type = some (codes "text/plain; charset=utf-8");
  body = body;
}

unfoldable pub respond : Admission → Option Text → BrokerResponse
respond (rejected status) delivered = send status []
respond minting none = send 503 []
respond minting (some body) = send 200 body

-- `do_GET` of the request for a URL, with the bytes of the minted token if there are some in time
unfoldable pub do_get : ℕ → Option Text → Broker → Text → Option BrokerResponse
do_get max_token_bytes minted b target = elim (urlsplit target) [
  | none ↦ none
  | some url ↦
      let (admission, b') = admit (request_of url) b in
      some (respond admission (deliver max_token_bytes minted b'))
]
