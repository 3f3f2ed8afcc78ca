-- ===== src/Tests/Broker.antt =====
-- The broker at concrete inputs: sp_token_broker.py.
use coding_agents_databricks.Broker.Client.{
  decimal_on, decimal, address, start_sp_token_broker, broker_url, is_capability_char,
  fetch_sp_token, do_get,
}
use coding_agents_databricks.Broker.RoundTrip.{NoSpace, fetch_sp_token-do_get}
use coding_agents_databricks.Base.{
  all_of, suc, ◌≡◌, ◌≢◌, refl, true, false, ok, All, arith, none, some, List, [], ◌∷◌, ◌++◌,
}
use coding_agents_databricks.Base.Text.{codes, is_space}
use coding_agents_databricks.Base.Parse.{Text, same_text, is_digit}
use coding_agents_databricks.Broker.{
  Broker, Request, is_ascii, safe_equal_ascii, one_host, empty_body, no_value, authorized, rejected,
  minting, admit, worker_exits, is_deliverable, deliver, begin_shutdown,
}
use coding_agents_databricks.Broker.Entry.{minting_knows_capability}
use coding_agents_databricks.Broker.Shutdown.{
  Event, request, worker, wait_over, shutdown, World, started, note, handle, handle_all,
}

abbrev broker : Broker
broker = record {
  closing = false;
  broker_capability = codes "secret";
  expected_host = codes "127.0.0.1:80";
  mint_slots = 1;
}

abbrev get : Text → Request
get path = record {
  path = path;
  from_loopback = true;
  hosts = codes "127.0.0.1:80" ∷ [];
  transfer_encoding = none;
  content_lengths = [];
}

abbrev known : Request
known = get (codes "/token/secret")

admitted :
    ((admit known broker).0 ≡ minting)
    × ((admit (get (codes "/token/guess")) broker).0 ≡ rejected 404)
    × ((admit known (admit known broker).1).0 ≡ rejected 503)
unfolding admit authorized safe_equal_ascii is_ascii one_host empty_body no_value same_text
admitted = (refl, refl, refl)

abbrev world : World
world = record { broker = broker; workers = 0; sent = [] }

abbrev events : List Event
events =
    request known
    ∷ request known
    ∷ worker
    ∷ wait_over (some (codes "tok"))
    ∷ shutdown
    ∷ wait_over (some (codes "late"))
    ∷ []

sent_once : (handle_all 16384 events world).sent ≡ codes "tok" ∷ []
unfolding handle_all handle started note deliver is_deliverable worker_exits begin_shutdown admit
    authorized safe_equal_ascii is_ascii one_host empty_body no_value same_text
sent_once = refl

minting_knows_capability_example :
    (codes "/token/secret" ≡ codes "/token/" ++ codes "secret")
    × (codes "secret" ≢ [])
    × (codes "127.0.0.1:80" ∷ [] ≡ codes "127.0.0.1:80" ∷ [])
    × (true ≡ true)
    × (false ≡ false)
    × (1 ≡ suc (admit known broker).1.mint_slots)
minting_knows_capability_example = minting_knows_capability known broker admitted.0

abbrev capability : Text
capability = codes "abcdefghijklmnopqrstuvwxyz-_012345"

abbrev started_broker : Broker
started_broker = record {
  closing = false;
  broker_capability = capability;
  expected_host = codes "127.0.0.1:8080";
  mint_slots = 4;
}

decimal_8080 : decimal 8080 ≡ codes "8080"
unfolding decimal decimal_on
decimal_8080 = refl

start_8080 : start_sp_token_broker 0 4 16 true 8080 capability ≡ ok started_broker
unfolding start_sp_token_broker address decimal decimal_on
start_8080 = refl

url_8080 :
    broker_url 8080 started_broker
    ≡ ok (codes "http://127.0.0.1:8080/token/abcdefghijklmnopqrstuvwxyz-_012345")
unfolding broker_url address decimal decimal_on
url_8080 = refl

capability_chars : All (λ c. is_capability_char c ≡ true) capability
unfolding is_capability_char is_digit
capability_chars = all_of is_capability_char capability refl

token-NoSpace : NoSpace (codes "eyJ0")
unfolding is_space
token-NoSpace = (refl, (refl, (refl, (refl, tt))))

fetch_sp_token-do_get_example :
    fetch_sp_token
      (λ bytes. some bytes)
      16384
      (do_get 16384 (some (codes "eyJ0")) started_broker)
      (codes "http://127.0.0.1:8080/token/abcdefghijklmnopqrstuvwxyz-_012345")
    ≡ some (codes "eyJ0")
fetch_sp_token-do_get_example =
    fetch_sp_token-do_get (λ bytes. some bytes) 16384 0 4 16 8080 true capability (codes "eyJ0")
      (codes "http://127.0.0.1:8080/token/abcdefghijklmnopqrstuvwxyz-_012345") started_broker
      capability_chars refl (ground arith) (ground arith) token-NoSpace (ground arith)
      (ground arith) refl start_8080 url_8080
