-- ===== src/Broker/Fetch.antt =====
-- The URL of a broker that was started: the client accepts it, and its request is authorized.
use Prim.Native.Nat.{◌≤◌, ◌<◌}
use mathlib.Core.Path.{subst}
use coding_agents_databricks.Base.{
  none_of, ℕ, suc, ◌≡◌, refl, sym, ap, ◌∙◌, true, false, ◌||◌, not, some, [], ◌∷◌, ◌++◌, length,
  any, All, ltb, leb, nat_eq, arith,
}
use coding_agents_databricks.Base.Text.{codes}
use coding_agents_databricks.Base.Parse.{Text, same_text, is_digit}
use coding_agents_databricks.Base.Url.{
  Url, urlsplit, partition, drop_controls, drop_unsafe, split_scheme, take_scheme, is_scheme,
  is_scheme_char, lower_text, after_scheme, split_path, or_empty, ends_netloc, hostinfo, lower_host,
  hostname, port, no_userinfo, read_port, number,
}
use coding_agents_databricks.Base.Url.Parts.{
  is_unsafe, partition-none, rpartition-none, split_netloc_at, drop_unsafe_none, any_none,
}
use coding_agents_databricks.Gateway.Names.Order.{same_refl}
use coding_agents_databricks.Broker.{
  Broker, authorized, safe_equal_ascii, one_host, is_ascii, no_value, empty_body,
}
use coding_agents_databricks.Broker.Digits.{
  IsDigits, decimal_on-IsDigits, number-decimal, decimal_cons, IsOrdinary, ordinary, IsPlainDigit,
  plain_digit, All_map, All_append,
}
use coding_agents_databricks.Broker.Client.{
  decimal, address, split_slashes, is_capability_char, is_capability_path, is_open_port, is_broker,
  valid_broker_url, request_of,
}

read_port_digits :
    (d : ℕ) (ds : Text) (n : ℕ)
    → IsDigits (d ∷ ds)
    → number 0 (d ∷ ds) ≡ n
    → n ≤ 65535
    → read_port (d ∷ ds) ≡ some (some n)
unfolding read_port
read_port_digits d ds n a e h =
    let f : ltb 65535 n ≡ false = ground (arith, h) in
    rw (any_none (λ c. not (is_digit c)) (d ∷ ds) (All_map (λ c h. ap not h) (d ∷ ds) a))
      (rw e (rw f refl))

read_port-decimal : (p : ℕ) → p ≤ 65535 → read_port (decimal p) ≡ some (some p)
unfolding decimal
read_port-decimal p h =
    let (d, ds, e) = decimal_cons p in
    ap read_port e
    ∙ read_port_digits d ds p (subst IsDigits e (decimal_on-IsDigits (suc p) p [] tt))
        (ap (number 0) (sym e) ∙ number-decimal p) h

ascii_of : (t : Text) → All (λ c. is_capability_char c ≡ true) t → is_ascii t ≡ true
unfolding is_ascii is_capability_char is_digit
ascii_of [] a = refl
ascii_of (c ∷ t) (a, later) =
    let b : ltb c 128 ≡ true = ground (arith, a) in rw b (ascii_of t later)

ascii_digits : (t : Text) → IsDigits t → is_ascii t ≡ true
unfolding is_ascii is_digit
ascii_digits [] a = refl
ascii_digits (c ∷ t) (a, later) =
    let b : ltb c 128 ≡ true = ground (arith, a) in rw b (ascii_digits t later)

module _ (p : ℕ) (cap : Text) (chars : All (λ c. is_capability_char c ≡ true) cap) where
  abbrev token_path : Text
  token_path = codes "/token/" ++ cap

  abbrev pub url_text : Text
  url_text = codes "http://" ++ (address p ++ token_path)

  IsOrdinary-cap : All IsOrdinary cap
  IsOrdinary-cap = All_map ordinary cap chars

  digits : All IsPlainDigit (decimal p)
  unfolding decimal
  digits = All_map plain_digit (decimal p) (decimal_on-IsDigits (suc p) p [] tt)

  safe_url : All (λ c. is_unsafe c ≡ false) url_text
  unfolding address
  safe_url =
      All_append (λ c. is_unsafe c ≡ false) (codes "http://127.0.0.1:") (decimal p ++ token_path)
        (none_of is_unsafe (codes "http://127.0.0.1:") refl)
        (All_append (λ c. is_unsafe c ≡ false) (decimal p) token_path
          (All_map (λ c d. d.0) (decimal p) digits)
          (All_append (λ c. is_unsafe c ≡ false) (codes "/token/") cap
            (none_of is_unsafe (codes "/token/") refl) (All_map (λ c d. d.0) cap IsOrdinary-cap)))

  cleaned : drop_unsafe (drop_controls url_text) ≡ url_text
  unfolding drop_controls
  cleaned = drop_unsafe_none url_text safe_url

  scheme_split : split_scheme url_text ≡ (codes "http", codes "//" ++ (address p ++ token_path))
  unfolding split_scheme take_scheme partition is_scheme is_scheme_char lower_text
  scheme_split = refl

  netloc_plain : All (λ c. ends_netloc c ≡ false) (address p)
  unfolding address
  netloc_plain =
      All_append (λ c. ends_netloc c ≡ false) (codes "127.0.0.1:") (decimal p)
        (none_of (λ c. ends_netloc c) (codes "127.0.0.1:") refl)
        (All_map (λ c d. d.1) (decimal p) digits)

  netloc_split : after_scheme (codes "//" ++ (address p ++ token_path)) ≡ (address p, token_path)
  unfolding after_scheme
  netloc_split = split_netloc_at (address p) (codes "token/" ++ cap) b'/' netloc_plain refl

  bracketless : All (λ c. (nat_eq c b'[' || nat_eq c b']') ≡ false) (address p)
  unfolding address
  bracketless =
      All_append (λ c. (nat_eq c b'[' || nat_eq c b']') ≡ false) (codes "127.0.0.1:") (decimal p)
        (none_of (λ c. (nat_eq c b'[' || nat_eq c b']')) (codes "127.0.0.1:") refl)
        (All_map (λ c d. d.2) (decimal p) digits)

  userless : All (λ c. nat_eq b'@' c ≡ false) (address p)
  unfolding address
  userless =
      All_append (λ c. nat_eq b'@' c ≡ false) (codes "127.0.0.1:") (decimal p)
        (none_of (λ c. nat_eq b'@' c) (codes "127.0.0.1:") refl)
        (All_map (λ c d. d.3) (decimal p) digits)

  no_brackets : any (λ c. nat_eq c b'[' || nat_eq c b']') (address p) ≡ false
  unfolding address
  no_brackets = any_none (λ c. nat_eq c b'[' || nat_eq c b']') (address p) bracketless

  abbrev pub url : Url
  url = record {
    scheme = codes "http";
    netloc = address p;
    path = token_path;
    query = [];
    fragment = [];
  }

  path_split : split_path (codes "http") (address p) token_path ≡ url
  unfolding split_path or_empty
  path_split =
      rw
        (partition-none (nat_eq b'#') token_path (
          All_append (λ c. nat_eq b'#' c ≡ false) (codes "/token/") cap
            (none_of (λ c. nat_eq b'#' c) (codes "/token/") refl)
            (All_map (λ c d. d.2) cap IsOrdinary-cap)))
        (rw
          (partition-none (nat_eq b'?') token_path (
            All_append (λ c. nat_eq b'?' c ≡ false) (codes "/token/") cap
              (none_of (λ c. nat_eq b'?' c) (codes "/token/") refl)
              (All_map (λ c d. d.3) cap IsOrdinary-cap)))
          refl)

  pub urlsplit-url : urlsplit url_text ≡ some url
  unfolding urlsplit
  urlsplit-url =
      rw cleaned (rw scheme_split (rw netloc_split (rw no_brackets (ap some path_split))))

  host_split : hostinfo url ≡ address p
  unfolding hostinfo address
  host_split = ap (λ r. r.1) (rpartition-none (nat_eq b'@') (address p) userless)

  user_split : no_userinfo url ≡ true
  unfolding no_userinfo address
  user_split = rw (rpartition-none (nat_eq b'@') (address p) userless, no_userinfo) refl

  hostname_is : hostname url ≡ codes "127.0.0.1"
  unfolding hostname lower_host partition address
  hostname_is = rw host_split refl

  port_is : p ≤ 65535 → port url ≡ some (some p)
  unfolding port or_empty partition address
  port_is high = rw host_split (read_port-decimal p high)

  slashes_none : (t : Text) → All IsOrdinary t → split_slashes t ≡ t ∷ []
  unfolding split_slashes
  slashes_none [] a = refl
  slashes_none (c ∷ t) (a, later) = rw (a.1, split_slashes) (rw (slashes_none t later) refl)

  path_is : leb 32 (length cap) ≡ true → is_capability_path (split_slashes token_path) ≡ true
  unfolding is_capability_path split_slashes same_text
  path_is long = rw (slashes_none cap IsOrdinary-cap) (
      rw long (
        rw (any_none (λ d. not (is_capability_char d)) cap (All_map (λ c h. ap not h) cap chars))
          refl))

  is_broker-url : 0 < p → p ≤ 65535 → leb 32 (length cap) ≡ true → is_broker url ≡ true
  unfolding is_broker is_open_port same_text
  is_broker-url low high long =
      let l : ltb 0 p ≡ true = ground (arith, low) in
      let h : leb p 65535 ≡ true = ground (arith, high) in
      rw hostname_is (rw user_split (rw (port_is high) (rw (path_is long) (rw l (rw h refl)))))

  pub valid_url : 0 < p → p ≤ 65535 → leb 32 (length cap) ≡ true → valid_broker_url url_text ≡ true
  unfolding valid_broker_url
  valid_url low high long = rw (urlsplit-url, valid_broker_url) (is_broker-url low high long)

  ascii_path : is_ascii token_path ≡ true
  unfolding is_ascii
  ascii_path = ascii_of cap chars

  ascii_address : is_ascii (address p) ≡ true
  unfolding is_ascii address decimal
  ascii_address = ascii_digits (decimal p) (decimal_on-IsDigits (suc p) p [] tt)

  -- The broker as it is started.
  abbrev pub started : ℕ → Broker
  started slots = record {
    closing = false;
    broker_capability = cap;
    expected_host = address p;
    mint_slots = slots;
  }

  pub request_is_authorized :
      (slots : ℕ)
      → nat_eq (length cap) 0 ≡ false
      → authorized (started slots) (request_of url) ≡ true
  unfolding authorized request_of one_host no_value empty_body safe_equal_ascii
  request_is_authorized slots n = rw n (
      rw ascii_address
        (rw (same_refl (address p)) (rw ascii_path (rw (same_refl token_path) refl))))
