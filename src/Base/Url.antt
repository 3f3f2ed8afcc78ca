-- ===== src/Base/Url.antt =====
-- What the source uses of `urllib.parse.urlsplit`. A host in brackets, which is the address of
-- another protocol, counts as a ValueError: the code refuses it in both cases. The same goes for the
-- characters outside ASCII that `urlsplit` does not allow in a host.
pub mod Parts
use coding_agents_databricks.Base.Tests.{leb, ltb, nat_eq, if◌then◌else◌}
use Prim.Native.Nat.{ℕ, ◌+◌, ◌-◌, ◌*◌}
use mathlib.Core.Bool.{Bool, true, false, ◌&&◌, ◌||◌, not}
use mathlib.Core.Option.{Option, none, some}
use mathlib.Core.List.{[], ◌∷◌, map}
use coding_agents_databricks.Base.Lists.{any}
use coding_agents_databricks.Base.Text.{lower_code}
use coding_agents_databricks.Base.Parse.{Text, is_digit}

-- `text.partition(sep)`, with `none` for no separator
unfoldable pub partition : (ℕ → Bool) → Text → Text × Option Text
partition sep [] = ([], none)
partition sep (c ∷ cs) = elim (sep c) [
  | true ↦ ([], some cs)
  | false ↦ let (head, tail) = partition sep cs in (c ∷ head, tail)
]

unfoldable pub before_rest : Bool → ℕ → Option Text × Text → Option Text × Text
before_rest found c (some head, tail) = (some (c ∷ head), tail)
before_rest true c (none, tail) = (some [], tail)
before_rest false c (none, tail) = (none, c ∷ tail)

-- `text.rpartition(sep)`, with `none` for no separator
unfoldable pub rpartition : (ℕ → Bool) → Text → Option Text × Text
rpartition sep [] = (none, [])
rpartition sep (c ∷ cs) = before_rest (sep c) c (rpartition sep cs)

unfoldable pub lower_text : Text → Text
lower_text t = map lower_code t

abbrev pub is_alpha : ℕ → Bool
is_alpha c = leb b'A' c && leb c b'Z' || leb b'a' c && leb c b'z'

unfoldable pub is_scheme_char : ℕ → Bool
is_scheme_char c = is_alpha c || is_digit c || nat_eq c b'+' || nat_eq c b'-' || nat_eq c b'.'

unfoldable pub is_scheme : Text → Bool
is_scheme [] = false
is_scheme (c ∷ cs) = is_alpha c && not (any (λ d. not (is_scheme_char d)) (c ∷ cs))

-- the control characters and the spaces at the front
unfoldable pub drop_controls : Text → Text
drop_controls [] = []
drop_controls (c ∷ cs) = let rest = drop_controls cs in if leb c 32 then rest else c ∷ cs

-- without tabs, line feeds and carriage returns
unfoldable pub drop_unsafe : Text → Text
drop_unsafe [] = []
drop_unsafe (c ∷ cs) =
    let rest = drop_unsafe cs in if nat_eq c 9 || nat_eq c 10 || nat_eq c 13 then rest else c ∷ rest

unfoldable pub take_scheme : Text → Text × Option Text → Text × Text
take_scheme url (scheme, some rest) =
    if is_scheme scheme then (lower_text scheme, rest) else ([], url)
take_scheme url (scheme, none) = ([], url)

unfoldable pub split_scheme : Text → Text × Text
split_scheme url = take_scheme url (partition (nat_eq b':') url)

abbrev pub ends_netloc : ℕ → Bool
ends_netloc c = nat_eq c b'/' || nat_eq c b'?' || nat_eq c b'#'

-- `_splitnetloc`, past the two slashes
unfoldable pub split_netloc : Text → Text × Text
split_netloc [] = ([], [])
split_netloc (c ∷ cs) = elim (ends_netloc c) [
  | true ↦ ([], c ∷ cs)
  | false ↦ let (netloc, rest) = split_netloc cs in (c ∷ netloc, rest)
]

unfoldable pub after_scheme : Text → Text × Text
after_scheme (a ∷ b ∷ rest) =
    let split = split_netloc rest in
    if nat_eq a b'/' && nat_eq b b'/' then split else ([], a ∷ b ∷ rest)
after_scheme rest = ([], rest)

pub record Url : Type 0 where
  pub scheme : Text
  pub netloc : Text
  pub path : Text
  pub query : Text
  pub fragment : Text

unfoldable pub or_empty : Option Text → Text
or_empty none = []
or_empty (some t) = t

-- the path, the query and the fragment
unfoldable pub split_path : Text → Text → Text → Url
split_path scheme netloc rest =
    let (before_fragment, fragment) = partition (nat_eq b'#') rest in
    let (path, query) = partition (nat_eq b'?') before_fragment in
    record {
      scheme = scheme;
      netloc = netloc;
      path = path;
      query = or_empty query;
      fragment = or_empty fragment;
    }

-- `urlsplit`, with `none` for a ValueError
unfoldable pub urlsplit : Text → Option Url
urlsplit text =
    let (scheme, rest) = split_scheme (drop_unsafe (drop_controls text)) in
    let (netloc, rest') = after_scheme rest in
    if any (λ c. nat_eq c b'[' || nat_eq c b']') netloc
    then none
    else some (split_path scheme netloc rest')

-- `username` and `password` are both `None`
unfoldable pub no_userinfo : Url → Bool
no_userinfo url = elim (rpartition (nat_eq b'@') url.netloc).0 [ none ↦ true | some _ ↦ false ]

unfoldable pub hostinfo : Url → Text
hostinfo url = (rpartition (nat_eq b'@') url.netloc).1

-- a host, of which an address may name a zone that keeps its letters
unfoldable pub lower_host : Text → Text
lower_host [] = []
lower_host (c ∷ cs) =
    let rest = lower_host cs in if nat_eq c b'%' then c ∷ cs else lower_code c ∷ rest

-- `hostname`, with the empty text for `None`
unfoldable pub hostname : Url → Text
hostname url = lower_host (partition (nat_eq b':') (hostinfo url)).0

unfoldable pub number : ℕ → Text → ℕ
number n [] = n
number n (c ∷ cs) = number (n * 10 + (c - b'0')) cs

-- `none` for a ValueError, and `some none` for `None`
unfoldable pub read_port : Text → Option (Option ℕ)
read_port [] = some none
read_port (c ∷ cs) =
    if any (λ d. not (is_digit d)) (c ∷ cs)
    then none
    else if ltb 65535 (number 0 (c ∷ cs))
    then none
    else some (some (number 0 (c ∷ cs)))

-- `port`
unfoldable pub port : Url → Option (Option ℕ)
port url = read_port (or_empty (partition (nat_eq b':') (hostinfo url)).1)
