-- ===== src/Broker/Entry.antt =====
-- Which requests start a worker.
use coding_agents_databricks.Base.{suc, ◌≡◌, ◌≢◌, ap, true, false, List, [], ◌∷◌, ◌++◌, arith}
use coding_agents_databricks.Base.Text.{codes}
use coding_agents_databricks.Base.Parse.{Text, same_text_eq}
use coding_agents_databricks.Broker.{
  Broker, Request, safe_equal_ascii, one_host, authorized, minting, admit,
}

safe_equal_ascii_eq : (s t : Text) → safe_equal_ascii s t ≡ true → s ≡ t
unfolding safe_equal_ascii
safe_equal_ascii_eq s t h = same_text_eq s t (ground (arith, h))

one_host_eq : (host : Text) (hosts : List Text) → one_host host hosts ≡ true → hosts ≡ host ∷ []
unfolding one_host
one_host_eq host [] h = absurd (ground (arith, h))
one_host_eq host (k ∷ []) h = ap (λ l. l ∷ []) (safe_equal_ascii_eq k host h)
one_host_eq host (k ∷ j ∷ ks) h = absurd (ground (arith, h))

authorized_request :
    (r : Request) (b : Broker)
    → authorized b r ≡ true
    → (r.path ≡ codes "/token/" ++ b.broker_capability)
      × (b.broker_capability ≢ [])
      × (r.hosts ≡ b.expected_host ∷ [])
      × (r.from_loopback ≡ true)
      × (b.closing ≡ false)
unfolding authorized
authorized_request r b a = (
  safe_equal_ascii_eq r.path (codes "/token/" ++ b.broker_capability) (ground (arith, a)),
  λ e. ground (arith, a, e),
  one_host_eq b.expected_host r.hosts (ground (arith, a)),
  ground (arith, a),
  ground (arith, a),
)

-- A request starts a worker only if its path ends in the capability, which is not empty, it comes
-- from the loopback address with the one host that the broker listens on, and a slot is free; the
-- broker is not closing, and one slot is taken.
pub minting_knows_capability :
    (r : Request) (b : Broker)
    → (admit r b).0 ≡ minting
    → (r.path ≡ codes "/token/" ++ b.broker_capability)
      × (b.broker_capability ≢ [])
      × (r.hosts ≡ b.expected_host ∷ [])
      × (r.from_loopback ≡ true)
      × (b.closing ≡ false)
      × (b.mint_slots ≡ suc (admit r b).1.mint_slots)
unfolding admit
minting_knows_capability r b h =
    let a : authorized b r ≡ true = ground (arith, h) in
    let (p, c, hosts, l, cl) = authorized_request r b a in (p, c, hosts, l, cl, ground (arith, h))
