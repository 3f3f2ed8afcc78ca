-- ===== src/Broker/RoundTrip.antt =====
-- A token on its way from the broker to the client.
use Prim.Native.Nat.{◌≤◌, ◌<◌}
use mathlib.Core.Path.{subst}
use mathlib.Core.List.{reverse, reverse_aux}
use coding_agents_databricks.Base.{
  none_of, ℕ, zero, suc, ◌≡◌, refl, sym, ap, ◌∙◌, Bool, true, false, ◌||◌, Option, some, [], ◌∷◌,
  ◌++◌, length, any, All, ltb, leb, nat_eq, ok, ok_inj, arith,
}
use coding_agents_databricks.Base.Text.{codes, is_space}
use coding_agents_databricks.Base.Parse.{Text, lstrip, strip, same_text, is_digit}
use coding_agents_databricks.Base.Url.{partition, lower_text}
use coding_agents_databricks.Base.Url.Parts.{any_none}
use coding_agents_databricks.Config.Sections.Lines.{reverse_aux-reverse_aux}
use coding_agents_databricks.Broker.{Broker, admit, is_deliverable, deliver}
use coding_agents_databricks.Broker.Digits.{decimal_on-IsDigits, All_map, All_append}
use coding_agents_databricks.Broker.Fetch.{
  url_text, started, urlsplit-url, valid_url, request_is_authorized,
}
use coding_agents_databricks.Broker.Client.{
  decimal, address, broker_url, is_capability_char, start_sp_token_broker, is_plain_text, has_break,
  check_token, decode_token_response, fetch_sp_token, send, respond, do_get,
}

-- a text without spaces
abbrev pub NoSpace : Text → Type 0
NoSpace t = All (λ c. is_space c ≡ false) t

lstrip_none : (t : Text) → NoSpace t → lstrip t ≡ t
unfolding lstrip
lstrip_none [] a = refl
lstrip_none (c ∷ t) (a, later) = rw (a, lstrip) refl

NoSpace-reverse_aux : (t acc : Text) → NoSpace t → NoSpace acc → NoSpace (reverse_aux t acc)
NoSpace-reverse_aux [] acc a b = b
NoSpace-reverse_aux (c ∷ t) acc (a, later) b = NoSpace-reverse_aux t (c ∷ acc) later (a, b)

strip_none : (t : Text) → NoSpace t → strip t ≡ t
unfolding strip
strip_none t a =
    ap (λ x. reverse (lstrip (reverse x))) (lstrip_none t a)
    ∙ ap reverse (lstrip_none (reverse t) (NoSpace-reverse_aux t [] a tt))
    ∙ reverse_aux-reverse_aux t []

digit_space : (c : ℕ) → is_digit c ≡ true → is_space c ≡ false
unfolding is_digit is_space
digit_space c h = ground (arith, h)

capability_space : (c : ℕ) → is_capability_char c ≡ true → is_space c ≡ false
unfolding is_capability_char is_digit is_space
capability_space c h = ground (arith, h)

breaks_are_spaces : (c : ℕ) → is_space c ≡ false → (nat_eq c 13 || nat_eq c 10) ≡ false
unfolding is_space
breaks_are_spaces c h = ground (arith, h)

no_break : (t : Text) → NoSpace t → any (λ c. nat_eq c 13 || nat_eq c 10) t ≡ false
no_break t a = any_none (λ c. nat_eq c 13 || nat_eq c 10) t (All_map breaks_are_spaces t a)

deliver_token :
    (m : ℕ) (body : Text) (b : Broker)
    → NoSpace body
    → 0 < length body
    → length body ≤ m
    → b.closing ≡ false
    → deliver m (some body) b ≡ some body
unfolding deliver is_deliverable
deliver_token m body b n low high open_ = ground (arith, no_break body n)

decode_token :
    (decode : Text → Option Text) (m : ℕ) (body : Text)
    → NoSpace body
    → 0 < length body
    → length body ≤ m
    → decode body ≡ some body
    → decode_token_response decode m (send 200 body) ≡ some body
unfolding decode_token_response send is_plain_text check_token has_break partition strip lstrip
    is_space lower_text same_text
decode_token decode m body n low high d =
    let f : ltb m (length body) ≡ false = ground (arith, high) in
    let g : nat_eq (length body) 0 ≡ false = ground (arith, low) in
    rw f (rw d (rw (strip_none body n) (rw g (rw (no_break body n) refl))))

url_text-NoSpace :
    (p : ℕ) (cap : Text) (chars : All (λ c. is_capability_char c ≡ true) cap)
    → NoSpace (url_text p cap chars)
unfolding address decimal is_space
url_text-NoSpace p cap chars =
    All_append (λ c. is_space c ≡ false) (codes "http://127.0.0.1:")
      (decimal p ++ (codes "/token/" ++ cap)) (none_of is_space (codes "http://127.0.0.1:") refl)
      (All_append (λ c. is_space c ≡ false) (decimal p) (codes "/token/" ++ cap)
        (All_map digit_space (decimal p) (decimal_on-IsDigits (suc p) p [] tt))
        (All_append (λ c. is_space c ≡ false) (codes "/token/") cap
          (none_of is_space (codes "/token/") refl) (All_map capability_space cap chars)))

served :
    (m p slots : ℕ) (cap body : Text) (chars : All (λ c. is_capability_char c ≡ true) cap)
    → nat_eq (length cap) 0 ≡ false
    → NoSpace body
    → 0 < length body
    → length body ≤ m
    → do_get m (some body) (started p cap chars (suc slots)) (url_text p cap chars)
      ≡ some (send 200 body)
unfolding do_get admit respond
served m p slots cap body chars k n low high =
    rw (urlsplit-url p cap chars, do_get)
      (rw (request_is_authorized p cap chars (suc slots) k)
        (rw (deliver_token m body (started p cap chars slots) n low high refl) refl))

-- From end to end: of a broker that was started with a capability of at least 32 letters, digits,
-- dashes and underscores, on a port that is not 0, a client that knows the URL gets the token that is
-- minted in time, if it is not empty, not too long, has no spaces, and is decoded as itself.
pub fetch_sp_token-do_get :
    (decode : Text → Option Text) (m asked_port max_mints max_handlers p : ℕ) (timeouts_ok : Bool)
    (cap body target : Text) (b : Broker)
    → All (λ c. is_capability_char c ≡ true) cap
    → leb 32 (length cap) ≡ true
    → 0 < p
    → p ≤ 65535
    → NoSpace body
    → 0 < length body
    → length body ≤ m
    → decode body ≡ some body
    → start_sp_token_broker asked_port max_mints max_handlers timeouts_ok p cap ≡ ok b
    → broker_url p b ≡ ok target
    → fetch_sp_token decode m (do_get m (some body) b) target ≡ some body
unfolding fetch_sp_token start_sp_token_broker broker_url
fetch_sp_token-do_get decode m asked_port zero max_handlers p timeouts_ok cap body target b chars
      long low high n some_body short d h u =
    absurd (ground (arith, h))
fetch_sp_token-do_get decode m asked_port (suc slots) max_handlers p timeouts_ok cap body target b
      chars long low high n some_body short d h u =
    let e : started p cap chars (suc slots) ≡ b = ground (arith, h) in
    let k : nat_eq (length cap) 0 ≡ false = ground (arith, long) in
    let at_start : broker_url p (started p cap chars (suc slots)) ≡ ok (url_text p cap chars) =
      rw k refl in
    let t : url_text p cap chars ≡ target = ok_inj (sym at_start ∙ ap (broker_url p) e ∙ u) in
    subst (λ x. fetch_sp_token decode m (do_get m (some body) x) target ≡ some body) e
      (subst
        (λ y.
          fetch_sp_token decode m (do_get m (some body) (started p cap chars (suc slots))) y
          ≡ some body)
        t
        (rw (strip_none (url_text p cap chars) (url_text-NoSpace p cap chars)) (
          rw (valid_url p cap chars low high long) (
            rw (served m p slots cap body chars k n some_body short)
              (decode_token decode m body n some_body short d)))))
