-- ===== src/Clis/Opencode/Providers.antt =====
-- `_update_opencode_provider_headers` leaves what it has rewritten.
use mathlib.Core.Path.{subst}
use coding_agents_databricks.Base.{
  String, ◌≡◌, refl, Bool, false, ◌&&◌, not, Option, none, some, Result, ok, ◌>>=◌, >>=-eq-ok,
  ok_inj, some_inj, ◌==◌, string_has_eq, Bool-cases, inl, inr, arith, eq_iff, ap, ◌∙◌, if_cases,
}
use coding_agents_databricks.Base.Text.{contains}
use coding_agents_databricks.Json.{Value, Fields, obj, str, get, put, as_dict}
use coding_agents_databricks.Json.Lookup.{get-put, put-put}
use coding_agents_databricks.Clis.Documents.{str_append, text_starts_with, rewrite_each}
use coding_agents_databricks.Clis.Opencode.{
  if_changed, rotate_authorization, without_header, header_at, rotate_headers, put_headers,
  rotate_api_key, key_at, options_at, rotate_provider, rotate_providers,
  update_opencode_provider_headers, opencode_provider_ids,
}
use coding_agents_databricks.Clis.Documents.Loop.{Settles}
use coding_agents_databricks.Clis.Documents.Fixed.{IsFixed, rewrite_again, if_changed-some}

authorization_same :
    (token : String) (headers : Fields)
    → rotate_authorization token (str_append "Bearer " token) headers ≡ none
unfolding rotate_authorization
authorization_same token headers =
    ground (arith, eq_iff (str_append "Bearer " token) (str_append "Bearer " token))

authorization_again :
    (token k authorization : String) (headers new : Fields)
    → rotate_authorization token authorization headers ≡ some new
    → header_at token k (get "Authorization" new) new ≡ ok none
unfolding rotate_authorization header_at
authorization_again token k authorization headers new h =
    elim (if_cases
      (not (contains "{env:" authorization) && not (authorization == str_append "Bearer " token))
      (some (put "Authorization" (str (str_append "Bearer " token)) headers)) none (some new) h) [
        | inl (t, e) ↦
            subst (λ x. header_at token k (get "Authorization" x) x ≡ ok none) (some_inj e)
              (written headers)
        | inr (f, e) ↦ absurd cc
      ]
  where
    written :
        (headers : Fields)
        → let new = put "Authorization" (str (str_append "Bearer " token)) headers in
          header_at token k (get "Authorization" new) new ≡ ok none
    written headers =
        rw
          (
            get-put "Authorization" "Authorization" (str (str_append "Bearer " token)) headers,
            header_at,
          )
          (ap ok (
            authorization_same token
              (put "Authorization" (str (str_append "Bearer " token)) headers)))

headers_again :
    (token k : String) (o : Option Value) (new : Fields)
    → rotate_headers token k o ≡ ok (some new)
    → rotate_headers token k (some (obj new)) ≡ ok none
unfolding rotate_headers header_at without_header
headers_again token k (some (obj headers)) new h = headers_at (get "Authorization" headers) h
  where
    headers_at :
        (o : Option Value)
        → header_at token k o headers ≡ ok (some new)
        → header_at token k (get "Authorization" new) new ≡ ok none
    headers_at (some (str authorization)) e =
        authorization_again token k authorization headers new (ok_inj e)
    headers_at none e = absurd (ground (arith, e))
    headers_at (some _) e = absurd cc
headers_again token k _ new h = absurd (ground (arith, h))

-- The options after a first run, as a second one sees them.
abbrev IsSeen : String → String → Fields → Type 0
IsSeen token k options =
    (key : String) × (get "apiKey" options ≡ some (str key))
    × (rotate_api_key token key options ≡ (false, options))
    × (rotate_headers token k (get "headers" options) ≡ ok none)

key_seen :
    (token api_key : String) (options : Fields)
    → get "apiKey" options ≡ some (str api_key)
    → (key : String) × (get "apiKey" (rotate_api_key token api_key options).1 ≡ some (str key))
      × ((fs : Fields) → rotate_api_key token key fs ≡ (false, fs))
      × (get "headers" (rotate_api_key token api_key options).1 ≡ get "headers" options)
unfolding rotate_api_key
key_seen token api_key options g =
    elim (Bool-cases (not (text_starts_with "{" api_key) && not (api_key == token))) [
      | inl t ↦ (
        token,
        rw (t, rotate_api_key) (ground (arith, get-put "apiKey" "apiKey" (str token) options)),
        λ fs. ground (arith, eq_iff token token),
        rw (t, rotate_api_key) (ground (arith, get-put "apiKey" "headers" (str token) options)),
      )
      | inr f ↦ (
        api_key,
        rw (f, rotate_api_key) g,
        λ fs. rw (f, rotate_api_key) refl,
        rw (f, rotate_api_key) refl,
      )
    ]

options-IsSeen :
    (token k api_key : String) (options : Fields) (headers : Option Fields)
    → get "apiKey" options ≡ some (str api_key)
    → rotate_headers token k (get "headers" options) ≡ ok headers
    → IsSeen token k (put_headers (rotate_api_key token api_key options) headers).1
unfolding put_headers
options-IsSeen token k api_key options none g h =
    let (key, a, b, c) = key_seen token api_key options g in (key, a, b _, rw c h)
options-IsSeen token k api_key options (some headers) g h =
    let (key, a, b, c) = key_seen token api_key options g in
    let options1 = (rotate_api_key token api_key options).1 in
    (
      key,
      get-put "headers" "apiKey" (obj headers) options1 ∙ a,
      b _,
      rw (get-put "headers" "headers" (obj headers) options1) (headers_again token k _ headers h),
    )

seen_again :
    (token k : String) (options provider : Fields)
    → IsSeen token k options
    → rotate_provider token k (obj (put "options" (obj options) provider))
      ≡ ok (false, obj (put "options" (obj options) provider))
unfolding rotate_provider options_at key_at put_headers
seen_again token k options provider (key, a, b, c) =
    rw (get-put "options" "options" (obj options) provider, options_at)
      (rw (a, key_at)
        (rw c (
          rw b (
            ap (λ x. ok (false, obj x)) (put-put "options" (obj options) (obj options) provider)))))

abbrev place : Fields → Bool × Fields → Result (Bool × Value)
place provider r = ok (r.0, obj (put "options" (obj r.1) provider))

provider_settles : (token : String) → Settles (rotate_provider token)
unfolding rotate_provider options_at key_at
provider_settles token k (obj provider) w b h = at_options (get "options" provider) h
  where
    at_key :
        (options : Fields) (o : Option Value)
        → get "apiKey" options ≡ o
        → (key_at token k o options >>= place provider) ≡ ok (b, w)
        → rotate_provider token k w ≡ ok (false, w)
    at_key options (some (str api_key)) g e =
        let (r, e1, rest) = >>=-eq-ok (key_at token k (some (str api_key)) options) _ e in
        let (headers, e2, last) = >>=-eq-ok (rotate_headers token k (get "headers" options)) _ e1 in
        let e3 : put_headers (rotate_api_key token api_key options) headers ≡ r = ok_inj last in
        let e4 : obj (put "options" (obj r.1) provider) ≡ w = ap (λ x. x.1) (ok_inj rest) in
        subst (λ x. rotate_provider token k x ≡ ok (false, x)) e4
          (seen_again token k r.1 provider (
            subst (λ x. IsSeen token k x.1) e3
              (options-IsSeen token k api_key options headers g e2)))
    at_key options none g e = absurd cc
    at_key options (some _) g e = absurd cc

    at_options :
        (o : Option Value)
        → options_at token k o provider ≡ ok (b, w)
        → rotate_provider token k w ≡ ok (false, w)
    at_options (some (obj options)) e = at_key options (get "apiKey" options) refl e
    at_options none e = absurd cc
    at_options (some _) e = absurd cc
provider_settles token k _ w b h = absurd cc

put_provider_again :
    (token : String) (config fs : Fields)
    → rewrite_each (rotate_provider token) opencode_provider_ids false fs ≡ ok (false, fs)
    → update_opencode_provider_headers token (obj (put "provider" (obj fs) config)) ≡ ok none
unfolding update_opencode_provider_headers rotate_providers if_changed as_dict
put_provider_again token config fs h =
    rw (get-put "provider" "provider" (obj fs) config, rotate_providers) (rw h refl)

pub update_opencode_provider_headers-IsFixed :
    (token : String) → IsFixed (update_opencode_provider_headers token)
unfolding update_opencode_provider_headers rotate_providers get as_dict
update_opencode_provider_headers-IsFixed token (obj config) w h =
    at_provider (get "provider" config) h
  where
    at_provider :
        (o : Option Value)
        → rotate_providers token config o ≡ ok (some w)
        → update_opencode_provider_headers token w ≡ ok none
    at_provider (some (obj providers)) e =
        let (r, e1, rest) =
          >>=-eq-ok (rewrite_each (rotate_provider token) opencode_provider_ids false providers) _
            e in
        subst (λ x. update_opencode_provider_headers token x ≡ ok none)
          (if_changed-some (λ fs. obj (put "provider" (obj fs) config)) r w (ok_inj rest))
          (put_provider_again token config r.1 (
            rewrite_again (rotate_provider token) opencode_provider_ids providers r
              (provider_settles token) e1))
    at_provider none e = absurd cc
    at_provider (some _) e = absurd cc
update_opencode_provider_headers-IsFixed token _ w h = absurd cc
