-- ===== src/Clis/Documents/Settings.antt =====
-- `_update_claude` and `_update_pi` leave what they have rewritten.
use mathlib.Core.Path.{subst}
use mathlib.Core.Option
use coding_agents_databricks.Base.{
  String, ◌≡◌, refl, sym, Bool, true, false, ◌||◌, Option, none, some, ok, >>=-eq-ok, ok_inj,
  some_inj, ◌==◌, string_has_eq, Option-cases, ◌≢◌, inl, inr, arith, eq_iff, ap, ◌∙◌, if_cases,
}
use coding_agents_databricks.Json.{
  Value, Fields, Items, obj, arr, str, float, int, bool, null, field, end, cons, nil, get, get_or,
  has, put, as_dict, hashable,
}
use coding_agents_databricks.Json.Lookup.{get-put, put-get, put-put, same_key_refl}
use coding_agents_databricks.Clis.Documents.{
  text_starts_with, rewrite_each, same_value, same_fields, same_items, pi_key, pi_provider,
  put_provider, update_pi, replace_header, refresh_header, refresh_foreign, has_otel, set_static,
  static_key, otel_keys, finish_claude, claude_env, update_claude,
}
use coding_agents_databricks.Clis.Documents.Loop.{Settles, get-rewrite_each, keeps-rewrite_each}
use coding_agents_databricks.Clis.Documents.Headers.{NoComma, replace_authorization_again}
use coding_agents_databricks.Clis.Documents.Fixed.{IsFixed, rewrite_again}

pi_key_again :
    (token : String) (o : Option Value) (provider new : Fields)
    → pi_key token o provider ≡ ok (some new)
    → pi_key token (get "apiKey" new) new ≡ ok none
unfolding pi_key
pi_key_again token (some (str api_key)) provider new h =
    elim (if_cases (text_starts_with "!" api_key || api_key == token) (ok none)
      (ok (some (put "apiKey" (str token) provider))) (ok (some new)) h) [
        | inl (t, e) ↦ absurd cc
        | inr (f, e) ↦
            subst (λ x. pi_key token (get "apiKey" x) x ≡ ok none) (some_inj (ok_inj e))
              (rw (get-put "apiKey" "apiKey" (str token) provider, pi_key)
                (ground (arith, eq_iff token token)))
      ]
pi_key_again token none provider new h = absurd cc
pi_key_again token (some _) provider new h = absurd cc

pi_provider_again :
    (token : String) (o : Option Value) (new : Fields)
    → pi_provider token o ≡ ok (some new)
    → pi_provider token (some (obj new)) ≡ ok none
unfolding pi_provider
pi_provider_again token (some (obj provider)) new h =
    pi_key_again token (get "apiKey" provider) provider new h
pi_provider_again token none new h = absurd cc
pi_provider_again token (some _) new h = absurd cc

put_provider_again :
    (token : String) (config providers provider : Fields)
    → pi_provider token (some (obj provider)) ≡ ok none
    → update_pi token (put_provider config providers provider) ≡ ok none
unfolding update_pi put_provider as_dict get_or
put_provider_again token config providers provider h =
    let providers' = put "databricks-claude" (obj provider) providers in
    rw (get-put "providers" "providers" (obj providers') config, get_or)
      (rw (get-put "databricks-claude" "databricks-claude" (obj provider) providers) (rw h refl))

map-some :
    (f : Fields → Value) (o : Option Fields) (w : Value)
    → Option.map f o ≡ some w
    → (x : Fields) × (o ≡ some x) × (f x ≡ w)
map-some f none w h = absurd cc
map-some f (some x) w h = (x, refl, some_inj h)

pub update_pi-IsFixed : (token : String) → IsFixed (update_pi token)
unfolding update_pi
update_pi-IsFixed token v w h =
    let (config, e1, rest1) = >>=-eq-ok (as_dict v) _ h in
    let (providers, e2, rest2) =
      >>=-eq-ok (as_dict (get_or (obj end) "providers" config)) _ rest1 in
    let (provider, e3, rest3) =
      >>=-eq-ok (pi_provider token (get "databricks-claude" providers)) _ rest2 in
    let (new, e4, e5) = map-some (put_provider config providers) provider w (ok_inj rest3) in
    let e6 : pi_provider token (get "databricks-claude" providers) ≡ ok (some new) =
      e3 ∙ ap ok e4 in
    subst (λ x. update_pi token x ≡ ok none) e5
      (put_provider_again token config providers new
        (pi_provider_again token (get "databricks-claude" providers) new e6))

mutual
  unfolding same_value same_fields same_items hashable

  same_value_refl : (v : Value) → same_value v v ≡ true
  same_value_refl (obj a) = same_fields_refl a
  same_value_refl (arr a) = same_items_refl a
  same_value_refl (str s) = ground (arith, eq_iff s s)
  same_value_refl null = same_key_refl null refl
  same_value_refl (int n) = same_key_refl (int n) refl
  same_value_refl (bool b) = same_key_refl (bool b) refl
  same_value_refl (float m e) = same_key_refl (float m e) refl

  same_fields_refl : (fs : Fields) → same_fields fs fs ≡ true
  same_fields_refl end = refl
  same_fields_refl (field k v fs) =
      ground (arith, eq_iff k k, same_value_refl v, same_fields_refl fs)

  same_items_refl : (xs : Items) → same_items xs xs ≡ true
  same_items_refl nil = refl
  same_items_refl (cons v xs) = ground (arith, same_value_refl v, same_items_refl xs)

finish_again :
    (b : Bool) (original settings : Fields) (w : Value)
    → finish_claude b original settings ≡ ok (some w)
    → (obj settings ≡ w) × (finish_claude b settings settings ≡ ok none)
unfolding finish_claude
finish_again b original settings w h = ground (arith, h, same_fields_refl settings)

finish_same :
    (b : Bool) (settings : Fields) (w : Value) → finish_claude b settings settings ≢ ok (some w)
unfolding finish_claude
finish_same b settings w h = ground (arith, h, same_fields_refl settings)

has_otel-put :
    (k : String) (v w : Value) (fs : Fields)
    → get k fs ≡ some v
    → has_otel (put k w fs) ≡ has_otel fs
unfolding has_otel get put
has_otel-put k v w end g = absurd cc
has_otel-put k v w (field j u fs) g = ground (arith, has_otel-put k v w fs)

header_settles : (token : String) → NoComma token → Settles (refresh_header token)
unfolding refresh_header replace_header
header_settles token n k (str headers) w b h =
    subst (λ x. refresh_header token k x ≡ ok (false, x)) (ap (λ x. x.1) (ok_inj h))
      (ap (λ x. ok (false, str x)) (replace_authorization_again token headers n))
header_settles token n k _ w b h = absurd cc

has_of_some : (k : String) (fs : Fields) (v : Value) → get k fs ≡ some v → has k fs ≡ true
unfolding has
has_of_some k fs v g = rw (g, has) refl

set_static_there :
    (token : String) (env : Fields) (v : Value)
    → get static_key env ≡ some v
    → set_static token env ≡ put static_key (str token) env
unfolding set_static
set_static_there token env v g =
    let there : has static_key env ≡ true = has_of_some static_key env v g in
    rw (there, set_static) refl

set_static_absent :
    (token : String) (env : Fields) → has static_key env ≡ false → set_static token env ≡ env
unfolding set_static
set_static_absent token env f = rw (f, set_static) refl

-- what the first run leaves of the static token
set_static_again :
    (token : String) (env : Fields) (r : Bool × Fields)
    → rewrite_each (refresh_header token) otel_keys false (set_static token env) ≡ ok r
    → (set_static token r.1 ≡ r.1) × (has static_key r.1 ≡ has static_key env)
unfolding set_static has
set_static_again token env r h =
    let e : get static_key r.1 ≡ get static_key (set_static token env) =
      get-rewrite_each (refresh_header token) otel_keys false (set_static token env) r static_key
        refl h in
    elim (Option-cases (get static_key env)) [
      | inl n ↦
          let f : has static_key env ≡ false = rw (n, has) refl in
          let g : has static_key r.1 ≡ false = rw (e, has) (rw (set_static_absent token env f) f) in
          (set_static_absent token r.1 g, g ∙ sym f)
      | inr (v, t) ↦
          let g : get static_key r.1 ≡ some (str token) =
            e
            ∙ ap (get static_key) (set_static_there token env v t)
            ∙ get-put static_key static_key (str token) env in
          (
            set_static_there token r.1 (str token) g ∙ put-get static_key (str token) r.1 g,
            has_of_some static_key r.1 (str token) g ∙ sym (has_of_some static_key env v t),
          )
    ]

has_otel-refreshed :
    (token : String) (env : Fields) (r : Bool × Fields)
    → rewrite_each (refresh_header token) otel_keys false (set_static token env) ≡ ok r
    → has_otel r.1 ≡ has_otel env
unfolding set_static has
has_otel-refreshed token env r h =
    keeps-rewrite_each (refresh_header token) has_otel has_otel-put otel_keys false
      (set_static token env) r h
    ∙ with_static
  where
    with_static : has_otel (set_static token env) ≡ has_otel env
    with_static = elim (Option-cases (get static_key env)) [
      | inl n ↦ ap has_otel (set_static_absent token env (rw (n, has) refl))
      | inr (v, g) ↦
          ap has_otel (set_static_there token env v g) ∙ has_otel-put static_key v (str token) env g
    ]

env_again :
    (token : String) (settings env : Fields) (r : Bool × Fields)
    → NoComma token
    → rewrite_each (refresh_header token) otel_keys false (set_static token env) ≡ ok r
    → let settings' = put "env" (obj r.1) settings in
      finish_claude (has static_key env || has_otel env) settings' settings' ≡ ok none
      → update_claude token (obj settings') ≡ ok none
unfolding update_claude claude_env as_dict
env_again token settings env r n h fin =
    let (a, b) = set_static_again token env r h in
    rw (get-put "env" "env" (obj r.1) settings, claude_env)
      (rw a (
        rw
          (rewrite_again (refresh_header token) otel_keys (set_static token env) r
            (header_settles token n) h)
          (rw b (
            rw (has_otel-refreshed token env r h)
              (rw (put-put "env" (obj r.1) (obj r.1) settings) fin)))))

pub update_claude-IsFixed : (token : String) → NoComma token → IsFixed (update_claude token)
unfolding update_claude claude_env as_dict get
update_claude-IsFixed token n (obj settings) w h = at_env (get "env" settings) h
  where
    at_env :
        (o : Option Value)
        → claude_env token settings o ≡ ok (some w)
        → update_claude token w ≡ ok none
    at_env none e = absurd (finish_same false settings w e)
    at_env (some (obj env)) e =
        let (r, e1, rest) =
          >>=-eq-ok (rewrite_each (refresh_header token) otel_keys false (set_static token env)) _
            e in
        let (e2, fin) =
          finish_again (has static_key env || has_otel env) settings (put "env" (obj r.1) settings)
            w rest in
        subst (λ x. update_claude token x ≡ ok none) e2 (env_again token settings env r n e1 fin)
    at_env (some v) e =
        let (b, e1, rest) = >>=-eq-ok (refresh_foreign otel_keys v) _ e in
        absurd (finish_same false settings w rest)
update_claude-IsFixed token n _ w h = absurd cc
