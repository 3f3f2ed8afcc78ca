-- ===== src/Clis/Opencode/Credentials.antt =====
-- `_update_opencode`: which credentials it rotates.
use coding_agents_databricks.Base.{
  String, ◌≡◌, sym, true, false, Option, none, some, List, [], ◌∷◌, All, any, ok, err, ok_inj,
  >>=-eq-ok, ◌==◌, string_has_eq, if_cases, value_error, arith, eq_iff, ◌⊎◌, inl, inr,
}
use coding_agents_databricks.Json.{
  Value, Fields, obj, str, arr, float, int, bool, null, get, get_or, is_text,
}
use coding_agents_databricks.Clis.Documents.{rewrite_each}
use coding_agents_databricks.Clis.Opencode.{
  is_opencode_api_credential, set_key, rotate_credential, opencode_provider_ids, update_opencode,
}
use coding_agents_databricks.Clis.Documents.Loop.{
  IsSettledAt, rewrite_each-IsSettledAt, get-rewrite_each,
}
use coding_agents_databricks.Clis.Documents.Fixed.{credential_settles, if_changed-some}

-- The provider is not there, or it is a credential of the API kind with this token.
abbrev pub Carries : String → Fields → String → Type 0
Carries token auth k =
    (get k auth ≡ none)
    ⊎ ((cred : Fields) × (get k auth ≡ some (obj cred))
        × (is_opencode_api_credential (obj cred) ≡ true)
        × (get "key" cred ≡ some (str token)))

key_is :
    (token : String) (o : Option Value)
    → is_text token (elim o [ some v ↦ v | none ↦ null ]) ≡ true
    → o ≡ some (str token)
key_is token (some (str s)) h = ground (arith, h, eq_iff s token)
key_is token (some null) h = absurd cc
key_is token (some (bool b)) h = absurd cc
key_is token (some (int n)) h = absurd cc
key_is token (some (float m e)) h = absurd cc
key_is token (some (arr xs)) h = absurd cc
key_is token (some (obj fs)) h = absurd cc
key_is token none h = absurd cc

kept_key :
    (token : String) (cred : Fields)
    → set_key token (obj cred) ≡ (false, obj cred)
    → get "key" cred ≡ some (str token)
unfolding set_key get_or
kept_key token cred h = elim (if_cases (is_text token (get_or null "key" cred)) _ _ _ h) [
  | inl (t, e) ↦ key_is token (get "key" cred) t
  | inr (f, e) ↦ absurd cc
]

settled-Carries :
    (token : String) (auth : Fields) (k : String)
    → IsSettledAt (rotate_credential token) auth k
    → Carries token auth k
unfolding rotate_credential is_opencode_api_credential
settled-Carries token auth k (inl n) = inl n
settled-Carries token auth k (inr (obj cred, g, r)) =
    elim (if_cases (is_opencode_api_credential (obj cred)) (ok (set_key token (obj cred)))
      (err value_error) (ok (false, obj cred)) r) [
        | inl (t, e) ↦ inr (cred, g, t, kept_key token cred (ok_inj e))
        | inr (f, e) ↦ absurd cc
      ]
settled-Carries token auth k (inr (_, g, r)) = absurd cc

all_carry :
    (token : String) (auth : Fields) (ks : List String)
    → All (IsSettledAt (rotate_credential token) auth) ks
    → All (Carries token auth) ks
all_carry token auth [] a = tt
all_carry token auth (k ∷ ks) (a, later) =
    (settled-Carries token auth k a, all_carry token auth ks later)

-- A rewritten auth.json: each of the managed providers that is there is a credential of the API kind
-- with the token, and every other provider is as it was.
pub update_opencode_rotates :
    (token : String) (auth : Fields) (w : Value)
    → update_opencode token (obj auth) ≡ ok (some w)
    → (new : Fields) × (w ≡ obj new)
      × All (Carries token new) opencode_provider_ids
      × ((j : String) → any (λ k. k == j) opencode_provider_ids ≡ false → get j new ≡ get j auth)
unfolding update_opencode
update_opencode_rotates token auth w h =
    let (r, e, rest) =
      >>=-eq-ok (rewrite_each (rotate_credential token) opencode_provider_ids false auth) _ h in
    (
      r.1,
      sym (if_changed-some obj r w (ok_inj rest)),
      all_carry token r.1 opencode_provider_ids (
          rewrite_each-IsSettledAt (rotate_credential token) (credential_settles token)
            opencode_provider_ids false auth r e),
      λ j a. get-rewrite_each (rotate_credential token) opencode_provider_ids false auth r j a e,
    )
