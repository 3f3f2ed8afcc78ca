-- ===== src/Clis/Documents/Fixed.antt =====
-- A document that an updater has rewritten is one that it leaves as it is.
use mathlib.Core.Path.{subst}
use coding_agents_databricks.Base.{
  String, ◌≡◌, refl, Bool, true, false, none, some, List, Result, ok, err, >>=-eq-ok, ok_inj,
  string_has_eq, Bool-cases, inl, inr, arith, eq_iff, ap, if◌then◌else◌, if_cases, type_error,
}
use coding_agents_databricks.Json.{Value, Fields, obj, arr, str, null, get_or, has, is_text}
use coding_agents_databricks.Json.Lookup.{get-put}
use coding_agents_databricks.Clis.Documents.{Change, rewrite_each}
use coding_agents_databricks.Clis.Opencode.{
  is_opencode_api_credential, set_key, rotate_credential, update_opencode, opencode_provider_ids,
  items_managed, not_a_dict, if_changed,
}
use coding_agents_databricks.Clis.Documents.Loop.{
  Settles, rewrite_each-IsSettledAt, rewrite_each_settled,
}

-- The change makes a document only of one that it would change.
abbrev pub IsFixed : Change → Type 0
IsFixed change = (v w : Value) → change v ≡ ok (some w) → change w ≡ ok none

set_key_again :
    (token : String) (cred : Fields)
    → set_key token (set_key token (obj cred)).1 ≡ (false, (set_key token (obj cred)).1)
unfolding set_key get_or
set_key_again token cred = elim (Bool-cases (is_text token (get_or null "key" cred))) [
  | inl s ↦ rw (s, set_key) (rw (s, set_key) refl)
  | inr s ↦
      rw (s, set_key) (ground (arith, get-put "key" "key" (str token) cred, eq_iff token token))
]

set_key-is_opencode_api_credential :
    (token : String) (cred : Fields)
    → is_opencode_api_credential (obj cred) ≡ true
    → is_opencode_api_credential (set_key token (obj cred)).1 ≡ true
unfolding set_key is_opencode_api_credential get_or has
set_key-is_opencode_api_credential token cred h =
    elim (Bool-cases (is_text token (get_or null "key" cred))) [
      | inl s ↦ rw (s, set_key) h
      | inr s ↦
          rw (s, set_key)
            (ground (
              arith,
              h,
              get-put "key" "key" (str token) cred,
              get-put "key" "type" (str token) cred,
            ))
    ]

pub credential_settles : (token : String) → Settles (rotate_credential token)
unfolding rotate_credential is_opencode_api_credential
credential_settles token k v w b h = elim (if_cases (is_opencode_api_credential v) _ _ _ h) [
  | inl (t, e) ↦ rotated v t (ap (λ x. x.1) (ok_inj e))
  | inr (f, e) ↦ absurd cc
]
  where
    rotated :
        (v : Value)
        → is_opencode_api_credential v ≡ true
        → (set_key token v).1 ≡ w
        → rotate_credential token k w ≡ ok (false, w)
    rotated (obj cred) t e =
        subst (λ x. rotate_credential token k x ≡ ok (false, x)) e
          (rw (set_key-is_opencode_api_credential token cred t) (ap ok (set_key_again token cred)))
    rotated _ t e = absurd (ground (arith, t))

-- A loop that has changed a document changes it no more.
pub rewrite_again :
    (rewrite : String → Value → Result (Bool × Value)) (ks : List String) (fs : Fields)
    (r : Bool × Fields)
    → Settles rewrite
    → rewrite_each rewrite ks false fs ≡ ok r
    → rewrite_each rewrite ks false r.1 ≡ ok (false, r.1)
rewrite_again rewrite ks fs r settles h =
    rewrite_each_settled rewrite ks false r.1
      (rewrite_each-IsSettledAt rewrite settles ks false fs r h)

pub if_changed-some :
    (document : Fields → Value) (r : Bool × Fields) (w : Value)
    → if_changed document r ≡ some w
    → document r.1 ≡ w
unfolding if_changed
if_changed-some document (true, fs) w h = cc
if_changed-some document (false, fs) w h = absurd cc

not_a_dict-some : (v w : Value) → ¬ (not_a_dict v ≡ ok (some w))
unfolding not_a_dict
not_a_dict-some (arr xs) w h =
    let (found, e, rest) = >>=-eq-ok (items_managed opencode_provider_ids xs) _ h in
    no_document found rest
  where
    no_document : (found : Bool) → ¬ ((if found then err type_error else ok none) ≡ ok (some w))
    no_document true h = cc
    no_document false h = cc
not_a_dict-some _ w h = cc

pub update_opencode-IsFixed : (token : String) → IsFixed (update_opencode token)
unfolding update_opencode if_changed
update_opencode-IsFixed token (obj auth) w h =
    let (r, e, rest) =
      >>=-eq-ok (rewrite_each (rotate_credential token) opencode_provider_ids false auth) _ h in
    subst (λ x. update_opencode token x ≡ ok none) (if_changed-some obj r w (ok_inj rest))
      (rw
        (rewrite_again (rotate_credential token) opencode_provider_ids auth r
          (credential_settles token) e)
        refl)
update_opencode-IsFixed token v w h = absurd (not_a_dict-some v w h)
