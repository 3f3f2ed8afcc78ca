-- ===== src/Auth/Gate.antt =====
-- Whom the two checks of authorization let in.
use coding_agents_databricks.Base.{
  ◌≡◌, ◌∙◌, sym, ap, true, false, Option, none, some, [], ◌∷◌, arith, Option-cases, inl, inr,
}
use coding_agents_databricks.Base.Parse.{Text, same_text, same_text_eq}
use coding_agents_databricks.Auth.{
  Config, Headers, first_of, given, get_request_user, owner_check_disabled, check_authorization,
  check_ws_authorization, is_exempt, authorize_request,
}

given_eq : (o : Option Text) (t : Text) → given o ≡ some t → o ≡ some t
unfolding given first_of
given_eq none t h = h
given_eq (some []) t h = absurd (ground (arith, h))
given_eq (some (c ∷ cs)) t h = h

-- A WebSocket is let in exactly if a request with the same headers is authorized.
pub check_ws_authorization-check_authorization :
    (c : Config) (h : Headers) → check_ws_authorization c h ≡ (check_authorization c h).0
unfolding check_ws_authorization check_authorization get_request_user
check_ws_authorization-check_authorization c h = ground arith

-- In a deployed application whose owner check is not disabled, a request to a path that is not
-- exempt goes on only if it names a user, and that user is the owner.
pub authorized_is_owner :
    (c : Config) (path : Text) (h : Headers)
    → authorize_request c path h ≡ none
    → is_exempt path ≡ false
    → c.is_databricks_apps ≡ true
    → owner_check_disabled c ≡ false
    → (user : Text) × (get_request_user h ≡ some user) × (c.app_owner ≡ some user)
unfolding authorize_request check_authorization
authorized_is_owner c path h a e d o = elim (Option-cases (given c.app_owner)) [
  | inl n ↦ absurd (ground (arith, a, e, d, o, n))
  | inr (owner, p) ↦ elim (Option-cases (given (get_request_user h))) [
    | inl n ↦ absurd (ground (arith, a, e, d, o, p, n))
    | inr (user, q) ↦
        let s : same_text user owner ≡ true = ground (arith, a, e, d, o, p, q) in
        (
          user,
          given_eq (get_request_user h) user q,
          given_eq c.app_owner owner p ∙ ap some (sym (same_text_eq user owner s)),
        )
  ]
]
