-- ===== src/Owner/Recovery.antt =====
-- The owner that is resolved late.
use mathlib.Core.Path.{subst}
use coding_agents_databricks.Base.{
  ◌≡◌, refl, ap, ◌∙◌, true, Option, none, some, List, [], ◌∷◌, map, arith, ◌⊎◌, inl, inr, ok, err,
  Result-cases, ok_inj, Option-cases, Bool-cases,
}
use coding_agents_databricks.Base.Text.{lower_code}
use coding_agents_databricks.Base.Parse.{Text}
use coding_agents_databricks.Auth.{
  Config, Headers, first_of, given, get_request_user, owner_check_disabled, check_authorization,
}
use coding_agents_databricks.Gateway.Names.Order.{same_refl}
use coding_agents_databricks.Owner.{
  Answer, api_raised, described, Attempt, owner_from_apps_api, described_owner, text_of, retry,
}

-- The Apps API names an owner in some attempt.
abbrev pub Names : Option Text → List Attempt → Type 0
Names app_name [] = ⊥
Names app_name (a ∷ attempts) =
    ((owner : Text) × (owner_from_apps_api app_name a.answer ≡ ok (some owner)))
    ⊎ Names app_name attempts

-- A name that is not empty.
abbrev IsGiven : Text → Type 0
IsGiven t = given (some t) ≡ some t

IsGiven-given : (b : Option Text) (t : Text) → given b ≡ some t → IsGiven t
unfolding given first_of
IsGiven-given none t h = absurd (ground (arith, h))
IsGiven-given (some []) t h = absurd (ground (arith, h))
IsGiven-given (some (c ∷ cs)) t h = subst (λ u. given u ≡ u) h refl

IsGiven-first_of : (a b : Option Text) (t : Text) → first_of a (given b) ≡ some t → IsGiven t
unfolding first_of given
IsGiven-first_of none b t h = IsGiven-given b t h
IsGiven-first_of (some []) b t h = IsGiven-given b t h
IsGiven-first_of (some (c ∷ cs)) b t h = subst (λ u. given u ≡ u) h refl

named-IsGiven :
    (app_name : Option Text) (answer : Answer) (t : Text)
    → owner_from_apps_api app_name answer ≡ ok (some t)
    → IsGiven t
unfolding owner_from_apps_api
named-IsGiven app_name api_raised t h = elim (Option-cases (given app_name)) [
  | inl n ↦ absurd (ground (arith, h, n))
  | inr (name, e) ↦ absurd (ground (arith, h, e))
]
named-IsGiven app_name (described description creator) t h = elim (Option-cases (given app_name)) [
  | inl n ↦ absurd (ground (arith, h, n))
  | inr (name, e) ↦
      IsGiven-first_of (described_owner (text_of description))
        (some (map lower_code (text_of creator))) t (ok_inj (rw (e, owner_from_apps_api) at h))
]

-- The rest of an attempt before which no owner was resolved.
answered :
    (app_name : Option Text) (answer : Answer) (rest : Option Text)
    → ((t : Text) × (rest ≡ some t) × IsGiven t)
      ⊎ ((t : Text) × (owner_from_apps_api app_name answer ≡ ok (some t)))
    → (t : Text) × ((elim (owner_from_apps_api app_name answer) [
      | err e ↦ rest
      | ok none ↦ rest
      | ok (some owner) ↦ some owner
    ])
        ≡ some t)
      × IsGiven t
answered app_name answer rest (inr (t, e)) = (t, rw e refl, named-IsGiven app_name answer t e)
answered app_name answer rest (inl (t, r, g)) =
    elim (Result-cases (owner_from_apps_api app_name answer)) [
      | inl (x, e) ↦ (t, rw e r, g)
      | inr (o, e) ↦ elim (Option-cases o) [
        | inl n ↦ (t, rw (e ∙ ap ok n) r, g)
        | inr (u, q) ↦ (u, rw (e ∙ ap ok q) refl, named-IsGiven app_name answer u (e ∙ ap ok q))
      ]
    ]

retry-Names :
    (app_name : Option Text) (attempts : List Attempt)
    → Names app_name attempts
    → (t : Text) × (retry app_name attempts none ≡ some t) × IsGiven t
unfolding retry
retry-Names app_name [] n = absurd n
retry-Names app_name (a ∷ attempts) n = elim (Option-cases (given (first_of a.elsewhere none))) [
  | inr (t, e) ↦ (t, rw (e, retry) refl, IsGiven-given (first_of a.elsewhere none) t e)
  | inl e ↦
      let (t, r, g) =
        answered app_name a.answer (retry app_name attempts none)
          (elim n [ inl x ↦ inr x | inr later ↦ inl (retry-Names app_name attempts later) ]) in
      (t, rw (e, retry) r, g)
]

owner_is_let_in :
    (c : Config) (h : Headers) (owner : Text)
    → c.app_owner ≡ some owner
    → IsGiven owner
    → get_request_user h ≡ some owner
    → check_authorization c h ≡ (true, none)
unfolding check_authorization
owner_is_let_in c h owner o g u =
    let p : given c.app_owner ≡ some owner = ap given o ∙ g in
    let q : given (get_request_user h) ≡ some owner = ap given u ∙ g in
    elim (Bool-cases (owner_check_disabled c)) [
      | inl d ↦ rw (d, check_authorization) refl
      | inr d ↦ rw (d, p, q, same_refl owner, check_authorization) refl
    ]

-- If the Apps API names an owner in some attempt, the application has an owner after the attempts,
-- whatever fails before and whatever is resolved elsewhere; and from then on a request of that owner
-- is authorized.
pub retry_recovers :
    (app_name : Option Text) (attempts : List Attempt)
    → Names app_name attempts
    → (owner : Text) × (retry app_name attempts none ≡ some owner)
      × ((c : Config) (h : Headers)
          → get_request_user h ≡ some owner
          → check_authorization (record c { app_owner = retry app_name attempts none }) h
            ≡ (true, none))
retry_recovers app_name attempts n =
    let (owner, r, g) = retry-Names app_name attempts n in
    (
      owner,
      r,
      λ c h u.
          owner_is_let_in (record c { app_owner = retry app_name attempts none }) h owner r g u,
    )
