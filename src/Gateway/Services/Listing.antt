-- ===== src/Gateway/Services/Listing.antt =====
-- The list of model services, whatever the gateway answers.
use mathlib.Core.Path.{subst}
use coding_agents_databricks.Base.{
  ℕ, zero, suc, ◌≡◌, refl, sym, ◌∙◌, Bool, true, false, Option, none, some, List, [], ◌∷◌, ◌++◌,
  All, arith, any, ok, Bool-cases, Option-cases, inl, inr, if◌then◌else◌,
}
use coding_agents_databricks.Base.Text.{codes, is_prefix}
use coding_agents_databricks.Base.Parse.{Text, strip, same_text, same_text_eq}
use coding_agents_databricks.Json.{
  Value, Items, null, str, obj, cons, nil, get_or, truthy, member, hashable, same_key,
}
use coding_agents_databricks.Gateway.Names.{without, lex_leb}
use coding_agents_databricks.Gateway.Names.Order.{lex_total, lex_trans, lex_antisym, same_sym}
use coding_agents_databricks.Gateway.Services.{
  read_page, named_id, insert_id, sorted_set, system_prefix, service_id, service_ids, list_pages,
  list_model_services,
}

-- `a < b` of texts
abbrev pub Before : Text → Text → Type 0
Before a b = (lex_leb a b ≡ true) × (same_text a b ≡ false)

-- in order, and each id once
abbrev pub Ascending : List Text → Type 0
Ascending [] = Unit
Ascending (id ∷ ids) = All (Before id) ids × Ascending ids

abbrev pub IsSystem : Text → Type 0
IsSystem id = is_prefix system_prefix id ≡ true

All-insert_id :
    (P : Text → Type 0) (id : Text) (ids : List Text) → P id → All P ids → All P (insert_id id ids)
unfolding insert_id
All-insert_id P id [] p a = (p, tt)
All-insert_id P id (other ∷ ids) p (a, rest) = elim (Bool-cases (same_text id other)) [
  | inl t ↦ rw t (a, rest)
  | inr f ↦ elim (Bool-cases (lex_leb id other)) [
    | inl t ↦ rw (f, t) (p, (a, rest))
    | inr g ↦ rw (f, g) (a, All-insert_id P id ids p rest)
  ]
]

Before-trans : (a b c : Text) → Before a b → Before b c → Before a c
Before-trans a b c (h, n) (k, m) = (
  lex_trans a b c h k,
  elim (Bool-cases (same_text a c)) [
    | inl t ↦
        let back = subst (λ x. lex_leb x b ≡ true) (same_text_eq a c t) h in
        absurd (ground (arith, m, lex_antisym b c k back))
    | inr f ↦ f
  ],
)

All-Before : (a b : Text) (ids : List Text) → Before a b → All (Before b) ids → All (Before a) ids
All-Before a b [] h r = tt
All-Before a b (c ∷ ids) h (r, rest) = (Before-trans a b c h r, All-Before a b ids h rest)

insert_id-Ascending : (id : Text) (ids : List Text) → Ascending ids → Ascending (insert_id id ids)
unfolding insert_id
insert_id-Ascending id [] s = (tt, tt)
insert_id-Ascending id (other ∷ ids) (a, s) = elim (Bool-cases (same_text id other)) [
  | inl t ↦ rw t (a, s)
  | inr f ↦ elim (Bool-cases (lex_leb id other)) [
    | inl t ↦ rw (f, t) (((t, f), All-Before id other ids (t, f) a), (a, s))
    | inr g ↦
        rw (f, g)
          (
            All-insert_id (Before other) id ids (lex_total id other g, sym (same_sym id other) ∙ f)
                a,
            insert_id-Ascending id ids s,
          )
  ]
]

sorted_set-Ascending : (ids : List Text) → Ascending (sorted_set ids)
unfolding sorted_set
sorted_set-Ascending [] = tt
sorted_set-Ascending (id ∷ ids) = insert_id-Ascending id (sorted_set ids) (sorted_set-Ascending ids)

All-sorted_set : (P : Text → Type 0) (ids : List Text) → All P ids → All P (sorted_set ids)
unfolding sorted_set
All-sorted_set P [] a = tt
All-sorted_set P (id ∷ ids) (a, rest) =
    All-insert_id P id (sorted_set ids) a (All-sorted_set P ids rest)

All-append : (P : Text → Type 0) (xs ys : List Text) → All P xs → All P ys → All P (xs ++ ys)
All-append P [] ys a b = b
All-append P (x ∷ xs) ys (a, rest) b = (a, All-append P xs ys rest b)

kept-IsSystem :
    (b : Bool) (name : Text)
    → is_prefix system_prefix name ≡ b
    → All IsSystem (if b then name ∷ [] else [])
kept-IsSystem true name e = (e, tt)
kept-IsSystem false name e = tt

named_id-IsSystem : (v : Value) → All IsSystem (named_id v)
unfolding named_id
named_id-IsSystem (str s) =
    let name = without (codes "model-services/") (strip (codes s)) in
    kept-IsSystem (is_prefix system_prefix name) name refl
named_id-IsSystem _ = tt

service_id-IsSystem : (service : Value) → All IsSystem (service_id service)
unfolding service_id
service_id-IsSystem (obj service) = named_id-IsSystem (get_or null "name" service)
service_id-IsSystem _ = tt

service_ids-IsSystem : (services : Items) → All IsSystem (service_ids services)
unfolding service_ids
service_ids-IsSystem nil = tt
service_ids-IsSystem (cons service rest) =
    All-append IsSystem (service_id service) (service_ids rest) (service_id-IsSystem service)
      (service_ids-IsSystem rest)

module _ (get_json : Option Value → Option Value) where
  -- The tokens of the gateway are texts, numbers or truth values.
  abbrev pub HasTokens : Type 0
  HasTokens =
      (page_token : Option Value) (services : Items) (token : Value)
      → read_page (get_json page_token) ≡ some (services, token)
      → hashable token ≡ true

  list_pages_returns :
      (pages : ℕ) (page_token : Option Value) (seen : List Value)
      → HasTokens
      → (ids : List Text) × (list_pages get_json pages page_token seen ≡ ok ids) × All IsSystem ids
  unfolding list_pages member
  list_pages_returns zero page_token seen t = ([], refl, tt)
  list_pages_returns (suc pages) page_token seen t =
      elim (Option-cases (read_page (get_json page_token))) [
        | inl n ↦ ([], rw (n, list_pages) refl, tt)
        | inr ((services, token), e) ↦
            let own = service_ids-IsSystem services in
            elim (Bool-cases (truthy token)) [
              | inr f ↦ (service_ids services, rw (e, f, list_pages) refl, own)
              | inl g ↦ elim (Bool-cases (any (same_key token) seen)) [
                | inl s ↦ (
                  service_ids services,
                  rw (e, g, t page_token services token e, s, list_pages) refl,
                  own,
                )
                | inr f ↦
                    let (ids, h, a) = list_pages_returns pages (some token) (token ∷ seen) t in
                    (
                      service_ids services ++ ids,
                      rw (e, g, t page_token services token e, f, h, list_pages) refl,
                      All-append IsSystem (service_ids services) ids own a,
                    )
              ]
            ]
      ]

  -- Whatever pages the gateway answers, and even if it never says that a page is the last one, the
  -- listing returns, provided that the page tokens can be put into a set: its ids are those of the
  -- system, in order, and each is there once.
  pub list_model_services_returns :
      HasTokens
      → (ids : List Text) × (list_model_services get_json ≡ ok ids)
        × Ascending ids
        × All IsSystem ids
  unfolding list_model_services
  list_model_services_returns t =
      let (ids, h, a) = list_pages_returns 20 none [] t in
      (
        sorted_set ids,
        rw (h, list_model_services) refl,
        sorted_set-Ascending ids,
        All-sorted_set IsSystem ids a,
      )
