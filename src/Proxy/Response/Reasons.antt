-- ===== src/Proxy/Response/Reasons.antt =====
-- The choices of a fixed response: a finish reason that agrees with the tool calls, and a content
-- that is no list of blocks.
pub mod Parts
use mathlib.Core.Path.{subst}
use coding_agents_databricks.Base.{
  String, ◌≡◌, ◌≢◌, refl, sym, ap, ◌∙◌, Bool, true, false, ◌&&◌, Option, none, some, if◌then◌else◌,
  arith, eq_iff, Result, ok, ◌>>=◌, >>=-eq-ok, Bool-cases, ok_inj, Option-cases, inl, inr, ◌==◌,
  string_has_eq,
}
use coding_agents_databricks.Json.{
  Value, Items, Fields, null, str, arr, obj, nil, cons, end, float, int, bool, get, get_or, has,
  put, is_text, truthy, iterate, as_dict,
}
use coding_agents_databricks.Json.Lookup.{get-put}
use coding_agents_databricks.Proxy.Response.{
  Codec, is_in, as_mapping, put_back, flatten_content_blocks, flatten_part, remap_all, remap_part,
  fix_reason, fix_part, fix_choice, fix_choices, fix_response_fields,
}
use coding_agents_databricks.Proxy.Response.Reasons.Parts.{
  reason, CallsNothing, IsPlain, FixedAt, fix_part-FixedAt,
}

abbrev pub IsFixed : Value → Type 0
IsFixed (obj choice) =
    IsPlain "message" choice
    × IsPlain "delta" choice
    × (is_text "stop" (reason choice) ≡ true
        → CallsNothing "message" choice × CallsNothing "delta" choice)
IsFixed _ = Unit

abbrev pub AreFixed : Items → Type 0
AreFixed nil = Unit
AreFixed (cons v rest) = IsFixed v × AreFixed rest

module _ (C : Codec) where
  both-IsFixed :
      (choice c1 c2 : Fields)
      → FixedAt C "message" choice c1
      → FixedAt C "delta" c1 c2
      → IsFixed (obj c2)
  both-IsFixed choice c1 c2 m d =
      let same = d.3 "message" refl refl in
      (
        λ p blocks e l. m.0 p blocks (sym same ∙ e) l,
        d.0,
        λ s. (λ p e. m.1 (d.2 s) p (sym same ∙ e), d.1 s),
      )

  fix_choice-IsFixed : (v w : Value) → fix_choice C v ≡ ok w → IsFixed w
  unfolding fix_choice
  fix_choice-IsFixed v w h =
      let (choice, e0, r0) = >>=-eq-ok (as_dict v) _ h in
      let (c1, e1, r1) = >>=-eq-ok (fix_part C "message" choice) _ r0 in
      let (c2, e2, r2) = >>=-eq-ok (fix_part C "delta" c1) _ r1 in
      subst IsFixed (ok_inj r2) (
        both-IsFixed choice c1 c2 (fix_part-FixedAt C "message" choice c1 refl e1)
          (fix_part-FixedAt C "delta" c1 c2 refl e2))

  fix_choices-AreFixed : (xs ys : Items) → fix_choices C xs ≡ ok ys → AreFixed ys
  unfolding fix_choices
  fix_choices-AreFixed nil ys h = subst AreFixed (ok_inj h) tt
  fix_choices-AreFixed (cons x xs) ys h =
      let (y, ey, r) = >>=-eq-ok (fix_choice C x) _ h in
      let (zs, ez, r') = >>=-eq-ok (fix_choices C xs) _ r in
      subst AreFixed (ok_inj r') (fix_choice-IsFixed x y ey, fix_choices-AreFixed xs zs ez)

  fixed_list :
      (choices ys : Items) (data' fixed : Fields)
      → (fix_choices C choices >>= λ zs.
          ok (if has "choices" data' then put "choices" (arr zs) data' else data'))
        ≡ ok fixed
      → get "choices" fixed ≡ some (arr ys)
      → AreFixed ys
  unfolding has
  fixed_list choices ys data' fixed h p =
      let (zs, ez, r) = >>=-eq-ok (fix_choices C choices) _ h in
      subst AreFixed (ground (arith, r, p, get-put "choices" "choices" (arr zs) data'))
        (fix_choices-AreFixed choices zs ez)

  kept_list :
      (v : Value) (data' fixed : Fields) (ys : Items)
      → get_or (arr nil) "choices" data' ≡ v
      → (iterate v >>= λ items. fix_choices C items >>= λ _. ok data') ≡ ok fixed
      → get "choices" fixed ≡ some (arr ys)
      → v ≡ arr ys
  unfolding get_or
  kept_list v data' fixed ys e h p =
      let (items, ei, r) = >>=-eq-ok (iterate v) _ h in
      let (zs, ez, r') = >>=-eq-ok (fix_choices C items) _ r in ground (arith, e, p, ok_inj r')

  fixed_of :
      (v : Value) (data' fixed : Fields) (ys : Items)
      → get_or (arr nil) "choices" data' ≡ v
      → (elim v [
        | arr choices ↦ fix_choices C choices >>= λ zs.
            ok (if has "choices" data' then put "choices" (arr zs) data' else data')
        | other ↦ iterate other >>= λ items. fix_choices C items >>= λ _. ok data'
      ])
        ≡ ok fixed
      → get "choices" fixed ≡ some (arr ys)
      → AreFixed ys
  fixed_of (arr choices) data' fixed ys e h p = fixed_list choices ys data' fixed h p
  fixed_of (obj fs) data' fixed ys e h p =
      absurd (ground (arith, kept_list (obj fs) data' fixed ys e h p))
  fixed_of (str t) data' fixed ys e h p =
      absurd (ground (arith, kept_list (str t) data' fixed ys e h p))
  fixed_of (float m x) data' fixed ys e h p =
      absurd (ground (arith, kept_list (float m x) data' fixed ys e h p))
  fixed_of (int n) data' fixed ys e h p =
      absurd (ground (arith, kept_list (int n) data' fixed ys e h p))
  fixed_of (bool b) data' fixed ys e h p =
      absurd (ground (arith, kept_list (bool b) data' fixed ys e h p))
  fixed_of null data' fixed ys e h p = absurd (ground (arith, kept_list null data' fixed ys e h p))

  -- In every choice of a response that was fixed, no content is a list of blocks, and a finish reason
  -- of "stop" means that neither the message nor the delta calls a tool.
  pub fix_response_fields-AreFixed :
      (data' fixed : Fields) (choices : Items)
      → fix_response_fields C data' ≡ ok fixed
      → get "choices" fixed ≡ some (arr choices)
      → AreFixed choices
  unfolding fix_response_fields
  fix_response_fields-AreFixed data' fixed choices h p =
      fixed_of (get_or (arr nil) "choices" data') data' fixed choices refl h p
