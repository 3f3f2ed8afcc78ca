-- ===== src/Proxy/Response/Reasons/Parts.antt =====
-- What `fix_part` leaves at the name of a part and beside it.
use mathlib.Core.Path.{subst}
use coding_agents_databricks.Base.{
  String, ◌≡◌, ◌≢◌, refl, sym, ap, ◌∙◌, Bool, true, false, ◌&&◌, none, some, if◌then◌else◌, arith,
  eq_iff, ok, ◌>>=◌, >>=-eq-ok, Bool-cases, ok_inj, inl, inr, ◌==◌, string_has_eq,
}
use coding_agents_databricks.Json.{
  Value, Items, Fields, null, str, arr, obj, nil, end, get, get_or, has, put, is_text, truthy,
  iterate, as_dict,
}
use coding_agents_databricks.Json.Lookup.{get-put}
use coding_agents_databricks.Proxy.Response.{
  Codec, is_in, as_mapping, put_back, flatten_content_blocks, flatten_part, remap_all, remap_part,
  fix_reason, fix_part,
}

abbrev pub reason : Fields → Value
reason choice = get_or null "finish_reason" choice

-- The part under the name calls no tool.
abbrev pub CallsNothing : String → Fields → Type 0
CallsNothing name choice =
    (part : Fields)
    → get name choice ≡ some (obj part)
    → truthy (get_or (arr nil) "tool_calls" part) ≡ false

-- The content of the part under the name is not a list.
abbrev pub IsPlain : String → Fields → Type 0
IsPlain name choice =
    (part : Fields) (blocks : Items)
    → get name choice ≡ some (obj part)
    → get "content" part ≢ some (arr blocks)

module _ (C : Codec) where
  flatten_plain : (v : Value) (blocks : Items) → flatten_content_blocks C v ≢ arr blocks
  unfolding flatten_content_blocks
  flatten_plain (arr xs) blocks e = ground (arith, e)
  flatten_plain null blocks e = ground (arith, e)
  flatten_plain _ blocks e = ground (arith, e)

  flatten_if :
      (b : Bool) (fs flat : Fields) (v : Value) (blocks : Items)
      → (if b then ok (put "content" (flatten_content_blocks C v) fs) else ok fs) ≡ ok flat
      → (b ≡ false → get "content" fs ≡ none)
      → get "content" flat ≢ some (arr blocks)
  flatten_if true fs flat v blocks h n e = ground (
    arith,
    h,
    e,
    get-put "content" "content" (flatten_content_blocks C v) fs,
    flatten_plain v blocks,
  )
  flatten_if false fs flat v blocks h n e = ground (arith, h, e, n refl)

  absent : (k : String) (fs : Fields) → has k fs ≡ false → get k fs ≡ none
  unfolding has
  absent k fs h = ground (arith, h)

  flatten_part-eq :
      (v : Value) (flat : Fields) (blocks : Items)
      → flatten_part C v ≡ ok flat
      → get "content" flat ≢ some (arr blocks)
  unfolding flatten_part is_in as_mapping as_dict
  flatten_part-eq (obj fs) flat blocks h e =
      flatten_if (has "content" fs) fs flat (get_or null "content" fs) blocks h
        (absent "content" fs) e
  flatten_part-eq (arr xs) flat blocks h e = ground (arith, h)
  flatten_part-eq (str s) flat blocks h e = ground (arith, h)
  flatten_part-eq null flat blocks h e = ground (arith, h)
  flatten_part-eq _ flat blocks h e = ground (arith, h)

  remap_if :
      (b : Bool) (calls : Value) (flat part : Fields)
      → (if b
          then (iterate calls >>= λ tcs.
              remap_all C tcs >>= λ tcs'. ok (put "tool_calls" (arr tcs') flat))
          else ok flat)
        ≡ ok part
      → (get "content" part ≡ get "content" flat) × (b ≡ false → part ≡ flat)
  remap_if true calls flat part h =
      let (tcs, et, r) = >>=-eq-ok (iterate calls) _ h in
      let (tcs', er, r') = >>=-eq-ok (remap_all C tcs) _ r in
      (ground (arith, r', get-put "tool_calls" "content" (arr tcs') flat), λ f. cc)
  remap_if false calls flat part h = (ground (arith, h), λ f. ground (arith, h))

  remap_part-eq :
      (flat part : Fields)
      → remap_part C flat ≡ ok part
      → (get "content" part ≡ get "content" flat)
        × (truthy (get_or (arr nil) "tool_calls" flat) ≡ false → part ≡ flat)
  unfolding remap_part
  remap_part-eq flat part h =
      remap_if (truthy (get_or (arr nil) "tool_calls" flat)) (get_or (arr nil) "tool_calls" flat)
        flat part h

  get-fix_reason :
      (b : Bool) (k : String) (c : Fields)
      → ("finish_reason" == k) ≡ false
      → get k (fix_reason C b c) ≡ get k c
  unfolding fix_reason
  get-fix_reason b k c n = ground (arith, get-put "finish_reason" k (str "tool_calls") c)

  fix_reason_stop :
      (b : Bool) (c : Fields)
      → is_text "stop" (reason (fix_reason C b c)) ≡ true
      → (is_text "stop" (reason c) ≡ true) × (b ≡ false)
  unfolding fix_reason get_or
  fix_reason_stop b c h = elim (Bool-cases (is_text "stop" (reason c) && b)) [
    | inl t ↦
        absurd (ground (arith, h, t, get-put "finish_reason" "finish_reason" (str "tool_calls") c))
    | inr f ↦ ground (arith, h, f)
  ]

  put_back_at :
      (name : String) (part p : Fields) (c : Fields)
      → get name (put_back name part c) ≡ some (obj p)
      → p ≡ part
  unfolding put_back has
  put_back_at name part p c h = ground (arith, h, get-put name name (obj part) c, eq_iff name name)

  get-put_back :
      (name k : String) (part c : Fields)
      → (name == k) ≡ false
      → get k (put_back name part c) ≡ get k c
  unfolding put_back
  get-put_back name k part c n = ground (arith, get-put name k (obj part) c)

  reason_before :
      (name : String) (part c : Fields)
      → ("finish_reason" == name) ≡ false
      → is_text "stop" (reason (put_back name part c)) ≡ true
      → is_text "stop" (reason c) ≡ true
  unfolding get_or
  reason_before name part c n h = ground (
    arith,
    h,
    get-put_back name "finish_reason" part c,
    eq_iff name "finish_reason",
    eq_iff "finish_reason" name,
  )

  -- What `fix_part` leaves of a choice, at the name of the part that it fixes and elsewhere.
  abbrev pub FixedAt : String → Fields → Fields → Type 0
  FixedAt name choice choice' =
      IsPlain name choice'
      × (is_text "stop" (reason choice') ≡ true → CallsNothing name choice')
      × (is_text "stop" (reason choice') ≡ true → is_text "stop" (reason choice) ≡ true)
      × ((k : String)
          → ("finish_reason" == k) ≡ false
          → (name == k) ≡ false
          → get k choice' ≡ get k choice)

  reason_after :
      (name : String) (choice flat part : Fields)
      → ("finish_reason" == name) ≡ false
      → get "content" part ≡ get "content" flat
      → (truthy (get_or (arr nil) "tool_calls" flat) ≡ false → part ≡ flat)
      → ((blocks : Items) → get "content" flat ≢ some (arr blocks))
      → FixedAt name choice
          (fix_reason C (truthy (get_or (arr nil) "tool_calls" flat)) (put_back name part choice))
  reason_after name choice flat part n content kept plain =
      let b = truthy (get_or (arr nil) "tool_calls" flat) in
      let c = put_back name part choice in
      let at = λ (p : Fields) (e : get name (fix_reason C b c) ≡ some (obj p)).
        put_back_at name part p choice (sym (get-fix_reason b name c n) ∙ e) in
      (
        λ p blocks e l. plain blocks (sym content ∙ ap (get "content") (sym (at p e)) ∙ l),
        λ s p e.
            let (t, f) = fix_reason_stop b c s in
            ap (λ q. truthy (get_or (arr nil) "tool_calls" q)) (at p e ∙ kept f) ∙ f,
        λ s. reason_before name part choice n (fix_reason_stop b c s).0,
        λ k m d. get-fix_reason b k c m ∙ get-put_back name k part choice d,
      )

  pub fix_part-FixedAt :
      (name : String) (choice choice' : Fields)
      → ("finish_reason" == name) ≡ false
      → fix_part C name choice ≡ ok choice'
      → FixedAt name choice choice'
  unfolding fix_part
  fix_part-FixedAt name choice choice' n h =
      let (flat, ef, r) = >>=-eq-ok (flatten_part C (get_or (obj end) name choice)) _ h in
      let (part, ep, r') = >>=-eq-ok (remap_part C flat) _ r in
      let (content, kept) = remap_part-eq flat part ep in
      subst (FixedAt name choice) (ok_inj r') (
        reason_after name choice flat part n content kept
          (λ blocks. flatten_part-eq (get_or (obj end) name choice) flat blocks ef))
