-- ===== src/Proxy/Stream/Ordinary/Visits.antt =====
-- Visits of chunks in which no call has the name that is remapped.
use mathlib.Core.Path.{subst}
use coding_agents_databricks.Base.{
  String, ◌≡◌, refl, ap, ◌∙◌, Bool, true, false, some, [], if◌then◌else◌, arith, ok, ◌>>=◌,
  >>=-eq-ok, if_cases, Option-cases, inl, inr, string_has_eq,
}
use coding_agents_databricks.Base.Int.{pos}
use coding_agents_databricks.Json.{
  Value, Items, Fields, null, str, arr, obj, int, nil, cons, end, field, get, get_or, has, is_text,
  iterate, as_dict, keys, chars,
}
use coding_agents_databricks.Proxy.Response.{Codec, is_in, as_mapping, remapped_name}
use coding_agents_databricks.Proxy.Stream.Calls.{
  find_state, check_key, pop_state, Visit, go_on, visit_named, visit_pending, visit_call,
  visit_calls, visit_choice, mark_choice, visit_choices,
}

-- A call, a list of calls, a choice and a list of choices without the name.
abbrev pub IsOrdinaryCall : Value → Type 0
IsOrdinaryCall (obj call) =
    (f : Fields)
    → get "function" call ≡ some (obj f)
    → is_text remapped_name (get_or null "name" f) ≡ false
IsOrdinaryCall _ = Unit

abbrev pub AllItems : (Value → Type 0) → Items → Type 0
AllItems P nil = Unit
AllItems P (cons v rest) = P v × AllItems P rest

abbrev pub IsOrdinary : Value → Type 0
IsOrdinary (obj choice) =
    (delta : Fields) (calls : Items)
    → get "delta" choice ≡ some (obj delta)
    → get "tool_calls" delta ≡ some (arr calls)
    → AllItems IsOrdinaryCall calls
IsOrdinary _ = Unit

keys_all : (P : Value → Type 0) → ((s : String) → P (str s)) → (fs : Fields) → AllItems P (keys fs)
unfolding keys
keys_all P p end = tt
keys_all P p (field k v fs) = (p k, keys_all P p fs)

chars_all : (P : Value → Type 0) → ((s : String) → P (str s)) → (s : String) → AllItems P (chars s)
unfolding chars
chars_all P p String.[] = tt
chars_all P p (String.◌∷◌ c s) = (p _, chars_all P p s)

-- What is iterated over is the members of a list, or texts.
pub iterate_all :
    (P : Value → Type 0) (v : Value) (xs : Items)
    → ((s : String) → P (str s))
    → ((ys : Items) → v ≡ arr ys → AllItems P ys)
    → iterate v ≡ ok xs
    → AllItems P xs
unfolding iterate
iterate_all P (arr ys) xs p o h = subst (AllItems P) (ground (arith, h)) (o ys refl)
iterate_all P (obj fs) xs p o h = subst (AllItems P) (ground (arith, h)) (keys_all P p fs)
iterate_all P (str s) xs p o h = subst (AllItems P) (ground (arith, h)) (chars_all P p s)
iterate_all P null xs p o h = absurd (ground (arith, h))
iterate_all P _ xs p o h = absurd (ground (arith, h))

pub as_dict-eq : (v : Value) (fs : Fields) → as_dict v ≡ ok fs → v ≡ obj fs
unfolding as_dict
as_dict-eq (obj gs) fs h = ground (arith, h)
as_dict-eq null fs h = absurd (ground (arith, h))
as_dict-eq _ fs h = absurd (ground (arith, h))

module _ (C : Codec) where
  visit_named_ordinary :
      (needs : Bool) (idx : Value) (f : Fields) (v : Visit)
      → is_text remapped_name (get_or null "name" f) ≡ false
      → visit_named C [] needs idx (obj f) ≡ ok v
      → v ≡ go_on [] needs
  unfolding visit_named as_mapping pop_state
  visit_named_ordinary needs idx f v o h =
      elim (if_cases (is_text remapped_name (get_or null "name" f)) _ _ (ok v) h) [
        | inl (t, e) ↦ absurd (ground (arith, t, o))
        | inr (t, e) ↦ ground (arith, e)
      ]

  visit_named_mapping :
      (needs : Bool) (idx func : Value) (v : Visit)
      → visit_named C [] needs idx func ≡ ok v
      → (f : Fields) × (func ≡ obj f)
  unfolding visit_named as_mapping
  visit_named_mapping needs idx (obj f) v h = (f, refl)
  visit_named_mapping needs idx null v h = absurd (ground (arith, h))
  visit_named_mapping needs idx _ v h = absurd (ground (arith, h))

  visit_pending_ordinary :
      (needs : Bool) (idx func : Value) (v : Visit)
      → visit_pending C [] needs idx func ≡ ok v
      → v ≡ go_on [] needs
  unfolding visit_pending find_state
  visit_pending_ordinary needs idx func v h =
      let (u, e, r) = >>=-eq-ok (check_key idx) _ h in ground (arith, r)

  visit_func_ordinary :
      (needs : Bool) (idx func : Value) (v : Visit)
      → ((f : Fields)
          → func ≡ obj f
          → is_in "name" func ≡ ok true
          → is_text remapped_name (get_or null "name" f) ≡ false)
      → (is_in "name" func >>= λ named.
          if named then visit_named C [] needs idx func else visit_pending C [] needs idx func)
        ≡ ok v
      → v ≡ go_on [] needs
  visit_func_ordinary needs idx func v o h =
      let (named, e, r) = >>=-eq-ok (is_in "name" func) _ h in
      elim (if_cases named _ _ (ok v) r) [
        | inl (t, q) ↦
            let (f, m) = visit_named_mapping needs idx func v q in
            visit_named_ordinary needs idx f v (o f m (e ∙ ap ok t))
              (subst (λ u. visit_named C [] needs idx u ≡ ok v) m q)
        | inr (t, q) ↦ visit_pending_ordinary needs idx func v q
      ]

  -- A call without `function` has the empty object for it, which has no name.
  function_of :
      (call f : Fields)
      → get_or (obj end) "function" call ≡ obj f
      → is_in "name" (get_or (obj end) "function" call) ≡ ok true
      → get "function" call ≡ some (obj f)
  unfolding get_or is_in has get
  function_of call f e n = elim (Option-cases (get "function" call)) [
    | inl q ↦ absurd (ground (arith, q, e, n))
    | inr (w, q) ↦ ground (arith, q, e)
  ]

  visit_call_ordinary :
      (needs : Bool) (tc : Value) (v : Visit)
      → IsOrdinaryCall tc
      → visit_call C [] needs tc ≡ ok v
      → v ≡ go_on [] needs
  unfolding visit_call as_dict
  visit_call_ordinary needs (obj call) v o h =
      visit_func_ordinary needs (get_or (int (pos 0)) "index" call)
        (get_or (obj end) "function" call) v (λ f m n. o f (function_of call f m n)) h
  visit_call_ordinary needs null v o h = absurd (ground (arith, h))
  visit_call_ordinary needs _ v o h = absurd (ground (arith, h))

  visit_calls_ordinary :
      (needs : Bool) (calls : Items) (v : Visit)
      → AllItems IsOrdinaryCall calls
      → visit_calls C [] needs calls ≡ ok v
      → v ≡ go_on [] needs
  unfolding visit_calls
  visit_calls_ordinary needs nil v o h = ground (arith, h)
  visit_calls_ordinary needs (cons tc rest) v (o, os) h =
      let (u, e, r) = >>=-eq-ok (visit_call C [] needs tc) _ h in
      let same = visit_call_ordinary needs tc u o e in
      visit_calls_ordinary needs rest v os (ground (arith, r, same))

  no_calls : (calls : Items) → arr nil ≡ arr calls → AllItems IsOrdinaryCall calls
  no_calls nil e = tt
  no_calls (cons v rest) e = absurd (ground (arith, e))

  -- A choice without `delta`, and a delta without `tool_calls`, have no calls.
  delta_of :
      (choice delta : Fields) (calls : Items)
      → IsOrdinary (obj choice)
      → get_or (obj end) "delta" choice ≡ obj delta
      → get_or (arr nil) "tool_calls" delta ≡ arr calls
      → AllItems IsOrdinaryCall calls
  unfolding get_or get
  delta_of choice delta calls o d c = elim (Option-cases (get "tool_calls" delta)) [
    | inl n ↦ no_calls calls (ground (arith, n, c))
    | inr (w, q) ↦ elim (Option-cases (get "delta" choice)) [
      | inl m ↦ absurd (ground (arith, m, d, q))
      | inr (u, m) ↦ o delta calls (ground (arith, m, d)) (ground (arith, q, c))
    ]
  ]

  visit_choice_ordinary :
      (needs : Bool) (choice : Fields) (v : Visit)
      → IsOrdinary (obj choice)
      → visit_choice C [] needs choice ≡ ok v
      → v ≡ go_on [] needs
  unfolding visit_choice
  visit_choice_ordinary needs choice v o h =
      let (delta, ed, r) = >>=-eq-ok (as_dict (get_or (obj end) "delta" choice)) _ h in
      let (calls, ec, r') = >>=-eq-ok (iterate (get_or (arr nil) "tool_calls" delta)) _ r in
      visit_calls_ordinary needs calls v
        (iterate_all IsOrdinaryCall (get_or (arr nil) "tool_calls" delta) calls (λ s. tt)
          (λ ys e.
            delta_of choice delta ys o (as_dict-eq (get_or (obj end) "delta" choice) delta ed) e)
          ec)
        r'

  -- The rest of the loop once a choice is known to change nothing.
  mark_ordinary :
      (choice : Fields) (rest choices' : Items) (needs : Bool) (v : Visit)
      → ((rest' : Items)
          → visit_choices C [] needs rest ≡ ok (rest', v)
          → (rest' ≡ rest) × (v ≡ go_on [] needs))
      → ◌>>=◌ {U = Items × Visit}
          (visit_choices C [] needs rest)
          (λ x. ok (cons (mark_choice C [] choice) x.0, x.1))
        ≡ ok (choices', v)
      → (choices' ≡ cons (obj choice) rest) × (v ≡ go_on [] needs)
  unfolding mark_choice
  mark_ordinary choice rest choices' needs v f h =
      let (x, e, r) = >>=-eq-ok (visit_choices C [] needs rest) _ h in
      let (p, q) =
        f x.0 (subst (λ z. visit_choices C [] needs rest ≡ ok (x.0, z)) (ground (arith, r)) e) in
      (ground (arith, r, p), q)

  pub visit_choices_ordinary :
      (needs : Bool) (choices choices' : Items) (v : Visit)
      → AllItems IsOrdinary choices
      → visit_choices C [] needs choices ≡ ok (choices', v)
      → (choices' ≡ choices) × (v ≡ go_on [] needs)
  unfolding visit_choices as_dict
  visit_choices_ordinary needs nil choices' v o h = ground (arith, h)
  visit_choices_ordinary needs (cons (obj choice) rest) choices' v (o, os) h =
      let (u, e, r) = >>=-eq-ok (visit_choice C [] needs choice) _ h in
      let same = visit_choice_ordinary needs choice u o e in
      mark_ordinary choice rest choices' needs v
        (λ rest'. visit_choices_ordinary needs rest rest' v os) (rw (e ∙ ap ok same) at h)
  visit_choices_ordinary needs (cons null rest) choices' v o h = absurd (ground (arith, h))
  visit_choices_ordinary needs (cons _ rest) choices' v o h = absurd (ground (arith, h))
