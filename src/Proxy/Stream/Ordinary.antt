-- ===== src/Proxy/Stream/Ordinary.antt =====
-- A stream in which no call has the name that is remapped.
pub mod Visits
use mathlib.Core.Path.{subst, subst⁻¹}
use coding_agents_databricks.Base.{
  String, ◌≡◌, refl, sym, ap, ◌∙◌, Bool, true, false, Option, none, some, List, [], ◌∷◌, ◌++◌, All,
  if◌then◌else◌, arith, ◌⊎◌, Result, ok, err, ◌>>=◌, >>=-eq-ok, Bool-cases, ok_inj, if_cases,
  Option-cases, inl, inr, ◌==◌, string_has_eq,
}
use coding_agents_databricks.Base.Int.{pos}
use coding_agents_databricks.Json.{
  Value, Items, Fields, null, str, arr, obj, int, float, bool, nil, cons, end, field, get, get_or,
  has, put, is_text, iterate, as_dict, keys, chars,
}
use coding_agents_databricks.Json.Lookup.{put-get}
use coding_agents_databricks.Proxy.Response.{
  Codec, is_in, as_mapping, remapped_name, fix_response_data,
}
use coding_agents_databricks.Proxy.Stream.Calls.{
  ToolState, States, find_state, check_key, pop_state, Visit, go_on, resolved, data_line,
  visit_named, visit_pending, visit_call, visit_calls, visit_choice, mark_choice, visit_choices,
}
use coding_agents_databricks.Proxy.Stream.{
  Processor, new_processor, after_prefix, is_done, forward, finish_chunk, process_chunk,
  process_payload, process_line, waiting, flush_remaining, send_stream,
}
use coding_agents_databricks.Proxy.Stream.Ordinary.Visits.{
  AllItems, IsOrdinary, iterate_all, as_dict-eq, visit_choices_ordinary,
}

module _ (C : Codec) where
  -- The line, fixed by itself, as `process_line` does it without any state.
  unfoldable pub fix_payload : String → Bool → Option Value → Result String
  fix_payload line true v = ok line
  fix_payload line false none = ok line
  fix_payload line false (some v) =
      as_dict v >>= λ chunk. fix_response_data C (obj chunk) >>= λ fixed. ok (data_line C fixed)

  unfoldable pub fix_line : String → Result String
  fix_line line = elim (after_prefix "data: " line) [
    | none ↦ ok line
    | some payload ↦ fix_payload line (is_done payload) (C.loads payload)
  ]

  unfoldable pub fix_lines : List String → Result (List String)
  fix_lines [] = ok []
  fix_lines (line ∷ lines) = do
    line' ← (if line == "" then ok "" else fix_line line)
    lines' ← fix_lines lines
    ok (line' ∷ lines')

  -- No call of the chunk on the line, if it is one, has the name that is remapped.
  abbrev pub IsOrdinaryLine : String → Type 0
  IsOrdinaryLine line =
      (payload : String) (chunk : Fields) (choices : Items)
      → after_prefix "data: " line ≡ some payload
      → C.loads payload ≡ some (obj chunk)
      → get "choices" chunk ≡ some (arr choices)
      → AllItems IsOrdinary choices

  no_choices : (xs : Items) → arr nil ≡ arr xs → AllItems IsOrdinary xs
  no_choices nil e = tt
  no_choices (cons v rest) e = absurd (ground (arith, e))

  choices_of :
      (chunk : Fields) (xs : Items)
      → ((ys : Items) → get "choices" chunk ≡ some (arr ys) → AllItems IsOrdinary ys)
      → get_or (arr nil) "choices" chunk ≡ arr xs
      → AllItems IsOrdinary xs
  unfolding get_or
  choices_of chunk xs o e = elim (Option-cases (get "choices" chunk)) [
    | inl n ↦ no_choices xs (ground (arith, n, e))
    | inr (v, q) ↦ o xs (ground (arith, q, e))
  ]

  forward_alone :
      (line : String) (p p' : Processor) (chunk : Value) (v : Visit) (out : List String)
      → p.tool_state ≡ []
      → v ≡ go_on [] false
      → finish_chunk C line p chunk v ≡ ok (out, p')
      → (p' ≡ p)
        × ((fixed : Value) × (fix_response_data C chunk ≡ ok fixed)
            × (out ≡ data_line C fixed ∷ []))
  unfolding finish_chunk forward
  forward_alone line p p' chunk v out n e h =
      let (fixed, ef, r) =
        >>=-eq-ok (fix_response_data C chunk) _
          (subst (λ u. finish_chunk C line p chunk u ≡ ok (out, p')) e h) in
      (ground (arith, r, n), (fixed, ef, ground (arith, r)))

  -- What a line that is sent alone comes to.
  abbrev Alone : Value → Processor → List String → Processor → Type 0
  Alone chunk p out p' =
      (p' ≡ p)
      × ((fixed : Value) × (fix_response_data C chunk ≡ ok fixed) × (out ≡ data_line C fixed ∷ []))

  unchanged :
      (chunk : Fields) (xs : Items)
      → get_or (arr nil) "choices" chunk ≡ arr xs
      → (if has "choices" chunk then put "choices" (arr xs) chunk else chunk) ≡ chunk
  unfolding get_or has
  unchanged chunk xs e = ground (arith, e, put-get "choices" (arr xs) chunk)

  list-Alone :
      (line : String) (chunk : Fields) (p p' : Processor) (out : List String) (xs : Items)
      → p.tool_state ≡ []
      → ((ys : Items) → get "choices" chunk ≡ some (arr ys) → AllItems IsOrdinary ys)
      → get_or (arr nil) "choices" chunk ≡ arr xs
      → (visit_choices C p.tool_state false xs >>= λ x.
          finish_chunk C line p
            (obj (if has "choices" chunk then put "choices" (arr x.0) chunk else chunk))
            x.1)
        ≡ ok (out, p')
      → Alone (obj chunk) p out p'
  list-Alone line chunk p p' out xs n o e h =
      let (x, ev, r) = >>=-eq-ok (visit_choices C p.tool_state false xs) _ h in
      let (same, quiet) =
        visit_choices_ordinary C false xs x.0 x.1 (choices_of chunk xs o e)
          (subst (λ t. visit_choices C t false xs ≡ ok x) n ev) in
      let c : (if has "choices" chunk then put "choices" (arr x.0) chunk else chunk) ≡ chunk =
        subst⁻¹
          (λ ys. (if has "choices" chunk then put "choices" (arr ys) chunk else chunk) ≡ chunk) same
          (unchanged chunk xs e) in
      forward_alone line p p' (obj chunk) x.1 out n quiet
        (subst (λ f. finish_chunk C line p (obj f) x.1 ≡ ok (out, p')) c r)

  other-Alone :
      (line : String) (chunk : Fields) (p p' : Processor) (out : List String) (v : Value)
      → p.tool_state ≡ []
      → ((ys : Items) → v ≡ arr ys → AllItems IsOrdinary ys)
      → (iterate v >>= λ choices.
          visit_choices C p.tool_state false choices >>= λ x. finish_chunk C line p (obj chunk) x.1)
        ≡ ok (out, p')
      → Alone (obj chunk) p out p'
  other-Alone line chunk p p' out v n o h =
      let (xs, ei, r) = >>=-eq-ok (iterate v) _ h in
      let (x, ev, r') = >>=-eq-ok (visit_choices C p.tool_state false xs) _ r in
      let (same, quiet) =
        visit_choices_ordinary C false xs x.0 x.1 (iterate_all IsOrdinary v xs (λ s. tt) o ei)
          (subst (λ t. visit_choices C t false xs ≡ ok x) n ev) in
      forward_alone line p p' (obj chunk) x.1 out n quiet r'

  chunk-Alone :
      (line : String) (chunk : Fields) (p p' : Processor) (out : List String) (v : Value)
      → p.tool_state ≡ []
      → ((ys : Items) → get "choices" chunk ≡ some (arr ys) → AllItems IsOrdinary ys)
      → get_or (arr nil) "choices" chunk ≡ v
      → (elim v [
        | arr choices ↦ visit_choices C p.tool_state false choices >>= λ (choices', visit).
            finish_chunk C line p
              (obj (if has "choices" chunk then put "choices" (arr choices') chunk else chunk))
              visit
        | other ↦ iterate other >>= λ choices.
            visit_choices C p.tool_state false choices >>= λ (_, visit).
            finish_chunk C line p (obj chunk) visit
      ])
        ≡ ok (out, p')
      → Alone (obj chunk) p out p'
  chunk-Alone line chunk p p' out (arr xs) n o e h = list-Alone line chunk p p' out xs n o e h
  chunk-Alone line chunk p p' out (obj fs) n o e h =
      other-Alone line chunk p p' out (obj fs) n (λ ys q. absurd (ground (arith, q))) h
  chunk-Alone line chunk p p' out (str t) n o e h =
      other-Alone line chunk p p' out (str t) n (λ ys q. absurd (ground (arith, q))) h
  chunk-Alone line chunk p p' out (float m x) n o e h =
      other-Alone line chunk p p' out (float m x) n (λ ys q. absurd (ground (arith, q))) h
  chunk-Alone line chunk p p' out (int i) n o e h =
      other-Alone line chunk p p' out (int i) n (λ ys q. absurd (ground (arith, q))) h
  chunk-Alone line chunk p p' out (bool b) n o e h =
      other-Alone line chunk p p' out (bool b) n (λ ys q. absurd (ground (arith, q))) h
  chunk-Alone line chunk p p' out null n o e h =
      other-Alone line chunk p p' out null n (λ ys q. absurd (ground (arith, q))) h

  sent_alone :
      (v : Value) (chunk : Fields) (fixed : Value)
      → as_dict v ≡ ok chunk
      → fix_response_data C (obj chunk) ≡ ok fixed
      → (as_dict v >>= λ c. fix_response_data C (obj c) >>= λ f. ok (data_line C f))
        ≡ ok (data_line C fixed)
  sent_alone v chunk fixed e f = rw (e, f) refl

  payload_alone :
      (line : String) (p' : Processor) (out : List String) (b : Bool) (l : Option Value)
      → ((chunk : Fields) (ys : Items)
          → l ≡ some (obj chunk)
          → get "choices" chunk ≡ some (arr ys)
          → AllItems IsOrdinary ys)
      → if◌then◌else◌ {A = Result (List String × Processor)} b
          (ok (line ∷ [], new_processor))
          (elim l [
            | none ↦ ok (line ∷ [], new_processor)
            | some v ↦ as_dict v >>= λ chunk. process_chunk C line chunk new_processor
          ])
        ≡ ok (out, p')
      → (p' ≡ new_processor)
        × ((line' : String) × (fix_payload line b l ≡ ok line') × (out ≡ line' ∷ []))
  unfolding process_chunk fix_payload
  payload_alone line p' out true l o h = (ground (arith, h), (line, refl, ground (arith, h)))
  payload_alone line p' out false none o h = (ground (arith, h), (line, refl, ground (arith, h)))
  payload_alone line p' out false (some v) o h =
      let (chunk, ed, r) = >>=-eq-ok (as_dict v) _ h in
      let (same, (fixed, ef, eo)) =
        chunk-Alone line chunk new_processor p' out (get_or (arr nil) "choices" chunk) refl
          (λ ys. o chunk ys (ap some (as_dict-eq v chunk ed))) refl r in
      (same, (data_line C fixed, sent_alone v chunk fixed ed ef, eo))

  line_alone :
      (line : String) (p' : Processor) (out : List String)
      → IsOrdinaryLine line
      → process_line C line new_processor ≡ ok (out, p')
      → (p' ≡ new_processor) × ((line' : String) × (fix_line line ≡ ok line') × (out ≡ line' ∷ []))
  unfolding process_line process_payload fix_line
  line_alone line p' out o h = elim (Option-cases (after_prefix "data: " line)) [
    | inl e ↦ (ground (arith, h, e), (line, ground (arith, e), ground (arith, h, e)))
    | inr (payload, e) ↦
        let (same, (line', f, eo)) =
          payload_alone line p' out (is_done payload) (C.loads payload)
            (λ chunk ys l. o payload chunk ys e l) (rw (e, process_line) at h) in
        (same, (line', rw (e, fix_line) f, eo))
  ]

  joined :
      (line' : String) (out rest outs : List String)
      → out ≡ line' ∷ []
      → out ++ rest ≡ outs
      → line' ∷ rest ≡ outs
  joined line' out rest outs e h = subst (λ l. l ++ rest ≡ outs) e h

  abbrev line_or_empty : String → Result String
  line_or_empty line = if line == "" then ok "" else fix_line line

  sent_line :
      (line : String) (x : List String × Processor)
      → IsOrdinaryLine line
      → (if line == "" then ok ("" ∷ [], new_processor) else process_line C line new_processor)
        ≡ ok x
      → (x.1 ≡ new_processor)
        × ((line' : String) × (line_or_empty line ≡ ok line') × (x.0 ≡ line' ∷ []))
  sent_line line x o h = elim (if_cases (line == "") _ _ (ok x) h) [
    | inl (t, e) ↦ (ground (arith, e), ("", ground (arith, t), ground (arith, e)))
    | inr (f, e) ↦
        let (same, (line', g, eo)) = line_alone line x.1 x.0 o e in (same, (line', rw f g, eo))
  ]

  -- A stream of lines without the remapped name is sent line by line, in order, each line fixed by
  -- itself: nothing waits, and nothing is added or left out.
  pub send_stream-eq-fix_lines :
      (lines outs : List String)
      → All IsOrdinaryLine lines
      → send_stream C lines new_processor ≡ ok outs
      → fix_lines lines ≡ ok outs
  unfolding send_stream fix_lines flush_remaining waiting
  send_stream-eq-fix_lines [] outs o h = ground (arith, h)
  send_stream-eq-fix_lines (line ∷ lines) outs (o, os) h =
      let (x, e, r) =
        >>=-eq-ok
          (if line == "" then ok ("" ∷ [], new_processor) else process_line C line new_processor)
          (λ y. send_stream C lines y.1 >>= λ rest. ok (y.0 ++ rest)) h in
      let (same, (line', f, eo)) = sent_line line x o e in
      let (rest, er, r') = >>=-eq-ok (send_stream C lines x.1) _ r in
      let fixed =
        send_stream-eq-fix_lines lines rest os
          (subst (λ q. send_stream C lines q ≡ ok rest) same er) in
      rw (f, fixed) (ap ok (joined line' x.0 rest outs eo (ok_inj r')))
