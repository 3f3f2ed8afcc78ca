-- ===== src/Sessions/Polling/Output.antt =====
-- What a poll answers after any number of outputs: the buffer keeps the last of them, in order.
use mathlib.Core.Path.{subst, subst⁻¹}
use coding_agents_databricks.Base.{
  ℕ, suc, ◌≤◌, ◌≡◌, refl, sym, ap, ◌∙◌, ◌⊎◌, inl, inr, String, some, List, [], ◌∷◌, ◌++◌, length,
  length-append, ltb, ◌==◌, string_has_eq, if◌then◌else◌, arith, eq_iff, Bool-cases,
}
use coding_agents_databricks.Base.Dict.{Dict, find, find-store}
use coding_agents_databricks.Sessions.{Session, on_session}
use coding_agents_databricks.Sessions.Polling.{
  max_chunks, join, trim, append_bounded, buffer_output, emit_output, output_of, get_output,
}

module _ {ℓ} {A : Type ℓ} where
  append_assoc : (xs ys zs : List A) → (xs ++ ys) ++ zs ≡ xs ++ (ys ++ zs)
  append_assoc [] ys zs = refl
  append_assoc (x ∷ xs) ys zs = ap (λ l. x ∷ l) (append_assoc xs ys zs)

  append_nil : (xs : List A) → xs ≡ xs ++ []
  append_nil [] = refl
  append_nil (x ∷ xs) = ap (λ l. x ∷ l) (append_nil xs)

  -- The end of a list, of at most `n` elements, and of fewer only if that is the whole list.
  pub record IsTail (n : ℕ) (kept all : List A) : Type ℓ where
    pub lost : List A
    pub split : lost ++ kept ≡ all
    pub bounded : length kept ≤ n
    pub full : (lost ≡ []) ⊎ (length kept ≡ n)

  pub whole-IsTail : (n : ℕ) (xs : List A) → length xs ≤ n → IsTail n xs xs
  whole-IsTail n xs h = record { lost = []; split = refl; bounded = h; full = inl refl }

  trim_cases :
      (n : ℕ) (xs : List A)
      → length xs ≤ suc n
      → ((trim n xs ≡ xs) × (length xs ≤ n))
        ⊎ ((x : A) × ((x ∷ trim n xs ≡ xs) × (length (trim n xs) ≡ n)))
  unfolding trim
  trim_cases n [] h = inl (refl, omega arith)
  trim_cases n (x ∷ xs) h = elim (Bool-cases (ltb n (length (x ∷ xs)))) [
    | inl t ↦ inr (x, (ground arith, ground arith))
    | inr f ↦ inl (ground arith, ground arith)
  ]

  append_bounded-IsTail :
      (n : ℕ) (x : A) (kept all : List A)
      → IsTail n kept all
      → IsTail n (append_bounded n kept x) (all ++ x ∷ [])
  unfolding append_bounded
  append_bounded-IsTail n x kept all h =
      let appended = sym (append_assoc h.lost kept (x ∷ [])) ∙ ap (λ l. l ++ x ∷ []) h.split in
      elim (trim_cases n (kept ++ x ∷ []) (omega (arith, length-append kept (x ∷ []), h.bounded))) [
        | inl (e, b) ↦ record {
          lost = h.lost;
          split = ap (λ l. h.lost ++ l) e ∙ appended;
          bounded = subst⁻¹ (λ l. length l ≤ n) e b;
          full = elim h.full [
            | inl q ↦ inl q
            | inr q ↦ absurd (omega (arith, length-append kept (x ∷ []), b, q))
          ];
        }
        | inr (y, (e, l)) ↦ record {
          lost = h.lost ++ y ∷ [];
          split =
              append_assoc h.lost (y ∷ []) (trim n (kept ++ x ∷ []))
              ∙ ap (λ l. h.lost ++ l) e
              ∙ appended;
          bounded = omega (arith, l);
          full = inr l;
        }
      ]

-- The table after a list of outputs of a session, each with its time.
unfoldable pub emit_each : String → List (ℕ × String) → Dict Session → Dict Session
emit_each session_id [] d = d
emit_each session_id ((now, decoded) ∷ outputs) d =
    emit_each session_id outputs (emit_output session_id now decoded d)

-- the outputs that are not empty
unfoldable pub chunks_of : List (ℕ × String) → List String
chunks_of [] = []
chunks_of ((now, decoded) ∷ outputs) =
    let rest = chunks_of outputs in if decoded == "" then rest else decoded ∷ rest

emit_output-IsTail :
    (session_id : String) (now : ℕ) (decoded : String) (d : Dict Session) (s : Session)
    → find session_id d ≡ some s
    → (s' : Session) × ((find session_id (emit_output session_id now decoded d) ≡ some s')
        × ((s'.timeout_warning ≡ s.timeout_warning)
            × (s'.output_buffer ≡ (
                if decoded == ""
                then s.output_buffer
                else append_bounded max_chunks s.output_buffer decoded))))
unfolding emit_output on_session buffer_output
emit_output-IsTail session_id now decoded d s h = elim (Bool-cases (decoded == "")) [
  | inl t ↦ (s, (ground arith, (refl, ground arith)))
  | inr f ↦ (
    buffer_output now decoded s,
    (
      ground (
        arith,
        find-store session_id session_id (buffer_output now decoded s) d,
        eq_iff session_id session_id,
      ),
      (refl, ground arith),
    ),
  )
]

chunk-IsTail :
    (decoded : String) (kept all rest : List String)
    → IsTail max_chunks kept all
    → (all' : List String) × ((all' ++ rest
          ≡ all ++ (if decoded == "" then rest else decoded ∷ rest))
        × IsTail max_chunks
            (if decoded == "" then kept else append_bounded max_chunks kept decoded)
            all')
chunk-IsTail decoded kept all rest h = elim (Bool-cases (decoded == "")) [
  | inl t ↦ (
    all,
    (
      ground arith,
      subst⁻¹
          (λ b. IsTail max_chunks (if b then kept else append_bounded max_chunks kept decoded) all)
          t h,
    ),
  )
  | inr f ↦ (
    all ++ decoded ∷ [],
    (
      append_assoc all (decoded ∷ []) rest
          ∙ ap (λ b. all ++ (if b then rest else decoded ∷ rest)) (sym f),
      subst⁻¹
          (λ b.
            IsTail max_chunks (if b then kept else append_bounded max_chunks kept decoded)
              (all ++ decoded ∷ []))
          f (append_bounded-IsTail max_chunks decoded kept all h),
    ),
  )
]

emit_each-IsTail :
    (session_id : String) (outputs : List (ℕ × String)) (d : Dict Session) (s : Session)
    (all : List String)
    → find session_id d ≡ some s
    → IsTail max_chunks s.output_buffer all
    → (s' : Session) × ((find session_id (emit_each session_id outputs d) ≡ some s')
        × ((s'.timeout_warning ≡ s.timeout_warning)
            × IsTail max_chunks s'.output_buffer (all ++ chunks_of outputs)))
unfolding emit_each chunks_of
emit_each-IsTail session_id [] d s all e h =
    (s, (e, (refl, subst (IsTail max_chunks s.output_buffer) (append_nil all) h)))
emit_each-IsTail session_id ((now, decoded) ∷ outputs) d s all e h =
    let (s1, (e1, (w1, b1))) = emit_output-IsTail session_id now decoded d s e in
    let (all1, (a1, h1)) = chunk-IsTail decoded s.output_buffer all (chunks_of outputs) h in
    let (s2, (e2, (w2, h2))) =
      emit_each-IsTail session_id outputs (emit_output session_id now decoded d) s1 all1 e1
        (subst⁻¹ (λ b. IsTail max_chunks b all1) b1 h1) in
    (s2, (e2, (w2 ∙ w1, subst (IsTail max_chunks s2.output_buffer) a1 h2)))

-- Of a session in the table whose buffer has at most 1000 chunks: a poll after any outputs answers
-- its warning and, joined and in order, the end of what was buffered before and of the outputs that
-- are not empty, which is all of it, or its last 1000 chunks.
pub get_output-emit_each :
    (session_id : String) (outputs : List (ℕ × String)) (now : ℕ) (d : Dict Session) (s : Session)
    → find session_id d ≡ some s
    → length s.output_buffer ≤ max_chunks
    → (kept : List String) × (IsTail max_chunks kept (s.output_buffer ++ chunks_of outputs)
        × ((get_output session_id now (emit_each session_id outputs d)).0
            ≡ some (join kept, s.timeout_warning)))
unfolding get_output output_of
get_output-emit_each session_id outputs now d s e b =
    let (s', (e', (w, h))) =
      emit_each-IsTail session_id outputs d s s.output_buffer e
        (whole-IsTail max_chunks s.output_buffer b) in
    (s'.output_buffer, (h, ground (arith, e', w)))
