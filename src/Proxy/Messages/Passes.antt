-- ===== src/Proxy/Messages/Passes.antt =====
-- A pass over the messages, message by message; a second pass changes nothing, so the loop ends
-- after two passes and its bound of five is never met.
use mathlib.Core.Path.{subst}
use coding_agents_databricks.Base.{
  ℕ, zero, suc, ◌≡◌, refl, Option, none, some, List, [], ◌∷◌, length, arith, Result, ok, ◌>>=◌,
  >>=-eq-ok, Result-cases, nat_has_eq, inl, inr,
}
use coding_agents_databricks.Json.{Value, Fields}
use coding_agents_databricks.Proxy.Messages.{
  clean_message, last_ids, pass_from, sanitize_single_pass, sanitize_loop, max_passes,
}
use coding_agents_databricks.Proxy.Messages.Message.{
  Cleaned, clean_message-Cleaned, clean_message_idem,
}

-- `Passed cleaned ms rs`: after the messages `cleaned`, latest first, the pass makes `rs` of `ms`.
pub data Passed : List Fields → List Fields → List Fields → Type 0 where
  done : (cleaned : List Fields) → Passed cleaned [] []
  keep :
      {cleaned : List Fields} (ids : List Value) (msg msg' : Fields) {ms rs : List Fields}
      → last_ids cleaned ≡ ok ids
      → Cleaned ids msg msg'
      → Passed (msg' ∷ cleaned) ms rs
      → Passed cleaned (msg ∷ ms) (msg' ∷ rs)
  drop :
      {cleaned : List Fields} (ids : List Value) (msg : Fields) {ms rs : List Fields}
      → last_ids cleaned ≡ ok ids
      → clean_message ids msg ≡ ok none
      → Passed cleaned ms rs
      → Passed cleaned (msg ∷ ms) rs

Passed-step :
    (cleaned ms rs : List Fields) (msg : Fields) (ids : List Value) (kept : Option Fields)
    → last_ids cleaned ≡ ok ids
    → clean_message ids msg ≡ ok kept
    → ((c r : List Fields) → pass_from c ms ≡ ok r → Passed c ms r)
    → elim kept as (λ _. Result (List Fields)) [
      | none ↦ pass_from cleaned ms
      | some msg' ↦ pass_from (msg' ∷ cleaned) ms >>= λ rest. ok (msg' ∷ rest)
    ]
      ≡ ok rs
    → Passed cleaned (msg ∷ ms) rs
Passed-step cleaned ms rs msg ids none ei ek ih h = drop ids msg ei ek (ih cleaned rs h)
Passed-step cleaned ms rs msg ids (some msg') ei ek ih h =
    let (rest, er, r) = >>=-eq-ok (pass_from (msg' ∷ cleaned) ms) _ h in
    subst (Passed cleaned (msg ∷ ms)) (cc)
      (keep ids msg msg' ei (clean_message-Cleaned ids msg msg' ek) (ih (msg' ∷ cleaned) rest er))

pub pass_from-Passed :
    (cleaned ms rs : List Fields) → pass_from cleaned ms ≡ ok rs → Passed cleaned ms rs
unfolding pass_from
pass_from-Passed cleaned [] rs h = subst (Passed cleaned []) (cc) (done cleaned)
pass_from-Passed cleaned (msg ∷ ms) rs h =
    let (ids, ei, r) = >>=-eq-ok (last_ids cleaned) _ h in
    let (kept, ek, r') = >>=-eq-ok (clean_message ids msg) _ r in
    Passed-step cleaned ms rs msg ids kept ei ek (λ c s. pass_from-Passed c ms s) r'

pass_again : {cleaned ms rs : List Fields} → Passed cleaned ms rs → pass_from cleaned rs ≡ ok rs
unfolding pass_from
pass_again (done cleaned) = refl
pass_again (keep ids msg msg' e c p) = rw (e, clean_message_idem c) (rw (pass_again p))
pass_again (drop ids msg e d p) = pass_again p

-- The result of a pass is a fixed point of the pass.
pub sanitize_single_pass_idem :
    (ms rs : List Fields) → sanitize_single_pass ms ≡ ok rs → sanitize_single_pass rs ≡ ok rs
sanitize_single_pass_idem ms rs h = pass_again (pass_from-Passed [] ms rs h)

loop_of_fixed_point :
    (left n : ℕ) (rs : List Fields)
    → sanitize_single_pass rs ≡ ok rs
    → sanitize_loop (suc left) (some n) rs ≡ ok rs
unfolding sanitize_loop
loop_of_fixed_point zero n rs h = ground arith
loop_of_fixed_point (suc left) n rs h = ground arith

-- With two passes or more to go, the loop returns, or raises, what one pass does.
pub sanitize_loop-eq-single_pass :
    (left : ℕ) (ms : List Fields) → sanitize_loop (suc (suc left)) none ms ≡ sanitize_single_pass ms
unfolding sanitize_loop
sanitize_loop-eq-single_pass left ms = elim (Result-cases (sanitize_single_pass ms)) [
  | inl (e, r) ↦ rw r
  | inr (rs, r) ↦ rw r (loop_of_fixed_point left (length ms) rs (sanitize_single_pass_idem ms rs r))
]

-- The loop's bound of five passes changes nothing: one pass gives its result.
pub sanitize_loop-max_passes :
    (ms : List Fields) → sanitize_loop max_passes none ms ≡ sanitize_single_pass ms
sanitize_loop-max_passes ms = sanitize_loop-eq-single_pass 3 ms
