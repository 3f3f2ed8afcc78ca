-- ===== src/Rotation/Bootstrap.antt =====
-- Which token the bootstrap cleanup revokes.
use Prim.Native.Char.{code}
use Prim.Native.String.{◌++◌ as str_append}
use Prim.Native.String.append.{nil as append_empty, cons as append_char}
use coding_agents_databricks.Base.{
  ℕ, ◌≡◌, refl, sym, ap, ◌∙◌, String, Bool, true, false, Option, some, List, [], ◌∷◌, ◌++◌, ◌==◌,
  string_has_eq, if◌then◌else◌, arith, Bool-cases, Option-cases, inl, inr,
}
use coding_agents_databricks.Base.Text.{codes}
use coding_agents_databricks.Rotation.{
  Rotator, Action, delete_token, truthy, rotation_comment, starts_with, TokenInfo, is_candidate,
  candidates, revoke_only, revoke_bootstrap_token,
}
use coding_agents_databricks.Rotation.Revocation.{truthy_id}

candidates_split :
    (current_id : String) (infos : List TokenInfo) (info : TokenInfo) (rest : List TokenInfo)
    → candidates current_id infos ≡ info ∷ rest
    → (xs ys : List TokenInfo) × ((infos ≡ xs ++ info ∷ ys)
        × ((candidates current_id xs ≡ [])
            × ((is_candidate current_id info ≡ true) × (candidates current_id ys ≡ rest))))
unfolding candidates
candidates_split current_id [] info rest h = ground (arith, h)
candidates_split current_id (j ∷ infos) info rest h =
    elim (Bool-cases (is_candidate current_id j)) [
      | inl t ↦ ([], infos, (ground (arith, h), (refl, (ground (arith, h), ground (arith, h)))))
      | inr f ↦
          let (xs, ys, (e, (n, c))) =
            candidates_split current_id infos info rest (ground (arith, h)) in
          (j ∷ xs, ys, (ap (λ l. j ∷ l) e, (ground (arith, n), c)))
    ]

starts_with_append : (prefix rest : List ℕ) → starts_with (prefix ++ rest) prefix ≡ true
unfolding starts_with
starts_with_append [] [] = refl
starts_with_append [] (c ∷ rest) = refl
starts_with_append (p ∷ prefix) rest = ground (arith, starts_with_append prefix rest)

codes_append : (a b : String) → codes (str_append a b) ≡ codes a ++ codes b
codes_append String.[] b = ap codes (λ i. append_empty b i)
codes_append (String.◌∷◌ c s) b =
    ap codes (λ i. append_char c s b i) ∙ ap (λ l. code c ∷ l) (codes_append s b)

tagged_if :
    (b : Bool) (name : String)
    → starts_with
        (codes (if b then "coda-auto-rotated" else str_append "coda-auto-rotated:" name))
        (codes "coda-auto-rotated")
      ≡ true
unfolding starts_with
tagged_if true name = refl
tagged_if false name =
    ap (λ l. starts_with l (codes "coda-auto-rotated")) (codes_append "coda-auto-rotated:" name)

-- A token with the comment of any rotator is never a candidate, whatever the rotator's name.
pub is_candidate-rotation_comment :
    (current_id token_id name : String)
    → is_candidate current_id (record { token_id = token_id; comment = rotation_comment name })
      ≡ false
unfolding is_candidate rotation_comment
is_candidate-rotation_comment current_id token_id name = ground (arith, tagged_if (name == "") name)

sole_cases :
    (token : String) (l : List TokenInfo) (a : Action) (actions : List Action)
    → revoke_only token l ≡ a ∷ actions
    → (info : TokenInfo) × ((l ≡ info ∷ []) × (a ∷ actions ≡ delete_token token info.token_id ∷ []))
unfolding revoke_only
sole_cases token [] a actions h = absurd (ground (arith, h))
sole_cases token (info ∷ []) a actions h = (info, (refl, sym h))
sole_cases token (info ∷ other ∷ l) a actions h = absurd (ground (arith, h))

-- The bootstrap cleanup revokes a listed token only if it is the single one that is neither the
-- current token nor tagged as one of a rotator, and then it revokes that token alone.
pub revoke_bootstrap_token_sole :
    (listed : Option (List TokenInfo)) (r : Rotator) (a : Action) (actions : List Action)
    → revoke_bootstrap_token listed r ≡ a ∷ actions
    → (token current_id : String) × (xs : List TokenInfo) × (info : TokenInfo) × (ys : List
        TokenInfo)
      × ((r.current_token ≡ some token)
          × ((r.current_token_id ≡ some current_id)
              × ((listed ≡ some (xs ++ info ∷ ys))
                  × ((candidates current_id xs ++ candidates current_id ys ≡ [])
                      × ((is_candidate current_id info ≡ true)
                          × (a ∷ actions ≡ delete_token token info.token_id ∷ []))))))
unfolding revoke_bootstrap_token
revoke_bootstrap_token_sole listed r a actions h = elim (Option-cases (truthy r.current_token)) [
  | inl n ↦ absurd (ground (arith, h, n))
  | inr (token, t) ↦ elim (Option-cases (truthy r.current_token_id)) [
    | inl n ↦ absurd (ground (arith, h, n, t))
    | inr (current_id, c) ↦ elim (Option-cases listed) [
      | inl n ↦ absurd (ground (arith, h, n, t, c))
      | inr (infos, e) ↦
          let (info, (only, acts)) =
            sole_cases token (candidates current_id infos) a actions (ground (arith, h, t, c, e)) in
          let (xs, ys, (split, (n, (is, m)))) = candidates_split current_id infos info [] only in
          (
            token,
            current_id,
            xs,
            info,
            ys,
            (
              truthy_id r.current_token token t,
              (
                truthy_id r.current_token_id current_id c,
                (e ∙ ap some split, (ground (arith, n, m), (is, acts))),
              ),
            ),
          )
    ]
  ]
]
