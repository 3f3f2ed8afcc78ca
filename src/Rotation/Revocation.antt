-- ===== src/Rotation/Revocation.antt =====
-- Which tokens the rotator revokes over any number of rotations.
use mathlib.Core.Path.{subst, subst⁻¹}
use coding_agents_databricks.Base.{
  ℕ, ◌≡◌, ◌≢◌, refl, ◌⊎◌, String, Bool, true, false, ◌&&◌, Option, none, some, List, [], ◌∷◌, ◌++◌,
  All, nat_eq, ◌==◌, string_has_eq, if◌then◌else◌, arith, Bool-cases, inl, inr,
}
use coding_agents_databricks.Rotation.{
  Rotator, Action, create_token, persist, delete_token, CreateReply, no_answer, answered, Outcome,
  mint, truthy, revoke_old, adopt, rotate_once,
}

-- One rotation: what `token/create` answers, when, and whether the new token reaches its targets.
pub record Attempt : Type 0 where
  pub reply : CreateReply
  pub now : ℕ
  pub config_ok : Bool
  pub refresh_ok : Bool

unfoldable pub rotate_all : List Attempt → Rotator → Rotator × List Action
rotate_all [] r = (r, [])
rotate_all (a ∷ attempts) r =
    let (outcome, r', actions) = rotate_once a.reply a.now a.config_ok a.refresh_ok r in
    let (last, rest) = rotate_all attempts r' in (last, actions ++ rest)

abbrev pub ids_of : Option String → List String
ids_of none = []
ids_of (some i) = i ∷ []

abbrev pub minted_by : CreateReply → List String
minted_by no_answer = []
minted_by (answered status none) = []
minted_by (answered status (some (t, i))) = i ∷ []

-- The ids in the answers of the token service.
abbrev pub minted : List Attempt → List String
minted [] = []
minted (a ∷ attempts) = minted_by a.reply ++ minted attempts

abbrev pub AreDistinct : List String → Type 0
AreDistinct [] = Unit
AreDistinct (i ∷ is) = All (λ j. i ≢ j) is × AreDistinct is

-- The action does not revoke the token with the given id.
abbrev pub Spares : Option String → Action → Type 0
Spares i (delete_token bearer j) = i ≢ some j
Spares i (create_token bearer) = Unit
Spares i (persist token) = Unit

All-append : {A : Type 0} (P : A → Type 0) (xs ys : List A) → All P xs → All P ys → All P (xs ++ ys)
All-append P [] ys p q = q
All-append P (x ∷ xs) ys (h, p) q = (h, All-append P xs ys p q)

All-right : {A : Type 0} (P : A → Type 0) (xs ys : List A) → All P (xs ++ ys) → All P ys
All-right P [] ys p = p
All-right P (x ∷ xs) ys (h, p) = All-right P xs ys p

distinct_tail : (xs ys : List String) → AreDistinct (xs ++ ys) → AreDistinct ys
distinct_tail [] ys d = d
distinct_tail (x ∷ xs) ys (h, d) = distinct_tail xs ys d

-- What a rotation may come to: the rotator keeps its token and revokes nothing, or it has a new
-- token that was minted and revokes at most the old one.
Legal : CreateReply → Rotator → Outcome × Rotator × List Action → Type 0
Legal reply r (outcome, r', actions) =
    ((r' ≡ r) × ((i : Option String) → All (Spares i) actions))
    ⊎ ((new : String) × ((minted_by reply ≡ new ∷ [])
          × ((r'.current_token_id ≡ some new)
              × ((i : Option String)
                  → All (λ j. i ≢ some j) (ids_of r.current_token_id)
                  → All (Spares i) actions))))

pub truthy_id : (o : Option String) (old : String) → truthy o ≡ some old → o ≡ some old
unfolding truthy
truthy_id none old h = ground (arith, h)
truthy_id (some t) old h = ground (arith, h)

revoke_old-Spares :
    (o : Option String) (token : String) (ok : Bool) (i : Option String)
    → All (λ j. i ≢ some j) (ids_of o)
    → All (Spares i) (revoke_old o token ok)
unfolding revoke_old truthy
revoke_old-Spares none token ok i h = tt
revoke_old-Spares (some old) token ok i h = elim (Bool-cases (old == "")) [
  | inl t ↦ ground (arith, h)
  | inr f ↦ elim (Bool-cases ok) [ inl u ↦ ground (arith, h) | inr u ↦ ground (arith, h) ]
]

either-Legal :
    (reply : CreateReply) (r : Rotator) (b : Bool) (x y : Outcome × Rotator × List Action)
    → Legal reply r x
    → Legal reply r y
    → Legal reply r (if b then x else y)
either-Legal reply r true x y p q = p
either-Legal reply r false x y p q = q

mint_cases :
    (token : Option String) (reply : CreateReply) (now : ℕ) (config_ok refresh_ok : Bool)
    (r : Rotator)
    → Legal reply r (mint token reply now config_ok refresh_ok r)
unfolding Legal mint adopt
mint_cases none reply now config_ok refresh_ok r = inl (refl, λ i. tt)
mint_cases (some token) no_answer now config_ok refresh_ok r = inl (refl, λ i. (tt, tt))
mint_cases (some token) (answered status none) now config_ok refresh_ok r =
    inl (refl, λ i. (tt, tt))
mint_cases (some token) (answered status (some (t, new))) now config_ok refresh_ok r =
    either-Legal (answered status (some (t, new))) r (nat_eq status 200) _ _
      (inr (
        new,
        (
          refl,
          (
            refl,
            λ i h. (tt, (tt, revoke_old-Spares r.current_token_id t (config_ok && refresh_ok) i h)),
          ),
        ),
      ))
      (inl (refl, λ i. (tt, tt)))

rotate_once_cases :
    (a : Attempt) (r : Rotator)
    → Legal a.reply r (rotate_once a.reply a.now a.config_ok a.refresh_ok r)
unfolding rotate_once
rotate_once_cases a r = mint_cases (truthy r.current_token) a.reply a.now a.config_ok a.refresh_ok r

All-middle :
    {A : Type 0} (P : A → Type 0) (xs ys zs : List A) → All P (xs ++ (ys ++ zs)) → All P (xs ++ zs)
All-middle P [] ys zs p = All-right P ys zs p
All-middle P (x ∷ xs) ys zs (h, p) = (h, All-middle P xs ys zs p)

distinct_middle : (xs ys zs : List String) → AreDistinct (xs ++ (ys ++ zs)) → AreDistinct (xs ++ zs)
distinct_middle [] ys zs d = distinct_tail ys zs d
distinct_middle (x ∷ xs) ys zs (h, d) =
    (All-middle (λ j. x ≢ j) xs ys zs h, distinct_middle xs ys zs d)

avoids_id : (x : String) (o : Option String) → All (λ j. x ≢ j) (ids_of o ++ []) → o ≢ some x
avoids_id x none h e = ground (arith, e)
avoids_id x (some j) (n, t) e = n (ground (arith, e))

after_mint :
    (P : List String → Type 0) (o : Option String) (reply : CreateReply) (new : String)
    (rest : List String)
    → minted_by reply ≡ new ∷ []
    → o ≡ some new
    → P (minted_by reply ++ rest)
    → P (ids_of o ++ rest)
after_mint P o reply new rest m e p =
    subst⁻¹ (λ u. P (ids_of u ++ rest)) e (subst (λ l. P (l ++ rest)) m p)

last_avoids :
    (x : String) (attempts : List Attempt) (r : Rotator)
    → All (λ j. x ≢ j) (ids_of r.current_token_id ++ minted attempts)
    → (rotate_all attempts r).0.current_token_id ≢ some x
unfolding rotate_all Legal
last_avoids x [] r h = avoids_id x r.current_token_id h
last_avoids x (a ∷ attempts) r h =
    let step = rotate_once a.reply a.now a.config_ok a.refresh_ok r in
    last_avoids x attempts step.1 (elim (rotate_once_cases a r) [
      | inl (same, _) ↦
          subst⁻¹ (λ q. All (λ j. x ≢ j) (ids_of q.current_token_id ++ minted attempts)) same
            (All-middle (λ j. x ≢ j) (ids_of r.current_token_id) (minted_by a.reply)
              (minted attempts) h)
      | inr (new, (m, (e, _))) ↦
          after_mint (λ l. All (λ j. x ≢ j) l) step.1.current_token_id a.reply new (minted attempts)
            m e
            (All-right (λ j. x ≢ j) (ids_of r.current_token_id)
              (minted_by a.reply ++ minted attempts) h)
    ])

old_avoided :
    (o last : Option String) (rest : List String)
    → AreDistinct (ids_of o ++ rest)
    → ((x : String) → All (λ j. x ≢ j) rest → last ≢ some x)
    → All (λ j. last ≢ some j) (ids_of o)
old_avoided none last rest d f = tt
old_avoided (some i) last rest (h, d) f = (f i h, tt)

-- If the ids of the token at the start and of those that the token service answers are distinct,
-- then over any run of rotations, whatever fails in them, no revocation that is sent names the id
-- of the token that the rotator ends with.
pub rotate_all-Spares :
    (attempts : List Attempt) (r : Rotator)
    → AreDistinct (ids_of r.current_token_id ++ minted attempts)
    → All (Spares (rotate_all attempts r).0.current_token_id) (rotate_all attempts r).1
unfolding rotate_all Legal
rotate_all-Spares [] r d = tt
rotate_all-Spares (a ∷ attempts) r d =
    let step = rotate_once a.reply a.now a.config_ok a.refresh_ok r in
    let last = (rotate_all attempts step.1).0.current_token_id in
    let rest = minted_by a.reply ++ minted attempts in
    elim (rotate_once_cases a r) [
      | inl (same, spares) ↦
          All-append (Spares last) step.2 (rotate_all attempts step.1).1 (spares last) (
            rotate_all-Spares attempts step.1 (
              subst⁻¹ (λ (q : Rotator). AreDistinct (ids_of q.current_token_id ++ minted attempts))
                same
                (distinct_middle (ids_of r.current_token_id) (minted_by a.reply) (minted attempts)
                  d)))
      | inr (new, (m, (e, spares))) ↦
          All-append (Spares last) step.2 (rotate_all attempts step.1).1
            (spares last (
              old_avoided r.current_token_id last rest d (λ x h. last_avoids x attempts step.1 (
                after_mint (λ l. All (λ j. x ≢ j) l) step.1.current_token_id a.reply new
                  (minted attempts) m e h))))
            (rotate_all-Spares attempts step.1 (
              after_mint AreDistinct step.1.current_token_id a.reply new (minted attempts) m e
                (distinct_tail (ids_of r.current_token_id) rest d)))
    ]
