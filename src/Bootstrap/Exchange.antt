-- ===== src/Bootstrap/Exchange.antt =====
-- Which token a bootstrap leaves behind.
use coding_agents_databricks.Base.{
  ℕ, String, ◌≡◌, ◌≢◌, refl, sym, ap, ◌∙◌, Bool, true, false, ◌&&◌, ◌||◌, not, Option, none, some,
  List, [], ◌∷◌, ◌++◌, nat_eq, arith, eq_iff, ◌==◌, string_has_eq, Bool-cases, inl, inr,
  if◌then◌else◌, if_cases,
}
use coding_agents_databricks.Rotation.{
  Rotator, Action, create_token, persist, revoke_old, CreateReply, no_answer, answered, raised,
  returned, truthy, mint, adopt, rotate_once, revoke_bootstrap_token,
}
use coding_agents_databricks.Bootstrap.{
  World, State, finish, tried, conclude, adopting, or_else, is_uncontrolled, is_valid, strip_text,
  bootstrap_pat,
}

-- The token service answered with a token, which the rotator holds, and with which the CLIs were
-- configured.
abbrev pub IsExchanged : CreateReply → State → Type 0
IsExchanged reply s =
    (new : String) × (id : String) × (reply ≡ answered 200 (some (new, id)))
    × (s.rotator.current_token ≡ some new)
    × (s.rotator.current_token_id ≡ some id)
    × (new ≢ "" → s.cli_token ≡ some new)

uncontrolled : (token : String) (r : Rotator) → is_uncontrolled token (adopting token r) ≡ true
unfolding is_uncontrolled truthy
uncontrolled token r = ground (arith, eq_iff token token)

or_else-some :
    (new : String) (token : Option String) → new ≢ "" → or_else (some new) token ≡ some new
unfolding truthy
or_else-some new token n = ground (arith, n, eq_iff new "")

pub refused :
    (w : World) (token : String) (r : Rotator) (actions : List Action) (s : State)
    → conclude w token s (returned false, adopting token r, actions)
      ≡ (503, tried token (adopting token r) actions s, actions)
unfolding conclude
refused w token r actions s = rw (uncontrolled token r, conclude) refl

status_of :
    (n : ℕ) (a b : State) (sent others : List Action)
    → ◌≡◌ {A = ℕ × State × List Action} (n, a, sent) (200, b, others)
    → n ≡ 200
status_of n a b sent others h = ap (λ (z : ℕ × State × List Action). z.0) h

-- the end with a token that was minted
finished :
    (reply : CreateReply) (new id : String) (now : ℕ) (token : Option String)
    (actions sent : List Action) (s s' : State)
    → reply ≡ answered 200 (some (new, id))
    → s.rotator ≡ record {
      current_token = some new;
      current_token_id = some id;
      last_rotation_time = some now;
    }
    → finish token s.rotator actions s ≡ (200, s', sent)
    → IsExchanged reply s'
unfolding finish
finished reply new id now token actions sent s s' a e h =
    let q : record s {
      rotating = true;
      cli_token = or_else s.rotator.current_token token;
      setup_started = s.setup_started || not s.setup_complete;
    }
        ≡ s' =
      ap (λ (z : ℕ × State × List Action). z.1) h in
    (
      new,
      id,
      a,
      ap (λ (z : State). z.rotator.current_token) (sym q) ∙ ap (λ (z : Rotator). z.current_token) e,
      ap (λ (z : State). z.rotator.current_token_id) (sym q)
          ∙ ap (λ (z : Rotator). z.current_token_id) e,
      λ n.
          ap (λ (z : State). z.cli_token) (sym q)
          ∙ ap (λ (z : Rotator). or_else z.current_token token) e
          ∙ or_else-some new token n,
    )

IsExchanged-if :
    (ok : Bool) (w : World) (token new id : String) (actions sent : List Action) (s s' : State)
    → w.reply ≡ answered 200 (some (new, id))
    → conclude w token s (
      returned ok,
      record {
        current_token = some new;
        current_token_id = some id;
        last_rotation_time = some w.now;
      },
      actions,
    )
      ≡ (200, s', sent)
    → IsExchanged w.reply s'
unfolding conclude
IsExchanged-if true w token new id actions sent s s' a h =
    let r : Rotator = record {
      current_token = some new;
      current_token_id = some id;
      last_rotation_time = some w.now;
    } in
    finished w.reply new id w.now (some new) (actions ++ revoke_bootstrap_token w.listed r) sent
      (tried token r actions s) s' a refl h
IsExchanged-if false w token new id actions sent s s' a h =
    let r : Rotator = record {
      current_token = some new;
      current_token_id = some id;
      last_rotation_time = some w.now;
    } in
    elim (if_cases (is_uncontrolled token r) (503, tried token r actions s, actions)
      (finish (some token) r actions (tried token r actions s)) (200, s', sent) h) [
        | inl (t, e) ↦
            absurd (ground (arith, status_of 503 (tried token r actions s) s' actions sent e))
        | inr (f, e) ↦
            finished w.reply new id w.now (some token) actions sent (tried token r actions s) s' a
              refl e
      ]

-- The rotation returned without a token, or raised.
not_exchanged :
    (b : Bool) (w : World) (token : String) (s s' : State) (sent : List Action)
    → conclude w token s
        (if b then raised else returned false, adopting token s.rotator, create_token token ∷ [])
      ≢ (200, s', sent)
unfolding conclude
not_exchanged true w token s s' sent h = ground (
  arith,
  status_of 500 (tried token (adopting token s.rotator) (create_token token ∷ []) s) s'
      (create_token token ∷ []) sent h,
)
not_exchanged false w token s s' sent h = ground (
  arith,
  status_of 503 (tried token (adopting token s.rotator) (create_token token ∷ []) s) s'
      (create_token token ∷ []) sent
      (sym (refused w token s.rotator (create_token token ∷ []) s) ∙ h),
)

exchanged :
    (reply : CreateReply) (w : World) (token : String) (s s' : State) (sent : List Action)
    → w.reply ≡ reply
    → conclude w token s
        (mint (some token) reply w.now w.config_ok w.refresh_ok (adopting token s.rotator))
      ≡ (200, s', sent)
    → IsExchanged w.reply s'
unfolding mint adopt
exchanged no_answer w token s s' sent a h = absurd (not_exchanged false w token s s' sent h)
exchanged (answered status none) w token s s' sent a h =
    absurd (not_exchanged (nat_eq status 200) w token s s' sent h)
exchanged (answered status (some (new, id))) w token s s' sent a h =
    elim (Bool-cases (nat_eq status 200)) [
      | inl t ↦
          IsExchanged-if (w.config_ok && w.refresh_ok) w token new id
            (create_token token ∷ persist new ∷ revoke_old none new (w.config_ok && w.refresh_ok))
            sent s s' (a ∙ ap (λ n. answered n (some (new, id))) (ground (arith, t))) (rw t at h)
      | inr f ↦ absurd (not_exchanged false w token s s' sent (rw f at h))
    ]

-- A bootstrap that ends well has exchanged the token: the service answered with one, the rotator
-- holds it and its id, and the CLIs were configured with it and not with the token that was
-- supplied, unless the one of the answer is empty.
pub bootstrap_pat-IsExchanged :
    (w : World) (supplied : String) (s s' : State) (sent : List Action)
    → bootstrap_pat w supplied s ≡ (200, s', sent)
    → IsExchanged w.reply s'
unfolding bootstrap_pat rotate_once truthy
bootstrap_pat-IsExchanged w supplied s s' sent h =
    let token = strip_text supplied in
    elim (Bool-cases (token == "")) [
      | inl t ↦ absurd (ground (arith, status_of 400 s s' [] sent (rw t at h)))
      | inr f ↦ elim (Bool-cases (is_valid w.me)) [
        | inl v ↦ exchanged w.reply w token s s' sent refl (rw (f, v) at h)
        | inr v ↦ absurd (ground (arith, status_of 400 s s' [] sent (rw (f, v) at h)))
      ]
    ]
