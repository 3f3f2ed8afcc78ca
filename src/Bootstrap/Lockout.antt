-- ===== src/Bootstrap/Lockout.antt =====
-- Whom the guards of the two handlers let through.
use coding_agents_databricks.Base.{
  String, ◌≡◌, refl, ◌∙◌, true, false, none, some, [], ◌∷◌, ◌==◌, string_has_eq,
}
use coding_agents_databricks.Rotation.{
  create_token, no_answer, truthy, mint, rotate_once, is_token_expired,
}
use coding_agents_databricks.Bootstrap.{
  World, State, tried, conclude, adopting, is_valid, strip_text, bootstrap_pat, submit,
}
use coding_agents_databricks.Bootstrap.Exchange.{refused}

-- the state after an exchange that failed
abbrev pub after_failure : String → State → State
after_failure supplied s =
    tried (strip_text supplied) (adopting (strip_text supplied) s.rotator)
      (create_token (strip_text supplied) ∷ []) s

exchange_fails :
    (w : World) (supplied : String) (s : State)
    → strip_text supplied == "" ≡ false
    → is_valid w.me ≡ true
    → w.reply ≡ no_answer
    → bootstrap_pat w supplied s
      ≡ (503, after_failure supplied s, create_token (strip_text supplied) ∷ [])
unfolding bootstrap_pat rotate_once truthy mint conclude
exchange_fails w supplied s e v n =
    rw (e, v, n)
      (refused w (strip_text supplied) s.rotator (create_token (strip_text supplied) ∷ []) s)

guard_opens :
    (w : World) (supplied : String) (s : State)
    → s.rotator.current_token ≡ none
    → submit w supplied s ≡ bootstrap_pat w supplied s
unfolding submit truthy
guard_opens w supplied s c = rw (c, submit) refl

guard_shuts :
    (w : World) (supplied token : String) (s : State)
    → s.rotator.current_token ≡ some token
    → token == "" ≡ false
    → s.rotator.last_rotation_time ≡ none
    → submit w supplied s ≡ (409, s, [])
unfolding submit truthy is_token_expired
guard_shuts w supplied token s c e l = rw (c, l, e, submit) refl

-- Where no token was configured yet, a valid one whose exchange gets no answer is refused as
-- unavailable, and from then on every other submission, at any time and with any token, is refused
-- because a token is configured.
pub failed_exchange_locks_out :
    (w later : World) (supplied other : String) (s : State)
    → s.rotator.current_token ≡ none
    → s.rotator.last_rotation_time ≡ none
    → strip_text supplied == "" ≡ false
    → is_valid w.me ≡ true
    → w.reply ≡ no_answer
    → (submit w supplied s
        ≡ (503, after_failure supplied s, create_token (strip_text supplied) ∷ []))
      × (submit later other (after_failure supplied s) ≡ (409, after_failure supplied s, []))
failed_exchange_locks_out w later supplied other s c l e v n = (
  guard_opens w supplied s c ∙ exchange_fails w supplied s e v n,
  guard_shuts later other (strip_text supplied) (after_failure supplied s) refl e l,
)
