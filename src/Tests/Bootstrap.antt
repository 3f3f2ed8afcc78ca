-- ===== src/Tests/Bootstrap.antt =====
-- The first token of the application: app.py.
use coding_agents_databricks.Base.{◌≡◌, refl, true, false, none, some, [], ◌∷◌, string_has_eq}
use coding_agents_databricks.Base.Text.{codes, is_space}
use coding_agents_databricks.Base.Parse.{strip, lstrip, same_text}
use coding_agents_databricks.Auth.{Config, Headers}
use coding_agents_databricks.Gateway.Names.{without, after}
use coding_agents_databricks.Rotation.{
  create_token, persist, CreateReply, answered, no_answer, truthy, mint, adopt, revoke_old,
  rotate_once, revoke_bootstrap_token,
}
use coding_agents_databricks.Bootstrap.{
  me_answered, World, State, strip_text, lstrip_text, rstrip_text, is_valid, env_after, conclude,
  finish, bootstrap_pat, submit, inject_pat, provided, check_secret, is_ascii,
}
use coding_agents_databricks.Bootstrap.Exchange.{IsExchanged, bootstrap_pat-IsExchanged}
use coding_agents_databricks.Bootstrap.Lockout.{after_failure, failed_exchange_locks_out}

abbrev fresh : State
fresh = record {
  rotator = record { current_token = none; current_token_id = none; last_rotation_time = none };
  rotating = false;
  env_token = none;
  cli_token = none;
  setup_complete = false;
  setup_started = false;
}

abbrev world : CreateReply → World
world reply = record {
  me = me_answered 200;
  reply = reply;
  listed = none;
  now = 1000;
  config_ok = true;
  refresh_ok = true;
}

abbrev configured : State
configured = record {
  rotator = record {
    current_token = some "dapi2";
    current_token_id = some "i2";
    last_rotation_time = some 1000;
  };
  rotating = true;
  env_token = some "dapi2";
  cli_token = some "dapi2";
  setup_complete = false;
  setup_started = true;
}

bootstrap-fresh :
    bootstrap_pat (world (answered 200 (some ("dapi2", "i2")))) " dapi1 " fresh
    ≡ (200, configured, create_token "dapi1" ∷ persist "dapi2" ∷ [])
unfolding bootstrap_pat strip_text lstrip_text rstrip_text is_space is_valid rotate_once mint adopt
    revoke_old conclude finish env_after truthy revoke_bootstrap_token
bootstrap-fresh = refl

bootstrap_pat-IsExchanged_example : IsExchanged (answered 200 (some ("dapi2", "i2"))) configured
bootstrap_pat-IsExchanged_example =
    bootstrap_pat-IsExchanged (world (answered 200 (some ("dapi2", "i2")))) " dapi1 " fresh
      configured (create_token "dapi1" ∷ persist "dapi2" ∷ []) bootstrap-fresh

-- Without the secret the route of the provisioning script is not there.
inject-unset :
    inject_pat
      (codes " ")
      (record { bootstrap_secret = codes "x"; authorization = [] })
      (world no_answer)
      "t"
      fresh
    ≡ (404, fresh, [])
unfolding inject_pat strip lstrip is_space
inject-unset = refl

inject-wrong :
    inject_pat
      (codes "s")
      (record { bootstrap_secret = []; authorization = codes "Bearer x" })
      (world no_answer)
      "t"
      fresh
    ≡ (403, fresh, [])
unfolding inject_pat strip lstrip is_space provided without after check_secret is_ascii same_text
inject-wrong = refl

abbrev unowned : Config
unowned = record { disable_owner_check = []; app_owner = none; is_databricks_apps = true }

abbrev stranger : Headers
stranger = record {
  forwarded_email = some (codes "eve@x.org");
  forwarded_user = none;
  databricks_user_email = none;
}

failed_exchange_locks_out_example :
    (submit (world no_answer) "dapi1" fresh
      ≡ (503, after_failure "dapi1" fresh, create_token "dapi1" ∷ []))
    × (submit (world (answered 200 (some ("dapi2", "i2")))) "dapi9" (after_failure "dapi1" fresh)
        ≡ (409, after_failure "dapi1" fresh, []))
unfolding strip_text lstrip_text rstrip_text is_space is_valid
failed_exchange_locks_out_example =
    failed_exchange_locks_out (world no_answer) (world (answered 200 (some ("dapi2", "i2"))))
      "dapi1" "dapi9" fresh refl refl refl refl refl
