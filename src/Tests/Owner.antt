-- ===== src/Tests/Owner.antt =====
-- The owner of the application: app.py.
use coding_agents_databricks.Base.{◌≡◌, refl, true, none, some, List, [], ◌∷◌, inl, inr}
use coding_agents_databricks.Base.Text.{codes, is_space, is_prefix}
use coding_agents_databricks.Base.Parse.{Text, strip, lstrip}
use coding_agents_databricks.Auth.{
  Config, Headers, first_of, given, get_request_user, check_authorization,
}
use coding_agents_databricks.Config.{ensure_https}
use coding_agents_databricks.Gateway.Names.{after}
use coding_agents_databricks.Owner.{
  api_raised, described, Environment, user_raised, user_named, Attempt, owner_from_apps_api,
  described_owner, boot_attempts, token_user, get_token_owner, retry,
}
use coding_agents_databricks.Owner.Recovery.{retry_recovers}

abbrev environment : Environment
environment = record {
  app_owner_email = codes " ";
  app_name = some (codes "coda");
  host = codes "h.databricks.com";
  token = some (codes "dapi1");
}

-- The description goes before the creator, after an attempt that failed.
description_first :
    get_token_owner environment
      (api_raised ∷ described (some (codes "owner: Ann@x.org")) (some (codes "bot@x.org")) ∷ [])
      user_raised
    ≡ some (codes "ann@x.org")
unfolding get_token_owner boot_attempts owner_from_apps_api described_owner given first_of strip
    lstrip is_space after
description_first = refl

-- Without an answer the user of the token is the owner.
token_last :
    get_token_owner environment (api_raised ∷ []) (user_named (some (codes "Bob@x.org")))
    ≡ some (codes "bob@x.org")
unfolding get_token_owner boot_attempts owner_from_apps_api token_user ensure_https given first_of
    strip lstrip is_space is_prefix
token_last = refl

abbrev attempts : List Attempt
attempts =
    record { elsewhere = none; answer = api_raised }
    ∷ record { elsewhere = none; answer = described none (some (codes "Ann@x.org")) }
    ∷ []

retry_recovers_example :
    (owner : Text) × (retry (some (codes "coda")) attempts none ≡ some owner)
    × ((c : Config) (h : Headers)
        → get_request_user h ≡ some owner
        → check_authorization (record c { app_owner = retry (some (codes "coda")) attempts none }) h
          ≡ (true, none))
unfolding owner_from_apps_api described_owner given first_of after
retry_recovers_example =
    retry_recovers (some (codes "coda")) attempts (inr (inl (codes "ann@x.org", refl)))
