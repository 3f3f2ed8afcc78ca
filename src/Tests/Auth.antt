-- ===== src/Tests/Auth.antt =====
-- Authorization at concrete inputs: app.py.
use coding_agents_databricks.Base.{◌≡◌, refl, true, Option, none, some, []}
use coding_agents_databricks.Base.Text.{codes, is_prefix}
use coding_agents_databricks.Base.Parse.{Text, strip, lstrip, same_text}
use coding_agents_databricks.Auth.{
  Config, Headers, first_of, given, lower_given, get_request_user, owner_check_disabled,
  check_authorization, check_ws_authorization, is_exempt, authorize_request,
}
use coding_agents_databricks.Auth.Gate.{
  check_ws_authorization-check_authorization, authorized_is_owner,
}

abbrev deployed : Config
deployed = record {
  disable_owner_check = [];
  app_owner = some (codes "ann@x.org");
  is_databricks_apps = true;
}

abbrev from_user : Option Text → Headers
from_user user = record {
  forwarded_email = some [];
  forwarded_user = user;
  databricks_user_email = none;
}

-- A name in capitals is the owner's, another is refused, and none is refused.
answers :
    (authorize_request deployed (codes "/api/session") (from_user (some (codes "ANN@x.org")))
      ≡ none)
    × (authorize_request deployed (codes "/api/session") (from_user (some (codes "bob@x.org")))
        ≡ some 403)
    × (authorize_request deployed (codes "/api/session") (from_user none) ≡ some 403)
unfolding authorize_request check_authorization get_request_user first_of given lower_given
    owner_check_disabled is_exempt same_text is_prefix strip lstrip
answers = (refl, refl, refl)

check_ws_authorization-check_authorization_example :
    check_ws_authorization deployed (from_user none)
    ≡ (check_authorization deployed (from_user none)).0
check_ws_authorization-check_authorization_example =
    check_ws_authorization-check_authorization deployed (from_user none)

authorized_is_owner_example :
    (user : Text) × (get_request_user (from_user (some (codes "ANN@x.org"))) ≡ some user)
    × (some (codes "ann@x.org") ≡ some user)
unfolding is_exempt owner_check_disabled same_text is_prefix strip lstrip
authorized_is_owner_example =
    authorized_is_owner deployed (codes "/api/session") (from_user (some (codes "ANN@x.org")))
      answers.0 refl refl refl
