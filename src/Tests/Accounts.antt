-- ===== src/Tests/Accounts.antt =====
-- The theorems on accounts, sessions, tokens and events at concrete inputs.
use Prim.Native.Char.{code}
use trackstar.Access.{authorize, write_access}
use trackstar.Access.Archived.{is_refused, set_archived-authorize}
use trackstar.AppErr.{invalid_err, unauthorized_err}
use trackstar.Auth.Accounts.{
  RegisterInput, authenticate, logout, normalize_email, register, session_ttl, set_password,
  start_session,
}
use trackstar.Auth.Managed.Reach.{
  AccountRun, AccountRun-IsManaged, and_then, idle, registers, updates,
}
use trackstar.Auth.Oauth.{
  Exchange, authenticate_access_token, exchange_body, exchange_code, find_client, invalid_grant_err,
  issue_tokens, prune_oauth, redeem_code, refresh_tokens,
}
use trackstar.Auth.Oauth.Codes.Replay.{exchange_code_once}
use trackstar.Auth.Sessions.{logout-authenticate, start_session-authenticate, until}
use trackstar.Auth.SignedOut.{SignedOut, answers_other}
use trackstar.Auth.SignedOut.Deactivate.{update_account-SignedOut}
use trackstar.Auth.SignedOut.Password.{set_password-answers_other}
use trackstar.Auth.Tokens.{CreateTokenInput, authenticate_token, create_token, revoke_token}
use trackstar.Auth.Tokens.Lifetime.{answer_for, create_token-authenticate_token, stands_at}
use trackstar.Common.{
  List, String, [], arith, false, leb, none, refl, some, true, ◌&&◌, ◌+◌, ◌∷◌, ◌≡◌,
}
use trackstar.Common.Int.{pos}
use trackstar.Common.Text.{trim_space}
use trackstar.Db.Accounts.{get_project, get_user}
use trackstar.Db.Accounts.Oauth.{
  create_oauth_grant, delete_empty_oauth_grants, delete_expired_oauth_codes,
  delete_user_oauth_grants, get_oauth_client, get_oauth_code, touch_oauth_client, use_oauth_code,
}
use trackstar.Db.Accounts.OauthTokens.{create_oauth_token, delete_expired_oauth_tokens}
use trackstar.Db.Accounts.Users.{count_active_admins, delete_user_sessions, update_user}
use trackstar.Db.Rows.{Db}
use trackstar.Db.Tx.{err, in_tx, ok, ◌>>=◌}
use trackstar.Events.{new_hub, stories_event}
use trackstar.Events.Refine.Run.{hub_answers-answers}
use trackstar.Events.Spec.{
  Call, answers, cancelling, hub_answers, new_board, publishing, receiving, subscribing,
}
use trackstar.Project.Create.{CreateEnv, create_owned, default_settings}
use trackstar.Project.Create.Owned.{create_owned-is_created, is_created}
use trackstar.Project.Settings.{
  ProjectInput, Settings, apply, set_archived, set_archived_body, set_project_archived,
}
use trackstar.Project.Slug.{
  SlugEnv, dashed, decimal_from, free_slug, numbered_slug, only_digits, slugify, unique_slug,
}
use trackstar.Project.Slug.Ends.{is_free, unique_slug_ends}
use trackstar.Sample.{
  sample_auth, sample_db, sample_db-IsManaged, sample_engine, sample_now, sample_project,
  sample_user,
}
use trackstar.User.{
  AdminUpdate, check_last_admin, sign_out_inactive, update_account, update_account_body, user_of,
}
use trackstar.User.Admins.{IsManaged}
use trackstar.User.Keeps.{update_account-IsManaged}

abbrev demote : AdminUpdate
demote = record { display_name = none; is_admin = some false; is_active = none }

abbrev deactivate : AdminUpdate
deactivate = record { display_name = none; is_admin = none; is_active = some false }

update_account-IsManaged_example : IsManaged (update_account sample_now 1 demote sample_db).1
update_account-IsManaged_example =
    update_account-IsManaged sample_now 1 demote sample_db sample_db-IsManaged

-- The only administrator cannot be demoted, and another account can be deactivated.
demote_refused :
    (update_account sample_now 1 demote sample_db).0
    ≡ err (invalid_err "this is the last active administrator")
unfolding update_account update_account_body check_last_admin count_active_admins in_tx get_user
demote_refused = refl

abbrev empty_db : Db
empty_db = record sample_db { users = [] }

abbrev first_user : RegisterInput
first_user = record { email = "owner@example.org"; password = "a password"; display_name = "Owner" }

abbrev after_registration : Db
after_registration = (register sample_auth "salt" sample_now first_user empty_db).1

abbrev after_deactivation : Db
after_deactivation = (update_account sample_now 1 deactivate after_registration).1

sample_run : AccountRun sample_auth empty_db after_deactivation
sample_run =
    and_then empty_db after_registration after_deactivation
      (and_then empty_db empty_db after_registration (idle empty_db)
        (registers "salt" sample_now first_user empty_db))
      (updates sample_now 1 deactivate after_registration)

AccountRun-IsManaged_example : IsManaged after_deactivation
AccountRun-IsManaged_example =
    AccountRun-IsManaged sample_auth empty_db after_deactivation refl sample_run

set_password-answers_other_example :
    let (result, after) =
      set_password sample_auth "salt" sample_now "user@example.org" "a new password" sample_db in
    (result ≡ ok tt)
    × (answers_other 2 (authenticate sample_auth sample_now "session" after).0 ≡ true)
    × (answers_other 2 (authenticate_access_token sample_auth sample_now "session" after).0 ≡ true)
unfolding normalize_email trim_space
set_password-answers_other_example =
    set_password-answers_other sample_auth "salt" sample_now sample_now "user@example.org"
      "a new password" "a new password" "session" (sample_user 2 false) sample_db refl refl refl

update_account-SignedOut_example :
    SignedOut 2 (update_account sample_now 2 deactivate sample_db).1
    × (answers_other 2
          (authenticate_token sample_auth sample_now "tst_x"
            (update_account sample_now 2 deactivate sample_db).1).0
        ≡ true)
unfolding update_account update_account_body check_last_admin sign_out_inactive update_user in_tx
    delete_user_sessions delete_user_oauth_grants get_user
update_account-SignedOut_example =
    update_account-SignedOut sample_auth sample_now sample_now 2 deactivate "tst_x"
      (record (user_of (sample_user 2 false)) { is_active = false }) sample_db
      (update_account sample_now 2 deactivate sample_db).1 refl refl

start_session-authenticate_example :
    ((start_session sample_auth (ok "new") sample_now 2
        >>= authenticate sample_auth (sample_now + 60))
      sample_db).0
    ≡ until (sample_now + session_ttl) (sample_now + 60) (sample_user 2 false)
start_session-authenticate_example =
    start_session-authenticate sample_auth sample_now (sample_now + 60) 2 "new"
      (sample_user 2 false) sample_db refl refl refl

logout-authenticate_example :
    ((authenticate sample_auth sample_now "session" (logout sample_auth "session" sample_db).1).0
      ≡ err (unauthorized_err "not signed in"))
    × ((authenticate sample_auth sample_now "other" (logout sample_auth "session" sample_db).1).0
        ≡ (authenticate sample_auth sample_now "other" sample_db).0)
logout-authenticate_example =
    logout-authenticate sample_auth sample_now "session" "other" sample_db refl refl

abbrev sample_token : CreateTokenInput
sample_token = record { name = "script"; expires_in_days = pos 30 }

create_token-authenticate_token_example :
    (((create_token sample_auth (ok "raw") sample_now 2 sample_token >>= λ c.
    authenticate_token sample_auth (sample_now + 60) c.secret)
        sample_db).0
      ≡ answer_for (stands_at sample_now 30 (sample_now + 60)) (sample_user 2 false))
    × (((create_token sample_auth (ok "raw") sample_now 2 sample_token >>= λ c.
            revoke_token 2 c.token.id >>= λ _.
            authenticate_token sample_auth (sample_now + 60) c.secret)
          sample_db).0
        ≡ err (unauthorized_err "invalid API token"))
unfolding trim_space
create_token-authenticate_token_example =
    create_token-authenticate_token sample_auth sample_now (sample_now + 60) 2 30 "raw" sample_token
      (sample_user 2 false) sample_db
      (record { named = refl; short = refl; dated = refl; bounded = refl }) refl refl

abbrev sample_exchange : Exchange
sample_exchange = record {
  code = "code";
  redirect_uri = "https://app.example.org/";
  verifier = "a verifier that is long enough for the check";
  random = ok "one";
  random' = ok "two";
}

abbrev sample_digest : String → String
sample_digest verifier = "challenge"

abbrev exchanged : Db
exchanged = (exchange_code sample_auth sample_digest sample_now "app" sample_exchange sample_db).1

exchange_code_once_example :
    let (result, final) =
      exchange_code sample_auth sample_digest (sample_now + 5) "app" sample_exchange exchanged in
    (result ≡ err invalid_grant_err)
    × ((authenticate_access_token sample_auth (sample_now + 10) "tsa_one" final).0
        ≡ err (unauthorized_err "invalid access token"))
unfolding exchange_code exchange_body redeem_code find_client get_oauth_client get_oauth_code
    get_user prune_oauth delete_expired_oauth_codes delete_expired_oauth_tokens
    delete_empty_oauth_grants create_oauth_grant use_oauth_code touch_oauth_client issue_tokens
    create_oauth_token in_tx
exchange_code_once_example =
    exchange_code_once sample_auth sample_digest sample_now (sample_now + 5) (sample_now + 10) "app"
      sample_exchange sample_exchange
      (record { access_token = "tsa_one"; expires_in = 3600; refresh_token = "tsr_two" }) sample_db
      exchanged refl refl

abbrev rotated : Db
rotated = (refresh_tokens sample_auth (ok "one") (ok "two") sample_now "app" "tsr_old" sample_db).1

abbrev sample_calls : List Call
sample_calls =
    subscribing 1
    ∷ publishing (stories_event 1 (2 ∷ []) "tab")
    ∷ publishing (stories_event 3 (4 ∷ []) "tab")
    ∷ receiving 0
    ∷ cancelling 1 0
    ∷ receiving 0
    ∷ []

hub_answers-answers_example :
    hub_answers sample_calls new_hub ≡ some (answers sample_calls new_board)
hub_answers-answers_example = hub_answers-answers sample_calls (omega arith)

set_archived-authorize_example :
    is_refused (authorize 1 1 true write_access (set_archived sample_now 1 true sample_db).1).0
    ≡ true
unfolding set_archived set_archived_body set_project_archived get_project in_tx
set_archived-authorize_example =
    set_archived-authorize sample_now 1 1 true
      (record sample_project { archived_at = some sample_now; updated_at = sample_now }) sample_db
      (set_archived sample_now 1 true sample_db).1 refl

abbrev sample_slugs : SlugEnv
sample_slugs = record { to_lower = λ s. s; is_word = λ c. leb 97 (code c) && leb (code c) 122 }

unique_slug_ends_example :
    is_free (unique_slug sample_slugs "board" sample_db.projects) sample_db.projects ≡ true
unique_slug_ends_example = unique_slug_ends sample_slugs "board" sample_db.projects

-- The name of the sample project is taken, so a number is put to it.
unique_slug_board : unique_slug sample_slugs "board" sample_db.projects ≡ some "board-2"
unfolding unique_slug slugify dashed only_digits free_slug numbered_slug decimal_from
unique_slug_board = refl

abbrev named_board : ProjectInput
named_board = record {
  name = some "board";
  description = none;
  length_days = none;
  start_weekday = none;
  velocity_window = none;
  estimate_bugs_and_chores = none;
  combine_icebox_backlog = none;
}

abbrev board_settings : Settings
board_settings = record (default_settings false) { name = "board" }

create_owned-is_created_example :
    let env : CreateEnv = record { engine = sample_engine; slugs = sample_slugs } in
    is_created 2 sample_db (create_owned env sample_now 2 named_board sample_db) ≡ true
unfolding apply trim_space
create_owned-is_created_example =
    create_owned-is_created (record { engine = sample_engine; slugs = sample_slugs }) sample_now 2
      named_board (sample_user 2 false) board_settings sample_db refl refl refl
