-- ===== src/Auth/Oauth/Rotation/Replay.antt =====
-- Refresh of internal/auth/oauth.go with one token twice.
use trackstar.Auth.Accounts.{AuthEnv}
use trackstar.Auth.Oauth.{OauthTokens}
use trackstar.Common.{String, first, some, ◌≡◌}
use trackstar.Db.Accounts.Oauth.{has_client_id}
use trackstar.Db.Rows.{Db, OauthClientRow}
use trackstar.Db.Tx.Hoare.{Hoare}

module _ (env : AuthEnv) (client_id refresh_token : String) (client : OauthClientRow) where
  abbrev Known : Db → Type 0
  Known d = first (has_client_id client_id) d.oauth_clients ≡ some client
