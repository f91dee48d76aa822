-- ===== src/Auth/Oauth.antt =====
-- internal/auth/oauth.go: the OAuth 2.1 authorization server. An error is an `OAuthError`, of which
-- the code is kept.
pub mod Redirects
pub mod Reuse
pub mod Codes
pub mod Rotation
use Prim.Native.String.{String, len, ◌++◌ as append_text}
use text.Mathlib.Text.{◌==◌ as str_eq, starts_with}
use trackstar.AppErr.{Failure, is_not_found, not_found_err, oauth, unauthorized_err}
use trackstar.Auth.Accounts.{AuthEnv}
use trackstar.Auth.Tokens.{is_stale}
use trackstar.Common.{
  Bool, List, Option, false, if◌then◌else◌, is_some, leb, ltb, none, not, some, true, ℕ, ◌&&◌, ◌+◌,
  ◌==◌, ◌||◌,
}
use trackstar.Common.Text.{is_empty}
use trackstar.Db.Accounts.{get_user}
use trackstar.Db.Accounts.Oauth.{
  NewOauthCode, create_oauth_code, create_oauth_grant, delete_empty_oauth_grants,
  delete_expired_oauth_codes, delete_oauth_grant, delete_oauth_grant_by_id, get_oauth_client,
  get_oauth_code, touch_oauth_client, use_oauth_code,
}
use trackstar.Db.Accounts.OauthTokens.{
  ListedGrant, create_oauth_token, delete_expired_oauth_tokens, get_oauth_access_token_user,
  get_oauth_grant_user, get_oauth_token, list_oauth_grants, touch_oauth_grant, use_oauth_token,
}
use trackstar.Db.Rows.{OauthClientRow, OauthCodeRow, OauthGrantRow, OauthTokenRow, TokenKind}
use trackstar.Db.Tx.{
  Result, Tx, in_tx, map_err, or_fail, pure, refuse_if, unless_missing, ◌>>=◌, ◌>>◌,
}
use trackstar.User.{User, user_of}

-- `AccessTokenPrefix`, `RefreshTokenPrefix`
abbrev pub access_token_prefix : String
access_token_prefix = "tsa_"

abbrev pub refresh_token_prefix : String
refresh_token_prefix = "tsr_"

-- `AccessTokenTTL`, `RefreshTokenTTL`, `codeTTL` and `idleClientTTL`, in seconds
abbrev pub access_token_ttl : ℕ
access_token_ttl = 3600

abbrev pub refresh_token_ttl : ℕ
refresh_token_ttl = 5184000

abbrev pub code_ttl : ℕ
code_ttl = 60

abbrev pub idle_client_ttl : ℕ
idle_client_ttl = 2592000

-- `errInvalidGrant`
abbrev pub invalid_grant_err : Failure
invalid_grant_err = oauth "invalid_grant"

-- `OAuthClient`
pub record OauthClient : Type 0 where
  pub client_id : String
  pub name : String
  pub redirect_uris : List String
  pub created_at : ℕ
  pub row_id : ℕ

-- `clientFromRow`
abbrev pub client_of : OauthClientRow → OauthClient
client_of r = record {
  client_id = r.client_id;
  name = r.name;
  redirect_uris = r.redirect_uris;
  created_at = r.created_at;
  row_id = r.id;
}

-- `OAuthTokens`; the token type is always "Bearer".
pub record OauthTokens : Type 0 where
  pub access_token : String
  pub expires_in : ℕ
  pub refresh_token : String

abbrev pub unknown_client : Failure → Failure
unknown_client e = if is_not_found e then oauth "invalid_client" else e

-- `client`
unfoldable pub find_client : String → Tx OauthClient
find_client client_id = do
  row ← map_err unknown_client (get_oauth_client client_id)
  pure (client_of row)

abbrev pub issued_code : AuthEnv → ℕ → ℕ → OauthClient → String → String → String → NewOauthCode
issued_code env now user c redirect_uri code_challenge code = record {
  code_hash = env.hash_token code;
  user_id = user;
  client_id = c.row_id;
  redirect_uri = redirect_uri;
  code_challenge = code_challenge;
  expires_at = now + code_ttl;
}

-- `IssueCode`
unfoldable pub issue_code :
    AuthEnv → Result String → ℕ → ℕ → OauthClient → String → String → Tx String
issue_code env random now user c redirect_uri code_challenge = do
  code ← λ d. (random, d)
  delete_expired_oauth_codes now
  create_oauth_code env.engine (issued_code env now user c redirect_uri code_challenge code)
  pure code

-- `pruneOAuth`
unfoldable pub prune_oauth : ℕ → Tx Unit
prune_oauth now = do
  delete_expired_oauth_codes now
  delete_expired_oauth_tokens now
  delete_empty_oauth_grants

-- `issueTokens`, with the texts of the random bytes of either token.
unfoldable pub issue_tokens : AuthEnv → Result String → Result String → ℕ → ℕ → Tx OauthTokens
issue_tokens env random random' grant now = do
  access ← λ d. (random, d)
  refresh ← λ d. (random', d)
  create_oauth_token env.engine grant TokenKind.access
      (env.hash_token (append_text access_token_prefix access)) (now + access_token_ttl)
  create_oauth_token env.engine grant TokenKind.refresh
      (env.hash_token (append_text refresh_token_prefix refresh)) (now + refresh_token_ttl)
  pure (record {
    access_token = append_text access_token_prefix access;
    expires_in = access_token_ttl;
    refresh_token = append_text refresh_token_prefix refresh;
  })

abbrev pub missing_grant : Failure → Failure
missing_grant e = if is_not_found e then invalid_grant_err else e

-- `verifyPKCE`; the digest is the base64 text of the SHA-256 of the verifier.
abbrev pub verify_pkce : (String → String) → String → String → Bool
verify_pkce digest challenge verifier =
    not (ltb (len verifier) 43 || ltb 128 (len verifier)) && str_eq (digest verifier) challenge

abbrev pub delete_grant_of : Option ℕ → Tx Unit
delete_grant_of none = pure tt
delete_grant_of (some grant) = delete_oauth_grant_by_id grant

-- What the code is exchanged for: the hash of its text, the redirect URI and the verifier given, and
-- the random texts of the tokens.
pub record Exchange : Type 0 where
  pub code : String
  pub redirect_uri : String
  pub verifier : String
  pub random : Result String
  pub random' : Result String

abbrev pub bad_redemption : (String → String) → ℕ → OauthClient → Exchange → OauthCodeRow → Bool
bad_redemption digest now c x row =
    (leb row.expires_at now || not (row.client_id == c.row_id))
    || (not (is_empty x.redirect_uri) && not (str_eq x.redirect_uri row.redirect_uri))
    || not (verify_pkce digest row.code_challenge x.verifier)

unfoldable pub redeem_code :
    AuthEnv → (String → String) → ℕ → OauthClient → Exchange → OauthCodeRow → Tx OauthTokens
unfolding prune_oauth issue_tokens
redeem_code env digest now c x row = do
  refuse_if (bad_redemption digest now c x row) invalid_grant_err
  u ← map_err (λ _. invalid_grant_err) (get_user row.user_id)
  refuse_if (not u.is_active) invalid_grant_err
  prune_oauth now
  grant ← create_oauth_grant env.engine row.user_id c.row_id now
  n ← use_oauth_code row.id now grant.id
  refuse_if (not (n == 1)) invalid_grant_err
  touch_oauth_client c.row_id now
  issue_tokens env x.random x.random' grant.id now

-- A redeemed code that comes again is a leak: the grant it produced is deleted, and no tokens are
-- the result, which is told apart here from a failure since the deletion is to be committed.
unfoldable pub exchange_body :
    AuthEnv → (String → String) → ℕ → OauthClient → Exchange → Tx (Option OauthTokens)
unfolding redeem_code
exchange_body env digest now c x = do
  row ← map_err missing_grant (get_oauth_code (env.hash_token x.code))
  if is_some row.used_at
      then (do delete_grant_of row.grant_id; pure none)
      else (do issued ← redeem_code env digest now c x row; pure (some issued))

abbrev pub unless_reused : Option OauthTokens → Tx OauthTokens
unless_reused issued = or_fail invalid_grant_err issued

-- `ExchangeCode`
unfoldable pub exchange_code : AuthEnv → (String → String) → ℕ → String → Exchange → Tx OauthTokens
unfolding find_client exchange_body
exchange_code env digest now client_id x = do
  c ← find_client client_id
  issued ← in_tx (exchange_body env digest now c x)
  unless_reused issued

abbrev pub is_refresh : TokenKind → Bool
is_refresh TokenKind.access = false
is_refresh TokenKind.refresh = true

unfoldable pub rotate :
    AuthEnv → Result String → Result String → ℕ → OauthClient → OauthTokenRow → Tx OauthTokens
unfolding prune_oauth issue_tokens
rotate env random random' now c row = do
  refuse_if (leb row.expires_at now) invalid_grant_err
  u ← map_err (λ _. invalid_grant_err) (get_oauth_grant_user row.grant_id)
  refuse_if (not u.is_active) invalid_grant_err
  n ← use_oauth_token row.id now
  refuse_if (not (n == 1)) invalid_grant_err
  touch_oauth_client c.row_id now
  issued ← issue_tokens env random random' row.grant_id now
  prune_oauth now
  pure issued

-- A refresh token that was rotated and comes again is a leak too.
unfoldable pub refresh_body :
    AuthEnv → Result String → Result String → ℕ → OauthClient → String → Tx (Option OauthTokens)
unfolding rotate
refresh_body env random random' now c refresh_token = do
  (row, grant) ← map_err missing_grant (get_oauth_token (env.hash_token refresh_token))
  refuse_if (not (is_refresh row.kind) || not (grant.client_id == c.row_id)) invalid_grant_err
  if is_some row.used_at
      then (do delete_oauth_grant_by_id row.grant_id; pure none)
      else (do issued ← rotate env random random' now c row; pure (some issued))

-- `Refresh`
unfoldable pub refresh_tokens :
    AuthEnv → Result String → Result String → ℕ → String → String → Tx OauthTokens
unfolding find_client refresh_body
refresh_tokens env random random' now client_id refresh_token = do
  c ← find_client client_id
  refuse_if (not (starts_with refresh_token refresh_token_prefix)) invalid_grant_err
  issued ← in_tx (refresh_body env random random' now c refresh_token)
  unless_reused issued

abbrev pub bad_access_token : Failure → Failure
bad_access_token e = if is_not_found e then unauthorized_err "invalid access token" else e

-- `AuthenticateAccessToken`
unfoldable pub authenticate_access_token : AuthEnv → ℕ → String → Tx User
authenticate_access_token env now secret = do
  refuse_if (not (starts_with secret access_token_prefix)) (unauthorized_err "invalid access token")
  (grant, u) ← map_err bad_access_token (get_oauth_access_token_user (env.hash_token secret) now)
  if is_stale now grant.last_used_at then touch_oauth_grant grant.id now else pure tt
  pure (user_of u)

-- `Grants`
unfoldable pub grants : ℕ → Tx (List ListedGrant)
grants user = list_oauth_grants user

-- `RevokeGrant`
unfoldable pub revoke_grant : ℕ → ℕ → Tx Unit
revoke_grant user id = do
  n ← delete_oauth_grant id user
  refuse_if (n == 0) (not_found_err "connected app")

abbrev pub delete_token_grant : Option (OauthTokenRow × OauthGrantRow) → Tx Unit
delete_token_grant none = pure tt
delete_token_grant (some (t, g)) = delete_oauth_grant_by_id t.grant_id

-- `RevokeOAuthToken`
unfoldable pub revoke_oauth_token : AuthEnv → String → Tx Unit
revoke_oauth_token env token = do
  found ← unless_missing (get_oauth_token (env.hash_token token))
  delete_token_grant found
