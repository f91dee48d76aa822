-- ===== src/Auth/Tokens.antt =====
-- internal/auth/token.go: personal API tokens.
pub mod Lifetime
use Prim.Native.String.{String, len, ◌++◌ as append_text}
use text.Mathlib.Text.{starts_with}
use trackstar.AppErr.{Failure, invalid_err, is_not_found, not_found_err, unauthorized_err}
use trackstar.Auth.Accounts.{AuthEnv}
use trackstar.Common.{
  Bool, List, Option, if◌then◌else◌, leb, ltb, map, none, not, some, true, ℕ, ◌*◌, ◌+◌, ◌==◌, ◌||◌,
}
use trackstar.Common.Int.{ltb_ℤ, pos, pos_part, ℤ}
use trackstar.Common.Text.{is_empty, trim_space}
use trackstar.Db.Accounts.Tokens.{
  NewApiToken, create_api_token, delete_api_token, get_api_token_user, list_api_tokens,
  touch_api_token,
}
use trackstar.Db.Rows.{ApiTokenRow, UserRow}
use trackstar.Db.Tx.{Result, Tx, map_err, pure, refuse_if, ◌>>=◌, ◌>>◌}
use trackstar.User.{User, user_of}

-- `TokenPrefix`
abbrev pub token_prefix : String
token_prefix = "tst_"

-- `touchInterval`, 5 minutes in seconds
abbrev pub touch_interval : ℕ
touch_interval = 300

-- `CreateTokenInput`; the number of days is an int, of either sign until it is checked.
pub record CreateTokenInput : Type 0 where
  pub name : String
  pub expires_in_days : ℤ

-- `Token`
pub record Token : Type 0 where
  pub id : ℕ
  pub name : String
  pub created_at : ℕ
  pub last_used_at : Option ℕ
  pub expires_at : Option ℕ

-- `tokenFromRow`
abbrev pub token_of : ApiTokenRow → Token
token_of r = record {
  id = r.id;
  name = r.name;
  created_at = r.created_at;
  last_used_at = r.last_used_at;
  expires_at = r.expires_at;
}

-- `CreatedToken`
pub record CreatedToken : Type 0 where
  pub token : Token
  pub secret : String

-- A token for 0 days does not expire.
abbrev pub token_expiry : ℕ → ℕ → Option ℕ
token_expiry now days = if ltb 0 days then some (now + days * 86400) else none

abbrev pub new_token : AuthEnv → ℕ → ℕ → String → String → ℕ → NewApiToken
new_token env now user name secret days = record {
  user_id = user;
  name = name;
  token_hash = env.hash_token secret;
  created_at = now;
  expires_at = token_expiry now days;
}

-- `CreateToken`, with the text of the 32 random bytes.
unfoldable pub create_token : AuthEnv → Result String → ℕ → ℕ → CreateTokenInput → Tx CreatedToken
create_token env random now user input = do
  refuse_if (is_empty (trim_space input.name)) (invalid_err "a token name is required")
  refuse_if (ltb 100 (len (trim_space input.name))) (invalid_err "token name is too long")
  refuse_if (ltb_ℤ input.expires_in_days (pos 0) || ltb_ℤ (pos 3650) input.expires_in_days)
      (invalid_err "expires_in_days must be between 0 and 3650")
  raw ← λ d. (random, d)
  row ← create_api_token env.engine (
      new_token env now user (trim_space input.name) (append_text token_prefix raw)
        (pos_part input.expires_in_days))
  pure (record { token = token_of row; secret = append_text token_prefix raw })

-- `Tokens`
unfoldable pub tokens : ℕ → Tx (List Token)
tokens user = do rows ← list_api_tokens user; pure (map token_of rows)

-- `RevokeToken`
unfoldable pub revoke_token : ℕ → ℕ → Tx Unit
revoke_token user id = do n ← delete_api_token id user; refuse_if (n == 0) (not_found_err "token")

-- Whether the time of the last use is written again.
abbrev pub is_stale : ℕ → Option ℕ → Bool
is_stale now none = true
is_stale now (some at) = leb (at + touch_interval) now

abbrev pub bad_token : Failure → Failure
bad_token e = if is_not_found e then unauthorized_err "invalid API token" else e

-- `AuthenticateToken`
unfoldable pub authenticate_token : AuthEnv → ℕ → String → Tx User
authenticate_token env now secret = do
  refuse_if (not (starts_with secret token_prefix)) (unauthorized_err "invalid API token")
  found ← map_err bad_token (get_api_token_user (env.hash_token secret) now)
  touch_token now found
  where
    touch_token : ℕ → ApiTokenRow × UserRow → Tx User
    touch_token now (t, u) = do
      if is_stale now t.last_used_at then touch_api_token t.id now else pure tt
      pure (user_of u)
