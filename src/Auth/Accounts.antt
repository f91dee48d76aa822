-- ===== src/Auth/Accounts.antt =====
-- internal/auth/auth.go: registration, passwords and sessions.
use Prim.Native.Char.{code}
use Prim.Native.String.{len}
use text.Mathlib.Text.{◌==◌ as str_eq}
use trackstar.AppErr.{
  Failure, conflict_err, forbidden_err, invalid_err, is_not_found, or_not_found, unauthorized_err,
}
use trackstar.Common.{
  Bool, Option, String, false, if◌then◌else◌, is_some, ltb, none, not, some, true, ℕ, ◌&&◌, ◌+◌,
  ◌==◌, ◌||◌,
}
use trackstar.Common.Text.{is_empty, trim_space}
use trackstar.Db.Accounts.{get_user}
use trackstar.Db.Accounts.Oauth.{delete_user_oauth_grants}
use trackstar.Db.Accounts.Users.{
  NewUser, count_users, create_session, create_user, delete_expired_sessions, delete_session,
  delete_user_sessions, get_session_user, get_user_by_email, update_user_password,
}
use trackstar.Db.Rows.{SessionRow, UserRow}
use trackstar.Db.Stories.{Engine}
use trackstar.Db.Tx.{
  Result, Tx, err, in_tx, map_err, ok, pure, refuse_if, unless_missing, ◌>>=◌, ◌>>◌,
}
use trackstar.User.{User, user_of}

-- The options of the service, and what it takes from Go's and other libraries: HMAC-SHA256 under the
-- service's secret, bcrypt (a hash from a salt and a password, and the comparison), `ParseAddress` of
-- net/mail and `ToLower` of strings.
pub record AuthEnv : Type 0 where
  pub engine : Engine
  pub allow_registration : Bool
  pub hash_token : String → String
  pub generate_hash : String → String → Result String
  pub matches : String → String → Bool
  pub parse_address : String → Option String
  pub to_lower : String → String

-- `SessionTTL`, 30 days in seconds
abbrev pub session_ttl : ℕ
session_ttl = 2592000

-- `normalizeEmail`
unfoldable pub normalize_email : AuthEnv → String → String
normalize_email env email = env.to_lower (trim_space email)

-- `email[:strings.IndexByte(email, '@')]`, for a text that has an @.
pub local_part : String → String
local_part String.[] = String.[]
local_part (String.◌∷◌ c s) =
    let rest = local_part s in if code c == 64 then String.[] else String.◌∷◌ c rest

abbrev pub is_address : AuthEnv → String → Bool
is_address env email = elim (env.parse_address email) [
  | none ↦ false
  | some address ↦ str_eq address email
]

abbrev pub bad_password : String → Bool
bad_password password = ltb (len password) 8 || ltb 72 (len password)

abbrev pub password_err : Failure
password_err = invalid_err "password must be %d to %d characters"

-- `RegistrationOpen`
unfoldable pub registration_open : AuthEnv → Tx Bool
registration_open env =
    if env.allow_registration then pure true else (do n ← count_users; pure (n == 0))

-- `RegisterInput`
pub record RegisterInput : Type 0 where
  pub email : String
  pub password : String
  pub display_name : String

abbrev pub new_user : String → String → String → Bool → NewUser
new_user email hash name is_admin = record {
  email = email;
  password_hash = hash;
  display_name = name;
  is_admin = is_admin;
}

unfoldable pub register_body : AuthEnv → ℕ → String → String → String → Tx UserRow
register_body env now email hash name = do
  n ← count_users
  refuse_if (ltb 0 n && not env.allow_registration) (forbidden_err "registration is disabled")
  taken ← unless_missing (get_user_by_email email)
  refuse_if (is_some taken) (conflict_err "an account with this email already exists")
  create_user env.engine (new_user email hash name (n == 0)) now

unfoldable pub chosen_name : String → String → String
unfolding local_part
chosen_name display_name email =
    let name = trim_space display_name in if is_empty name then local_part email else name

-- `Register`: the first account is an administrator.
unfoldable pub register : AuthEnv → String → ℕ → RegisterInput → Tx User
unfolding normalize_email chosen_name register_body
register env salt now input = do
  refuse_if (not (is_address env (normalize_email env input.email)))
      (invalid_err "a valid email address is required")
  refuse_if (ltb 100 (len (chosen_name input.display_name (normalize_email env input.email))))
      (invalid_err "display name is too long")
  refuse_if (bad_password input.password) password_err
  hash ← λ d. (env.generate_hash salt input.password, d)
  row ← in_tx (
      register_body env now (normalize_email env input.email) hash
        (chosen_name input.display_name (normalize_email env input.email)))
  pure (user_of row)

unfoldable pub set_password_body : ℕ → String → Tx UserRow → Tx Unit
set_password_body now hash find = do
  row ← map_err (or_not_found "user") find
  update_user_password row.id hash now
  delete_user_sessions row.id
  delete_user_oauth_grants row.id

-- `setPassword`: every session of the user ends, and every connected app goes.
unfoldable pub set_password_of : AuthEnv → String → ℕ → String → Tx UserRow → Tx Unit
unfolding set_password_body
set_password_of env salt now password find = do
  refuse_if (bad_password password) password_err
  hash ← λ d. (env.generate_hash salt password, d)
  in_tx (set_password_body now hash find)

-- `SetPassword`
unfoldable pub set_password : AuthEnv → String → ℕ → String → String → Tx Unit
unfolding set_password_of normalize_email
set_password env salt now email password =
    set_password_of env salt now password (get_user_by_email (normalize_email env email))

-- `SetPasswordByID`
unfoldable pub set_password_by_id : AuthEnv → String → ℕ → ℕ → String → Tx Unit
unfolding set_password_of
set_password_by_id env salt now id password = set_password_of env salt now password (get_user id)

abbrev pub session_row : AuthEnv → ℕ → ℕ → String → SessionRow
session_row env now user token = record {
  token_hash = env.hash_token token;
  user_id = user;
  created_at = now;
  expires_at = now + session_ttl;
}

-- `ChangePassword`: the caller's session is made anew under its old token.
unfoldable pub change_password : AuthEnv → String → ℕ → ℕ → String → String → String → Tx Unit
unfolding set_password
change_password env salt now user current new keep_token = do
  row ← get_user user
  refuse_if (not (env.matches row.password_hash current))
      (invalid_err "current password is incorrect")
  set_password env salt now row.email new
  if is_empty keep_token then pure tt else create_session (session_row env now user keep_token)

-- `StartSession`, with the text of the 32 random bytes.
unfoldable pub start_session : AuthEnv → Result String → ℕ → ℕ → Tx String
start_session env random now user = do
  token ← λ d. (random, d)
  delete_expired_sessions now
  create_session (session_row env now user token)
  pure token

-- The user whose password it is. Where there is none the source compares the password with the hash
-- of another one, so that both take the same time, and refuses it.
abbrev pub checked_user : AuthEnv → String → Option UserRow → Result UserRow
checked_user env password none = err (unauthorized_err "invalid email or password")
checked_user env password (some u) =
    if env.matches u.password_hash password
    then ok u
    else err (unauthorized_err "invalid email or password")

-- `Login`
unfoldable pub login : AuthEnv → Result String → ℕ → String → String → Tx (String × User)
unfolding normalize_email start_session
login env random now email password = do
  found ← unless_missing (get_user_by_email (normalize_email env email))
  row ← λ d. (checked_user env password found, d)
  refuse_if (not row.is_active) (forbidden_err "this account has been deactivated")
  token ← start_session env random now row.id
  pure (token, user_of row)

abbrev pub not_signed_in : Failure → Failure
not_signed_in e = if is_not_found e then unauthorized_err "not signed in" else e

-- `Authenticate`
unfoldable pub authenticate : AuthEnv → ℕ → String → Tx User
authenticate env now token = do
  refuse_if (is_empty token) (unauthorized_err "not signed in")
  row ← map_err not_signed_in (get_session_user (env.hash_token token) now)
  pure (user_of row)

-- `Logout`
unfoldable pub logout : AuthEnv → String → Tx Unit
logout env token = if is_empty token then pure tt else delete_session (env.hash_token token)
