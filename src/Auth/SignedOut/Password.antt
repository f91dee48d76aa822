-- ===== src/Auth/SignedOut/Password.antt =====
-- Sessions and connected apps after setPassword of internal/auth/auth.go.
use trackstar.Auth.Accounts.{
  AuthEnv, authenticate, bad_password, normalize_email, set_password, set_password_body,
  set_password_of,
}
use trackstar.Auth.Oauth.{authenticate_access_token}
use trackstar.Auth.SignedOut.{
  SignedOut, SignedOut-authenticate, SignedOut-authenticate_access_token, answers_other,
  others_kept,
}
use trackstar.Common.{
  String, arith, false, first, modify, not, select, some, subst, sym, true, ℕ, ◌==◌, ◌≡◌,
}
use trackstar.Db.Accounts.Oauth.{delete_user_oauth_grants, without_grants}
use trackstar.Db.Accounts.Users.{
  delete_user_sessions, get_user_by_email, has_email, has_user_id, update_user_password,
}
use trackstar.Db.Rows.{Db, UserRow}
use trackstar.Db.Tx.{Result, in_tx, ok}

set_password-runs :
    (env : AuthEnv) (salt : String) (now : ℕ) (email password hash : String) (u : UserRow) (d : Db)
    → first (has_email (normalize_email env email)) d.users ≡ some u
    → bad_password password ≡ false
    → env.generate_hash salt password ≡ ok hash
    → set_password env salt now email password d ≡ (
      ok tt,
      without_grants
          (λ g. g.user_id == u.id)
          (record d {
            users =
                modify
                  (has_user_id u.id)
                  (λ x. record x { password_hash = hash; updated_at = now })
                  d.users;
            sessions = select (λ s. not (s.user_id == u.id)) d.sessions;
          }),
    )
unfolding set_password set_password_of set_password_body get_user_by_email update_user_password
    delete_user_sessions delete_user_oauth_grants in_tx
set_password-runs env salt now email password hash u d found good hashed =
    ground (arith, found, good, hashed)

-- A new password ends what the old one opened. `SetPassword`, for an account that there is and a
-- password of an allowed length that bcrypt hashes, succeeds, and afterwards no session token and no
-- OAuth access token, at any time, stands for the user.
pub set_password-answers_other :
    (env : AuthEnv) (salt : String) (now later : ℕ) (email password hash token : String)
    (u : UserRow) (d : Db)
    → first (has_email (normalize_email env email)) d.users ≡ some u
    → bad_password password ≡ false
    → env.generate_hash salt password ≡ ok hash
    → let (result, after) = set_password env salt now email password d in
      (result ≡ ok tt)
      × (answers_other u.id (authenticate env later token after).0 ≡ true)
      × (answers_other u.id (authenticate_access_token env later token after).0 ≡ true)
set_password-answers_other env salt now later email password hash token u d found good hashed =
    let runs = set_password-runs env salt now email password hash u d found good hashed in
    let out : SignedOut u.id (set_password env salt now email password d).1 =
      subst (λ (r : Result Unit × Db). SignedOut u.id r.1) (sym runs)
        (
          others_kept (λ s. s.user_id) u.id d.sessions,
          others_kept (λ g. g.user_id) u.id d.oauth_grants,
        ) in
    (
      (λ i. (runs i).0),
      SignedOut-authenticate env later u.id token _ out,
      SignedOut-authenticate_access_token env later u.id token _ out,
    )
