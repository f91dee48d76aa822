-- ===== src/Auth/Managed/Kept.antt =====
-- What the operations of internal/auth/auth.go and internal/user/user.go keep of the accounts.
use text.Mathlib.Text.{◌==◌ as str_eq}
use trackstar.AppErr.{forbidden_err, invalid_err, no_rows, or_not_found}
use trackstar.Auth.Accounts.{
  AuthEnv, bad_password, change_password, checked_user, login, logout, normalize_email,
  password_err, session_row, set_password, set_password_body, set_password_by_id, set_password_of,
  start_session,
}
use trackstar.Common.{
  Bool, Bool-cases, List, String, [], any, arith, first, inl, inr, modify, not, refl, ℕ, ◌==◌, ◌||◌,
  ◌∷◌, ◌≡◌,
}
use trackstar.Common.Text.{is_empty}
use trackstar.Db.Accounts.{get_user}
use trackstar.Db.Accounts.Oauth.{delete_user_oauth_grants}
use trackstar.Db.Accounts.Users.{
  create_session, delete_expired_sessions, delete_session, delete_user_sessions, get_user_by_email,
  has_email, has_user_id, is_active_admin, set_user_default_combine_icebox_backlog,
  update_user_password, write_user,
}
use trackstar.Db.Rows.{SessionRow, UserRow}
use trackstar.Db.Tx.{Result, Tx}
use trackstar.Db.Tx.Keeps.{
  Keeps, Keeps-bind, Keeps-found, Keeps-if, Keeps-lift, Keeps-map_err, Keeps-pure, Keeps-refuse,
  Keeps-tx, Keeps-unless_missing,
}
use trackstar.User.{set_default_combine_icebox_backlog, user_of}
use trackstar.User.Admins.{IsManaged, modify-apart, no_users}

-- Writing what administrators do not depend on.
module _ (id : ℕ) (f : UserRow → UserRow)
    (same : (u : UserRow)
      → ((f u).id ≡ u.id)
        × ((f u).email ≡ u.email)
        × (is_active_admin (f u) ≡ is_active_admin u)) where
  same_admins :
      (us : List UserRow)
      → any is_active_admin (modify (has_user_id id) f us) ≡ any is_active_admin us
  same_admins [] = refl
  same_admins (u ∷ us) = ground (arith, (same u).2, same_admins us)

  same_none : (us : List UserRow) → no_users (modify (has_user_id id) f us) ≡ no_users us
  same_none [] = refl
  same_none (u ∷ us) = ground arith

  pub write_user-same : Keeps {A = Unit} IsManaged (write_user id f)
  write_user-same = record {
    at = λ d h. (
      modify-apart (has_user_id id) f (λ u. ((same u).0, (same u).1)) d.users h.0,
      ground (arith, same_admins d.users, same_none d.users, h.1),
    );
  }

delete_user_sessions-IsManaged : (id : ℕ) → Keeps IsManaged (delete_user_sessions id)
unfolding delete_user_sessions
delete_user_sessions-IsManaged id = record { at = λ d h. h }

delete_user_oauth_grants-IsManaged : (id : ℕ) → Keeps IsManaged (delete_user_oauth_grants id)
unfolding delete_user_oauth_grants
delete_user_oauth_grants-IsManaged id = record { at = λ d h. h }

delete_expired_sessions-IsManaged : (now : ℕ) → Keeps IsManaged (delete_expired_sessions now)
unfolding delete_expired_sessions
delete_expired_sessions-IsManaged now = record { at = λ d h. h }

create_session-IsManaged : (s : SessionRow) → Keeps IsManaged (create_session s)
unfolding create_session
create_session-IsManaged s = record {
  at = λ d h.
      elim (Bool-cases (
        any (λ t. str_eq t.token_hash s.token_hash) d.sessions
        || not (any (has_user_id s.user_id) d.users))) [ inl e ↦ rw e h | inr e ↦ rw e h ];
}

update_user_password-IsManaged :
    (id : ℕ) (hash : String) (now : ℕ) → Keeps IsManaged (update_user_password id hash now)
unfolding update_user_password
update_user_password-IsManaged id hash now =
    write_user-same id (λ u. record u { password_hash = hash; updated_at = now })
      (λ u. (refl, refl, refl))

pub get_user-IsManaged : (id : ℕ) → Keeps IsManaged (get_user id)
unfolding get_user
get_user-IsManaged id = Keeps-found no_rows (λ d. first (λ u. u.id == id) d.users)

get_user_by_email-IsManaged : (email : String) → Keeps IsManaged (get_user_by_email email)
unfolding get_user_by_email
get_user_by_email-IsManaged email = Keeps-found no_rows (λ d. first (has_email email) d.users)

set_password_of-IsManaged :
    (env : AuthEnv) (salt : String) (now : ℕ) (password : String) (find : Tx UserRow)
    → Keeps IsManaged find
    → Keeps IsManaged (set_password_of env salt now password find)
unfolding set_password_of set_password_body
set_password_of-IsManaged env salt now password find h =
    Keeps-refuse (bad_password password) password_err λ _.
      Keeps-bind (Keeps-lift (env.generate_hash salt password)) λ hash. Keeps-tx (
        Keeps-bind (Keeps-map_err (or_not_found "user") h) λ row.
          Keeps-bind (update_user_password-IsManaged row.id hash now) λ _.
            Keeps-bind (delete_user_sessions-IsManaged row.id)
              (λ _. delete_user_oauth_grants-IsManaged row.id))

pub set_password-IsManaged :
    (env : AuthEnv) (salt : String) (now : ℕ) (email password : String)
    → Keeps IsManaged (set_password env salt now email password)
unfolding set_password
set_password-IsManaged env salt now email password =
    set_password_of-IsManaged env salt now password _
      (get_user_by_email-IsManaged (normalize_email env email))

pub set_password_by_id-IsManaged :
    (env : AuthEnv) (salt : String) (now id : ℕ) (password : String)
    → Keeps IsManaged (set_password_by_id env salt now id password)
unfolding set_password_by_id
set_password_by_id-IsManaged env salt now id password =
    set_password_of-IsManaged env salt now password _ (get_user-IsManaged id)

pub change_password-IsManaged :
    (env : AuthEnv) (salt : String) (now user : ℕ) (current new keep_token : String)
    → Keeps IsManaged (change_password env salt now user current new keep_token)
unfolding change_password
change_password-IsManaged env salt now user current new keep_token =
    Keeps-bind (get_user-IsManaged user) λ row.
      Keeps-refuse (not (env.matches row.password_hash current))
        (invalid_err "current password is incorrect")
        λ _. Keeps-bind (set_password-IsManaged env salt now row.email new) λ _.
          Keeps-if (is_empty keep_token) (λ e. Keeps-pure tt)
            (λ e. create_session-IsManaged (session_row env now user keep_token))

start_session-IsManaged :
    (env : AuthEnv) (random : Result String) (now user : ℕ)
    → Keeps IsManaged (start_session env random now user)
unfolding start_session
start_session-IsManaged env random now user = Keeps-bind (Keeps-lift random) λ token.
    Keeps-bind (delete_expired_sessions-IsManaged now) λ _.
      Keeps-bind (create_session-IsManaged (session_row env now user token)) (λ _. Keeps-pure token)

pub login-IsManaged :
    (env : AuthEnv) (random : Result String) (now : ℕ) (email password : String)
    → Keeps IsManaged (login env random now email password)
unfolding login
login-IsManaged env random now email password =
    Keeps-bind (Keeps-unless_missing (get_user_by_email-IsManaged (normalize_email env email)))
      λ found. Keeps-bind (Keeps-lift (checked_user env password found)) λ row.
        Keeps-refuse (not row.is_active) (forbidden_err "this account has been deactivated") λ _.
          Keeps-bind (start_session-IsManaged env random now row.id)
            (λ token. Keeps-pure (token, user_of row))

pub set_default_combine_icebox_backlog-IsManaged :
    (now id : ℕ) (on : Bool) → Keeps IsManaged (set_default_combine_icebox_backlog now id on)
unfolding set_default_combine_icebox_backlog set_user_default_combine_icebox_backlog
set_default_combine_icebox_backlog-IsManaged now id on =
    let f = λ (u : UserRow). record u { default_combine_icebox_backlog = on; updated_at = now } in
    Keeps-bind
      (Keeps-map_err (or_not_found "user")
        (Keeps-bind (write_user-same id f (λ u. (refl, refl, refl))) (λ _. get_user-IsManaged id)))
      (λ row. Keeps-pure (user_of row))

pub logout-IsManaged : (env : AuthEnv) (token : String) → Keeps IsManaged (logout env token)
unfolding logout delete_session
logout-IsManaged env token =
    Keeps-if (is_empty token) (λ e. Keeps-pure tt) (λ e. record { at = λ d h. h })
