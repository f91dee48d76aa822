-- ===== src/Db/Accounts/Users.antt =====
-- internal/database/dbgen/users.sql.go: the statements on accounts and sessions.
use text.Mathlib.Text.{◌==◌ as str_eq}
use trackstar.AppErr.{constraint, no_rows}
use trackstar.Common.{
  Bool, String, any, false, first, if◌then◌else◌, leb, length, ltb, map, modify, none, not, select,
  some, true, ℕ, ◌&&◌, ◌==◌, ◌||◌, ◌∷◌,
}
use trackstar.Db.Accounts.{get_user}
use trackstar.Db.Rows.{SessionRow, UserRow}
use trackstar.Db.Stories.{Engine}
use trackstar.Db.Tx.{Tx, err, ok, or_fail, update, ◌>>◌}

abbrev pub has_user_id : ℕ → UserRow → Bool
has_user_id id u = u.id == id

abbrev pub has_email : String → UserRow → Bool
has_email email u = str_eq u.email email

unfoldable pub count_users : Tx ℕ
count_users d = (ok (length d.users), d)

abbrev pub is_active_admin : UserRow → Bool
is_active_admin u = u.is_admin && u.is_active

unfoldable pub count_active_admins : Tx ℕ
count_active_admins d = (ok (length (select is_active_admin d.users)), d)

unfoldable pub get_user_by_email : String → Tx UserRow
get_user_by_email email d = or_fail no_rows (first (has_email email) d.users) d

pub record NewUser : Type 0 where
  pub email : String
  pub password_hash : String
  pub display_name : String
  pub is_admin : Bool

abbrev pub new_user_row : NewUser → ℕ → ℕ → UserRow
new_user_row n id now = record {
  id = id;
  email = n.email;
  password_hash = n.password_hash;
  display_name = n.display_name;
  is_admin = n.is_admin;
  created_at = now;
  updated_at = now;
  is_active = true;
  default_combine_icebox_backlog = false;
}

-- The email of an account is unique.
unfoldable pub create_user : Engine → NewUser → ℕ → Tx UserRow
create_user engine n now d =
    let row = new_user_row n (engine.fresh_id (map (λ u. u.id) d.users)) now in
    if any (has_email n.email) d.users
    then (err constraint, d)
    else (ok row, record d { users = row ∷ d.users })

abbrev pub write_user : ℕ → (UserRow → UserRow) → Tx Unit
write_user id f = update λ d. record d { users = modify (has_user_id id) f d.users }

abbrev pub updated_user : String → Bool → Bool → ℕ → UserRow → UserRow
updated_user name is_admin is_active now u = record u {
  display_name = name;
  is_admin = is_admin;
  is_active = is_active;
  updated_at = now;
}

unfoldable pub update_user : ℕ → String → Bool → Bool → ℕ → Tx UserRow
update_user id name is_admin is_active now = do
  write_user id (updated_user name is_admin is_active now)
  get_user id

unfoldable pub update_user_password : ℕ → String → ℕ → Tx Unit
update_user_password id hash now =
    write_user id λ u. record u { password_hash = hash; updated_at = now }

unfoldable pub set_user_default_combine_icebox_backlog : ℕ → Bool → ℕ → Tx UserRow
set_user_default_combine_icebox_backlog id on now = do
  write_user id (λ u. record u { default_combine_icebox_backlog = on; updated_at = now })
  get_user id

-- A hash is unique, and a session is of a user there is.
unfoldable pub create_session : SessionRow → Tx Unit
create_session s d =
    if any (λ t. str_eq t.token_hash s.token_hash) d.sessions
      || not (any (has_user_id s.user_id) d.users)
    then (err constraint, d)
    else (ok tt, record d { sessions = s ∷ d.sessions })

unfoldable pub delete_session : String → Tx Unit
delete_session hash =
    update λ d. record d { sessions = select (λ s. not (str_eq s.token_hash hash)) d.sessions }

unfoldable pub delete_user_sessions : ℕ → Tx Unit
delete_user_sessions id =
    update λ d. record d { sessions = select (λ s. not (s.user_id == id)) d.sessions }

unfoldable pub delete_expired_sessions : ℕ → Tx Unit
delete_expired_sessions now =
    update λ d. record d { sessions = select (λ s. not (leb s.expires_at now)) d.sessions }

abbrev pub live_session : String → ℕ → SessionRow → Bool
live_session hash now s = str_eq s.token_hash hash && ltb now s.expires_at

-- Of the user of a live session, where the account is active; hashes and ids are unique.
unfoldable pub get_session_user : String → ℕ → Tx UserRow
get_session_user hash now d = elim (first (live_session hash now) d.sessions) [
  | none ↦ (err no_rows, d)
  | some s ↦ or_fail no_rows (first (λ u. has_user_id s.user_id u && u.is_active) d.users) d
]
