-- ===== src/User.antt =====
-- internal/user/user.go: accounts, and what their owners and administrators change on them.
pub mod Admins
pub mod Keeps
use Prim.Native.String.{len}
use mathlib.Core.Option
use trackstar.AppErr.{invalid_err, or_not_found}
use trackstar.Common.{Bool, Option, String, if◌then◌else◌, leb, ltb, none, not, some, ℕ, ◌&&◌}
use trackstar.Common.Text.{is_empty, squeeze}
use trackstar.Db.Accounts.{get_user}
use trackstar.Db.Accounts.Oauth.{delete_user_oauth_grants}
use trackstar.Db.Accounts.Users.{
  count_active_admins, delete_user_sessions, set_user_default_combine_icebox_backlog, update_user,
}
use trackstar.Db.Rows.{UserRow}
use trackstar.Db.Tx.{Result, Tx, err, in_tx, map_err, ok, pure, refuse_if, ◌>>=◌, ◌>>◌}

-- `User`: a row without its password hash.
pub record User : Type 0 where
  pub id : ℕ
  pub email : String
  pub display_name : String
  pub is_admin : Bool
  pub is_active : Bool
  pub created_at : ℕ
  pub default_combine_icebox_backlog : Bool

-- `FromRow`
abbrev pub user_of : UserRow → User
user_of r = record {
  id = r.id;
  email = r.email;
  display_name = r.display_name;
  is_admin = r.is_admin;
  is_active = r.is_active;
  created_at = r.created_at;
  default_combine_icebox_backlog = r.default_combine_icebox_backlog;
}

-- `AdminUpdate`
pub record AdminUpdate : Type 0 where
  pub display_name : Option String
  pub is_admin : Option Bool
  pub is_active : Option Bool

-- `cleanName`
unfoldable pub clean_name : String → Result String
clean_name name =
    let words = squeeze name in
    if is_empty words
    then err (invalid_err "display name is required")
    else if ltb 100 (len words)
    then err (invalid_err "display name is too long")
    else ok words

abbrev pub find_user : ℕ → Tx UserRow
find_user id = map_err (or_not_found "user") (get_user id)

unfoldable pub rename_body : ℕ → ℕ → String → Tx UserRow
rename_body now id name = do u ← find_user id; update_user id name u.is_admin u.is_active now

-- `Rename`
unfoldable pub rename : ℕ → ℕ → String → Tx User
unfolding clean_name rename_body
rename now id display_name = do
  name ← λ d. (clean_name display_name, d)
  row ← in_tx (rename_body now id name)
  pure (user_of row)

-- `SetDefaultCombineIceboxBacklog`
unfoldable pub set_default_combine_icebox_backlog : ℕ → ℕ → Bool → Tx User
set_default_combine_icebox_backlog now id on = do
  row ← map_err (or_not_found "user") (set_user_default_combine_icebox_backlog id on now)
  pure (user_of row)

abbrev pub updated_name : Option String → String → Result String
updated_name none name = ok name
updated_name (some given) name = clean_name given

-- The last active administrator can neither be demoted nor deactivated.
unfoldable pub check_last_admin : UserRow → Bool → Bool → Tx Unit
check_last_admin u is_admin is_active =
    if u.is_admin && u.is_active && not (is_admin && is_active)
    then (do
      n ← count_active_admins
      refuse_if (leb n 1) (invalid_err "this is the last active administrator"))
    else pure tt

-- A deactivated user is signed out everywhere, and connected apps go.
unfoldable pub sign_out_inactive : ℕ → Bool → Tx Unit
sign_out_inactive id is_active =
    if is_active then pure tt else (do delete_user_sessions id; delete_user_oauth_grants id)

unfoldable pub update_account_body : ℕ → ℕ → AdminUpdate → Tx UserRow
unfolding check_last_admin sign_out_inactive
update_account_body now id input = do
  u ← find_user id
  name ← λ d. (updated_name input.display_name u.display_name, d)
  check_last_admin u (Option.get_or input.is_admin u.is_admin)
      (Option.get_or input.is_active u.is_active)
  row ←
      update_user id name (Option.get_or input.is_admin u.is_admin)
        (Option.get_or input.is_active u.is_active) now
  sign_out_inactive id (Option.get_or input.is_active u.is_active)
  pure row

-- `Update`
unfoldable pub update_account : ℕ → ℕ → AdminUpdate → Tx User
unfolding update_account_body
update_account now id input = do row ← in_tx (update_account_body now id input); pure (user_of row)
