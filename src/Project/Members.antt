-- ===== src/Project/Members.antt =====
-- internal/project/members.go: the members of a project and what they may do in it.
use trackstar.AppErr.{Failure, invalid_err, is_not_found, or_not_found}
use trackstar.Common.{Bool, List, [], false, if◌then◌else◌, is_some, not, true, ℕ, ◌==◌, ◌∷◌}
use trackstar.Db.Accounts.{get_project, get_user}
use trackstar.Db.Planning.{
  count_project_members, delete_project_member, get_project_member, list_project_members,
  upsert_project_member,
}
use trackstar.Db.Rows.{Db, MemberRow, Role}
use trackstar.Db.Tx.{Result, Tx, err, in_tx, map_err, ok, pure, refuse_if, ◌>>=◌, ◌>>◌}

abbrev pub role_eq_owner : Role → Bool
role_eq_owner Role.owner = true
role_eq_owner r = false

-- `Role.Valid`
abbrev pub role_valid : Role → Bool
role_valid Role.unknown = false
role_valid r = true

pub record Access : Type 0 where
  pub read : Bool
  pub write : Bool
  pub manage : Bool
  pub archived : Bool

abbrev pub no_access : Access
no_access = record { read = false; write = false; manage = false; archived = false }

-- A role that was looked up; a missing row is no access.
abbrev pub role_access : Result Role × Db → Result Access × Db
role_access (ok role, d) =
    (ok (record { read = true; write = true; manage = role_eq_owner role; archived = false }), d)
role_access (err e, d) = if is_not_found e then (ok no_access, d) else (err e, d)

unfoldable pub membership_access : ℕ → ℕ → Bool → Tx Access
membership_access project user is_admin =
    if is_admin
    then pure (record { read = true; write = true; manage = true; archived = false })
    else do
      n ← count_project_members project
      if n == 0
          then pure (record { read = true; write = true; manage = false; archived = false })
          else λ d. role_access (get_project_member project user d)

-- `AccessFor`
unfoldable pub access_for : ℕ → ℕ → Bool → Tx Access
unfolding membership_access
access_for project user is_admin = do
  p ← map_err (or_not_found "project") (get_project project)
  a ← membership_access project user is_admin
  pure (if is_some p.archived_at then record a { write = false; archived = true } else a)

-- The loop of `ensureAnotherOwner`, which ends with the test of `isOwner`.
unfoldable pub owner_stays : ℕ → List MemberRow → Bool → Bool
owner_stays user [] is_owner = not is_owner
owner_stays user (m ∷ ms) is_owner =
    if m.user_id == user
    then owner_stays user ms (role_eq_owner m.role)
    else if role_eq_owner m.role
    then true
    else owner_stays user ms is_owner

abbrev pub last_owner : Failure
last_owner = invalid_err "a project must keep at least one owner"

unfoldable pub ensure_another_owner : ℕ → ℕ → Tx Unit
unfolding owner_stays
ensure_another_owner project user = do
  members ← list_project_members project
  refuse_if (not (owner_stays user members false)) last_owner

unfoldable pub set_member_body : ℕ → ℕ → Role → Tx Unit
unfolding ensure_another_owner
set_member_body project user role = do
  p ← map_err (or_not_found "project") (get_project project)
  u ← map_err (or_not_found "user") (get_user user)
  refuse_if (not u.is_active) (invalid_err "this user is deactivated")
  if role_eq_owner role then pure tt else ensure_another_owner project user
  upsert_project_member project user role

-- `SetMember`
unfoldable pub set_member : ℕ → ℕ → Role → Tx Unit
unfolding set_member_body
set_member project user role = do
  refuse_if (not (role_valid role)) (invalid_err "role must be owner or member")
  in_tx (set_member_body project user role)

unfoldable pub remove_member_body : ℕ → ℕ → Tx Unit
unfolding ensure_another_owner
remove_member_body project user = do
  ensure_another_owner project user
  delete_project_member project user

-- `RemoveMember`
unfoldable pub remove_member : ℕ → ℕ → Tx Unit
unfolding remove_member_body
remove_member project user = in_tx (remove_member_body project user)
