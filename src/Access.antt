-- ===== src/Access.antt =====
-- internal/api/access.go: what a request may do in a project.
pub mod Archived
use trackstar.AppErr.{forbidden_err, not_found_err}
use trackstar.Common.{Bool, false, if◌then◌else◌, not, true, ℕ, ◌&&◌}
use trackstar.Db.Tx.{Result, Tx, err, ok, ◌>>=◌, ◌>>◌}
use trackstar.Project.Members.{Access, access_for}

-- `level`
pub data Level : Type 0 where
  read_access write_access manage_access : Level

abbrev pub is_write : Level → Bool
is_write write_access = true
is_write l = false

abbrev pub is_manage : Level → Bool
is_manage manage_access = true
is_manage l = false

-- The cases of `authorize`, of which the first that holds counts.
abbrev pub judged : Level → Access → Result Unit
judged need a =
    if not a.read
    then err (not_found_err "project")
    else if is_manage need && not a.manage
    then err (forbidden_err "only a project owner or an administrator can do this")
    else if is_write need && a.archived
    then err (forbidden_err "this project is archived; unarchive it to make changes")
    else if is_write need && not a.write
    then err (forbidden_err "you have read-only access to this project")
    else ok tt

-- `authorize`, for the user of the request
unfoldable pub authorize : ℕ → ℕ → Bool → Level → Tx Unit
authorize project user is_admin need = do
  a ← access_for project user is_admin
  λ d. (judged need a, d)
