-- ===== src/Auth/Managed/Reach.antt =====
-- Runs of an installation: calls of internal/auth/auth.go and internal/user/user.go that write
-- accounts or sessions, one after the other, each with its result and whatever it is.
use trackstar.Auth.Accounts.{
  AuthEnv, RegisterInput, change_password, login, logout, register, set_password,
  set_password_by_id,
}
use trackstar.Auth.Managed.{register-IsManaged}
use trackstar.Auth.Managed.Kept.{
  change_password-IsManaged, login-IsManaged, logout-IsManaged,
  set_default_combine_icebox_backlog-IsManaged, set_password-IsManaged,
  set_password_by_id-IsManaged,
}
use trackstar.Common.{Bool, List, String, [], any, refl, subst, sym, true, ℕ, ◌||◌, ◌≡◌}
use trackstar.Db.Accounts.Users.{is_active_admin}
use trackstar.Db.Order.{Ascending}
use trackstar.Db.Rows.{Db, UserRow}
use trackstar.Db.Tx.{Result}
use trackstar.User.{AdminUpdate, rename, set_default_combine_icebox_backlog, update_account}
use trackstar.User.Admins.{DifferentAccounts, IsManaged, no_users}
use trackstar.User.Keeps.{rename-IsManaged, update_account-IsManaged}

pub data AccountStep (env : AuthEnv) : Db → Db → Type 0 where
  registers :
      (salt : String) (now : ℕ) (input : RegisterInput) (d : Db)
      → AccountStep env d (register env salt now input d).1
  renames : (now id : ℕ) (name : String) (d : Db) → AccountStep env d (rename now id name d).1
  updates :
      (now id : ℕ) (input : AdminUpdate) (d : Db)
      → AccountStep env d (update_account now id input d).1
  prefers :
      (now id : ℕ) (on : Bool) (d : Db)
      → AccountStep env d (set_default_combine_icebox_backlog now id on d).1
  sets_password :
      (salt : String) (now : ℕ) (email password : String) (d : Db)
      → AccountStep env d (set_password env salt now email password d).1
  sets_password_by_id :
      (salt : String) (now id : ℕ) (password : String) (d : Db)
      → AccountStep env d (set_password_by_id env salt now id password d).1
  changes_password :
      (salt : String) (now user : ℕ) (current new keep : String) (d : Db)
      → AccountStep env d (change_password env salt now user current new keep d).1
  logs_in :
      (random : Result String) (now : ℕ) (email password : String) (d : Db)
      → AccountStep env d (login env random now email password d).1
  logs_out : (token : String) (d : Db) → AccountStep env d (logout env token d).1

-- Calls one after the other, from the first database to the last.
pub data AccountRun (env : AuthEnv) : Db → Db → Type 0 where
  idle : (d : Db) → AccountRun env d d
  and_then : (d e f : Db) → AccountRun env d e → AccountStep env e f → AccountRun env d f

AccountStep-IsManaged : (env : AuthEnv) (d e : Db) → AccountStep env d e → IsManaged d → IsManaged e
AccountStep-IsManaged env _ _ (registers salt now input d) h =
    (register-IsManaged env salt now input).at d h
AccountStep-IsManaged env _ _ (renames now id name d) h = (rename-IsManaged now id name).at d h
AccountStep-IsManaged env _ _ (updates now id input d) h = update_account-IsManaged now id input d h
AccountStep-IsManaged env _ _ (prefers now id on d) h =
    (set_default_combine_icebox_backlog-IsManaged now id on).at d h
AccountStep-IsManaged env _ _ (sets_password salt now email password d) h =
    (set_password-IsManaged env salt now email password).at d h
AccountStep-IsManaged env _ _ (sets_password_by_id salt now id password d) h =
    (set_password_by_id-IsManaged env salt now id password).at d h
AccountStep-IsManaged env _ _ (changes_password salt now user current new keep d) h =
    (change_password-IsManaged env salt now user current new keep).at d h
AccountStep-IsManaged env _ _ (logs_in random now email password d) h =
    (login-IsManaged env random now email password).at d h
AccountStep-IsManaged env _ _ (logs_out token d) h = (logout-IsManaged env token).at d h

-- An installation that began without accounts never ends up without an active administrator: after
-- any calls that register, change or sign in and out accounts, refused ones included, there is either
-- no account at all or an active administrator, and ids and emails are unique.
pub AccountRun-IsManaged :
    (env : AuthEnv) (d e : Db) → d.users ≡ [] → AccountRun env d e → IsManaged e
AccountRun-IsManaged env _ _ empty (idle d) =
    subst
      (λ (us : List UserRow).
        Ascending DifferentAccounts us × ((no_users us || any is_active_admin us) ≡ true))
      (sym empty) (tt, refl)
AccountRun-IsManaged env _ _ empty (and_then d e f run step) =
    AccountStep-IsManaged env e f step (AccountRun-IsManaged env d e empty run)
