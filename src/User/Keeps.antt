-- ===== src/User/Keeps.antt =====
-- What the operations of internal/user/user.go keep of the accounts.
use mathlib.Core.Option
use trackstar.AppErr.{or_not_found}
use trackstar.Common.{
  Bool, Bool-cases, List, Option-cases, String, [], any, arith, false, first, inl, inr, leb, length,
  modify, not, refl, select, some, true, ℕ, ◌&&◌, ◌||◌, ◌∷◌, ◌≡◌, ◌⊎◌,
}
use trackstar.Db.Accounts.{get_user}
use trackstar.Db.Accounts.Oauth.{delete_user_oauth_grants}
use trackstar.Db.Accounts.Users.{
  count_active_admins, delete_user_sessions, has_user_id, is_active_admin, update_user,
  updated_user, write_user,
}
use trackstar.Db.Rows.{Db, UserRow}
use trackstar.Db.Tx.{Result, err, ok}
use trackstar.Db.Tx.Hoare.{
  Hoare, Hoare-bind, Hoare-if, Hoare-map_err, Hoare-post, Hoare-pure, Hoare-weaken,
}
use trackstar.Db.Tx.Keeps.{Keeps, Keeps-bind, Keeps-in_tx, Keeps-lift, Keeps-pure}
use trackstar.User.{
  AdminUpdate, check_last_admin, clean_name, rename, rename_body, sign_out_inactive, update_account,
  update_account_body, updated_name, user_of,
}
use trackstar.User.Admins.{
  IsManaged, admin_elsewhere, another-stays, another_admin, made-admin, modify-apart, no_users,
  two_admins,
}

pub found_user :
    (P : Db → Type 0) (id : ℕ)
    → Hoare P (get_user id) (λ u d. P d × (first (has_user_id id) d.users ≡ some u))
unfolding get_user
found_user P id = record {
  at = λ d h. elim (Option-cases (first (has_user_id id) d.users)) [
    | inl missing ↦ rw missing tt
    | inr found ↦ rw found.1 (h, found.1)
  ];
}

-- Where the user that is written stays an administrator, or there is another.
abbrev Backed : ℕ → UserRow → Bool → Bool → Db → Type 0
Backed id u is_admin is_active d =
    IsManaged d
    × (first (has_user_id id) d.users ≡ some u)
    × (((is_admin && is_active) ≡ true) ⊎ (any (another_admin id) d.users ≡ true))

-- A user that was found.
abbrev Found : ℕ → UserRow → Db → Type 0
Found id u d = IsManaged d × (first (has_user_id id) d.users ≡ some u)

managed-any :
    (id : ℕ) (u : UserRow) (us : List UserRow)
    → first (has_user_id id) us ≡ some u
    → (no_users us || any is_active_admin us) ≡ true
    → any is_active_admin us ≡ true
managed-any id u [] found h = absurd (ground (arith, found))
managed-any id u (x ∷ xs) found h = ground (arith, h)

stays_backed :
    (id : ℕ) (u : UserRow) (is_admin is_active : Bool) (d : Db)
    → (u.is_admin && u.is_active && not (is_admin && is_active)) ≡ false
    → Found id u d
    → ((is_admin && is_active) ≡ true) ⊎ (any (another_admin id) d.users ≡ true)
stays_backed id u is_admin is_active d stays h = elim (Bool-cases (is_admin && is_active)) [
  | inl e ↦ inl e
  | inr e ↦ inr (
      admin_elsewhere id u d.users h.0.0 h.1 (ground (arith, stays, e))
        (managed-any id u d.users h.1 h.0.1))
]

check_last_admin-Backed :
    (id : ℕ) (u : UserRow) (is_admin is_active : Bool)
    → Hoare
        (Found id u)
        (check_last_admin u is_admin is_active)
        (λ _ d. Backed id u is_admin is_active d)
unfolding check_last_admin count_active_admins
check_last_admin-Backed id u is_admin is_active =
    Hoare-if (u.is_admin && u.is_active && not (is_admin && is_active))
      (λ leaves. record {
        at = λ d h. elim (Bool-cases (leb (length (select is_active_admin d.users)) 1)) [
          | inl few ↦ rw few tt
          | inr many ↦ rw many (h.0, h.1, inr (two_admins id d.users h.0.0 (ground (arith, many))))
        ];
      })
      (λ stays. Hoare-pure tt (λ d h. (h.0, h.1, stays_backed id u is_admin is_active d stays h)))

any-managed : (a b : Bool) → a ≡ true → (b || a) ≡ true
any-managed a b e = ground (arith, e)

written-IsManaged :
    (id : ℕ) (u : UserRow) (name : String) (is_admin is_active : Bool) (now : ℕ) (d : Db)
    → Backed id u is_admin is_active d
    → IsManaged (write_user id (updated_user name is_admin is_active now) d).1
written-IsManaged id u name is_admin is_active now d h =
    let f = updated_user name is_admin is_active now in
    let us = modify (has_user_id id) f d.users in
    let left : any is_active_admin us ≡ true = elim h.2 [
      | inl e ↦ made-admin id f u d.users h.1 (λ x. e)
      | inr other ↦ another-stays id f d.users other
    ] in
    (
      modify-apart (has_user_id id) f (λ x. (refl, refl)) d.users h.0.0,
      any-managed (any is_active_admin us) (no_users us) left,
    )

write_user-IsManaged :
    (id : ℕ) (u : UserRow) (name : String) (is_admin is_active : Bool) (now : ℕ)
    → Hoare {A = Unit}
        (Backed id u is_admin is_active)
        (write_user id (updated_user name is_admin is_active now))
        (λ _ d. IsManaged d)
write_user-IsManaged id u name is_admin is_active now = record {
  at = λ d h. written-IsManaged id u name is_admin is_active now d h;
}

update_user-IsManaged :
    (id : ℕ) (u : UserRow) (name : String) (is_admin is_active : Bool) (now : ℕ)
    → Hoare
        (Backed id u is_admin is_active)
        (update_user id name is_admin is_active now)
        (λ _ d. IsManaged d)
unfolding update_user
update_user-IsManaged id u name is_admin is_active now =
    Hoare-bind {A = Unit} (λ _ d. IsManaged d)
      (write_user-IsManaged id u name is_admin is_active now)
      λ _.
        Hoare-post (λ r d. IsManaged d × (first (has_user_id id) d.users ≡ some r)) (λ r d h. h.0)
          (found_user IsManaged id)

sign_out_inactive-IsManaged :
    (id : ℕ) (is_active : Bool)
    → Hoare IsManaged (sign_out_inactive id is_active) (λ _ d. IsManaged d)
unfolding sign_out_inactive delete_user_sessions delete_user_oauth_grants
sign_out_inactive-IsManaged id true = record { at = λ d h. h }
sign_out_inactive-IsManaged id false = record { at = λ d h. h }

pub lift_keeps :
    {A : Type 0} (P : Db → Type 0) (r : Result A) → Hoare {A = A} P (λ d. (r, d)) (λ _ d. P d)
lift_keeps P (ok a) = record { at = λ d h. h }
lift_keeps P (err e) = record { at = λ d h. tt }

update_account_body-IsManaged :
    (now id : ℕ) (input : AdminUpdate)
    → Hoare IsManaged (update_account_body now id input) (λ _ d. IsManaged d)
unfolding update_account_body
update_account_body-IsManaged now id input =
    Hoare-bind (λ u d. Found id u d) (Hoare-map_err (or_not_found "user") (found_user IsManaged id))
      λ u.
        Hoare-bind (λ name d. Found id u d)
          (lift_keeps (Found id u) (updated_name input.display_name u.display_name))
          λ name.
            let admin = Option.get_or input.is_admin u.is_admin in
            let active = Option.get_or input.is_active u.is_active in
            Hoare-bind {A = Unit} (λ _ d. Backed id u admin active d)
              (check_last_admin-Backed id u admin active)
              λ _.
                Hoare-bind (λ row d. IsManaged d) (update_user-IsManaged id u name admin active now)
                  λ row.
                    Hoare-bind {A = Unit} (λ _ d. IsManaged d)
                      (sign_out_inactive-IsManaged id active) (λ _. Hoare-pure row (λ d h. h))

-- Once an installation has accounts it has an active administrator, and it still has one after
-- `Update`, whether the update succeeds or is refused; ids and emails stay unique.
pub update_account-IsManaged :
    (now id : ℕ) (input : AdminUpdate) (d : Db)
    → IsManaged d
    → IsManaged (update_account now id input d).1
unfolding update_account
update_account-IsManaged now id input =
    (Keeps-bind (Keeps-in_tx (update_account_body-IsManaged now id input))
      (λ row. Keeps-pure (user_of row))).at

flags_same : (a b : Bool) → (a && b && not (a && b)) ≡ false
flags_same a b = ground arith

rename_body-IsManaged :
    (now id : ℕ) (name : String) → Hoare IsManaged (rename_body now id name) (λ _ d. IsManaged d)
unfolding rename_body
rename_body-IsManaged now id name =
    Hoare-bind (λ u d. Found id u d) (Hoare-map_err (or_not_found "user") (found_user IsManaged id))
      λ u.
        Hoare-weaken
          (λ d h. (
            h.0,
            h.1,
            stays_backed id u u.is_admin u.is_active d (flags_same u.is_admin u.is_active) h,
          ))
          (update_user-IsManaged id u name u.is_admin u.is_active now)

pub rename-IsManaged : (now id : ℕ) (name : String) → Keeps IsManaged (rename now id name)
unfolding rename
rename-IsManaged now id name = Keeps-bind (Keeps-lift (clean_name name)) λ words.
    Keeps-bind (Keeps-in_tx (rename_body-IsManaged now id words)) (λ row. Keeps-pure (user_of row))
