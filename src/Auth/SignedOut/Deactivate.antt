-- ===== src/Auth/SignedOut/Deactivate.antt =====
-- What is left to an account that Update of internal/user/user.go has deactivated.
use mathlib.Core.Option
use text.Mathlib.Text.{starts_with}
-- The user, where there is one, is not active.
use trackstar.Auth.Accounts.{AuthEnv}
use trackstar.Auth.SignedOut.{SignedOut, answers_other, others_kept}
use trackstar.Auth.Tokens.{authenticate_token, token_prefix}
use trackstar.Common.{
  All-first, Bool, Bool-cases, List, Option-cases, String, [], any, any-All, arith, false, first,
  first_passes, inl, inr, modify, refl, some, subst, true, ℕ, ◌&&◌, ◌==◌, ◌∷◌, ◌≡◌,
}
use trackstar.Db.Accounts.{get_user}
use trackstar.Db.Accounts.Oauth.{delete_user_oauth_grants}
use trackstar.Db.Accounts.Tokens.{get_api_token_user, live_token, touch_api_token}
use trackstar.Db.Accounts.Users.{
  delete_user_sessions, has_user_id, update_user, updated_user, write_user,
}
use trackstar.Db.Rows.{Db, UserRow}
use trackstar.Db.Tx.{ok, pure, ◌>>=◌}
use trackstar.Db.Tx.Hoare.{Hoare, Hoare-any, Hoare-bind, Hoare-post, Hoare-pure, OkPost}
use trackstar.Db.Tx.Keeps.{Hoare-in_tx}
use trackstar.User.{
  AdminUpdate, User, check_last_admin, find_user, sign_out_inactive, update_account,
  update_account_body, updated_name, user_of,
}
use trackstar.User.Keeps.{found_user}

abbrev Inactive : ℕ → Db → Type 0
Inactive id d = any (λ u. has_user_id id u && u.is_active) d.users ≡ false

-- Signed out, and inactive besides.
abbrev Closed : ℕ → Db → Type 0
Closed id d = Inactive id d × SignedOut id d

sign_out_inactive-Closed :
    (id : ℕ) → Hoare (Inactive id) (sign_out_inactive id false) (λ _ d. Closed id d)
unfolding sign_out_inactive delete_user_sessions delete_user_oauth_grants
sign_out_inactive-Closed id = record {
  at = λ d h. (
    h,
    (others_kept (λ s. s.user_id) id d.sessions, others_kept (λ g. g.user_id) id d.oauth_grants),
  );
}

none_active :
    (id : ℕ) (name : String) (admin : Bool) (now : ℕ) (us : List UserRow)
    → any
        (λ u. has_user_id id u && u.is_active)
        (modify (has_user_id id) (updated_user name admin false now) us)
      ≡ false
none_active id name admin now [] = refl
none_active id name admin now (u ∷ us) = ground (arith, none_active id name admin now us)

found_keeps : (P : Db → Type 0) (id : ℕ) → Hoare P (get_user id) (λ _ d. P d)
found_keeps P id =
    Hoare-post (λ u d. P d × (first (has_user_id id) d.users ≡ some u)) (λ u d h. h.0)
      (found_user P id)

write_user-Inactive :
    (id : ℕ) (name : String) (admin : Bool) (now : ℕ)
    → Hoare {A = Unit}
        (λ d. Unit)
        (write_user id (updated_user name admin false now))
        (λ _ d. Inactive id d)
write_user-Inactive id name admin now = record { at = λ d h. none_active id name admin now d.users }

update_user-Inactive :
    (id : ℕ) (name : String) (admin : Bool) (now : ℕ)
    → Hoare (λ d. Unit) (update_user id name admin false now) (λ _ d. Inactive id d)
unfolding update_user
update_user-Inactive id name admin now =
    Hoare-bind {A = Unit} (λ _ d. Inactive id d) (write_user-Inactive id name admin now)
      (λ _. found_keeps (Inactive id) id)

-- What `Update` does from where it knows whether the account is to be active.
closing :
    (now id : ℕ) (name : String) (admin active : Bool)
    → active ≡ false
    → Hoare
        (λ d. Unit)
        (update_user id name admin active now >>= λ row.
          sign_out_inactive id active >>= λ (_ : Unit). pure row)
        (λ _ d. Closed id d)
closing now id name admin true e = absurd (ground (arith, e))
closing now id name admin false e =
    Hoare-bind (λ row d. Inactive id d) (update_user-Inactive id name admin now)
      λ row.
        Hoare-bind {A = Unit} (λ _ d. Closed id d) (sign_out_inactive-Closed id)
          (λ _. Hoare-pure row (λ d h. h))

update_account_body-Closed :
    (now id : ℕ) (input : AdminUpdate)
    → input.is_active ≡ some false
    → Hoare (λ d. Unit) (update_account_body now id input) (λ _ d. Closed id d)
unfolding update_account_body
update_account_body-Closed now id input leaves =
    Hoare-bind (λ u d. Unit) (Hoare-any (find_user id))
      λ u.
        Hoare-bind (λ name d. Unit)
          (Hoare-any (λ d. (updated_name input.display_name u.display_name, d)))
          λ name.
            let admin = Option.get_or input.is_admin u.is_admin in
            let active = Option.get_or input.is_active u.is_active in
            let inactive : active ≡ false = (λ i. Option.get_or (leaves i) u.is_active) in
            Hoare-bind {A = Unit} (λ _ d. Unit) (Hoare-any (check_last_admin u admin active))
              (λ _. closing now id name admin active inactive)

Inactive-authenticate_token :
    (env : AuthEnv) (now id : ℕ) (secret : String) (d : Db)
    → Inactive id d
    → answers_other id (authenticate_token env now secret d).0 ≡ true
unfolding authenticate_token get_api_token_user touch_api_token
Inactive-authenticate_token env now id secret d h =
    elim (Bool-cases (starts_with secret token_prefix)) [
      | inr e ↦ ground (arith, e)
      | inl tagged ↦
          elim (Option-cases (first (live_token (env.hash_token secret) now) d.api_tokens)) [
            | inl e ↦ ground (arith, tagged, e)
            | inr (t, e) ↦
                elim (Option-cases (first (λ u. has_user_id t.user_id u && u.is_active) d.users)) [
                  | inl f ↦ ground (arith, tagged, e, f)
                  | inr (u, f) ↦
                      let p = λ (x : UserRow). has_user_id t.user_id x && x.is_active in
                      let passes = first_passes p d.users f in
                      let out : (has_user_id id u && u.is_active) ≡ false =
                        All-first _ p d.users
                          (any-All (λ x. has_user_id id x && x.is_active) d.users h) f in
                      let other : (u.id == id) ≡ false = ground (arith, passes, out) in
                      ground (arith, tagged, e, f, other)
                ]
          ]
    ]

-- An account that `Update` deactivates is shut out at once: it has no session and no connected app
-- left, and no personal API token stands for it, at any time while it stays so.
pub update_account-SignedOut :
    (env : AuthEnv) (now later id : ℕ) (input : AdminUpdate) (secret : String) (v : User)
    (d d' : Db)
    → input.is_active ≡ some false
    → update_account now id input d ≡ (ok v, d')
    → SignedOut id d' × (answers_other id (authenticate_token env later secret d').0 ≡ true)
unfolding update_account
update_account-SignedOut env now later id input secret v d d' leaves e =
    let done =
      Hoare-bind (λ row x. Closed id x)
        (Hoare-in_tx (λ row x. Closed id x) (update_account_body-Closed now id input leaves))
        (λ row. Hoare-pure (user_of row) (λ x h. h)) in
    let closed : Closed id d' = subst (OkPost (λ w x. Closed id x)) e (done.at d tt) in
    (closed.1, Inactive-authenticate_token env later id secret d' closed.0)
