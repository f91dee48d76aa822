-- ===== src/Auth/SignedOut.antt =====
-- Users of internal/auth and internal/user that have been signed out everywhere.
pub mod Password
pub mod Deactivate
use mathlib.Core.Option
use text.Mathlib.Text.{starts_with}
use trackstar.Auth.Accounts.{AuthEnv, authenticate}
use trackstar.Auth.Oauth.{access_token_prefix, authenticate_access_token}
use trackstar.Common.{
  All, All-first, All-imp, Bool, Bool-cases, List, Option-cases, String, arith, false, first,
  first_passes, inl, inr, not, select, select_passes, some, true, ℕ, ◌&&◌, ◌==◌, ◌≡◌,
}
use trackstar.Common.Text.{is_empty}
use trackstar.Db.Accounts.OauthTokens.{get_oauth_access_token_user, live_access, touch_oauth_grant}
use trackstar.Db.Accounts.Users.{get_session_user, has_user_id, live_session}
use trackstar.Db.Rows.{Db, OauthGrantRow, OauthTokenRow, UserRow}
use trackstar.Db.Tx.{Result, err, ok}
use trackstar.User.{User}

-- A user without sessions and without connected apps.
abbrev pub SignedOut : ℕ → Db → Type 0
SignedOut id d =
    All (λ s. (s.user_id == id) ≡ false) d.sessions
    × All (λ g. (g.user_id == id) ≡ false) d.oauth_grants

-- A result that is a failure, or a user other than the given one.
abbrev pub answers_other : ℕ → Result User → Bool
answers_other id (err e) = true
answers_other id (ok u) = not (u.id == id)

found_other :
    (id user : ℕ) (us : List UserRow) (u : UserRow)
    → (user == id) ≡ false
    → first (λ x. has_user_id user x && x.is_active) us ≡ some u
    → (u.id == id) ≡ false
found_other id user us u h e =
    let passes = first_passes (λ x. has_user_id user x && x.is_active) us e in
    ground (arith, passes, h)

pub SignedOut-authenticate :
    (env : AuthEnv) (now id : ℕ) (token : String) (d : Db)
    → SignedOut id d
    → answers_other id (authenticate env now token d).0 ≡ true
unfolding authenticate get_session_user
SignedOut-authenticate env now id token d h = elim (Bool-cases (is_empty token)) [
  | inl e ↦ ground (arith, e)
  | inr full ↦ elim (Option-cases (first (live_session (env.hash_token token) now) d.sessions)) [
    | inl e ↦ ground (arith, full, e)
    | inr (s, e) ↦
        let other = All-first _ (live_session (env.hash_token token) now) d.sessions h.0 e in
        elim (Option-cases (first (λ u. has_user_id s.user_id u && u.is_active) d.users)) [
          | inl f ↦ ground (arith, full, e, f)
          | inr (u, f) ↦
              let out = found_other id s.user_id d.users u other f in
              ground (arith, full, e, f, out)
        ]
  ]
]

of_grant :
    (env : AuthEnv) (now id : ℕ) (secret : String) (t : OauthTokenRow) (g : OauthGrantRow) (d : Db)
    → starts_with secret access_token_prefix ≡ true
    → first (live_access (env.hash_token secret) now) d.oauth_tokens ≡ some t
    → first (λ x. x.id == t.grant_id) d.oauth_grants ≡ some g
    → (g.user_id == id) ≡ false
    → answers_other id (authenticate_access_token env now secret d).0 ≡ true
unfolding authenticate_access_token get_oauth_access_token_user touch_oauth_grant
of_grant env now id secret t g d tagged e f other =
    elim (Option-cases (first (λ u. has_user_id g.user_id u && u.is_active) d.users)) [
      | inl k ↦ ground (arith, tagged, e, f, k)
      | inr (u, k) ↦
          let out = found_other id g.user_id d.users u other k in
          ground (arith, tagged, e, f, k, out)
    ]

pub SignedOut-authenticate_access_token :
    (env : AuthEnv) (now id : ℕ) (secret : String) (d : Db)
    → SignedOut id d
    → answers_other id (authenticate_access_token env now secret d).0 ≡ true
unfolding authenticate_access_token get_oauth_access_token_user touch_oauth_grant
SignedOut-authenticate_access_token env now id secret d h =
    elim (Bool-cases (starts_with secret access_token_prefix)) [
      | inr e ↦ ground (arith, e)
      | inl tagged ↦
          elim (Option-cases (first (live_access (env.hash_token secret) now) d.oauth_tokens)) [
            | inl e ↦ ground (arith, tagged, e)
            | inr (t, e) ↦ elim (Option-cases (first (λ g. g.id == t.grant_id) d.oauth_grants)) [
              | inl f ↦ ground (arith, tagged, e, f)
              | inr (g, f) ↦
                  let other = All-first _ (λ x. x.id == t.grant_id) d.oauth_grants h.1 f in
                  of_grant env now id secret t g d tagged e f other
            ]
          ]
    ]

pub others_kept :
    {A : Type 0} (key : A → ℕ) (id : ℕ) (xs : List A)
    → All (λ x. (key x == id) ≡ false) (select (λ x. not (key x == id)) xs)
others_kept key id xs =
    All-imp (select (λ x. not (key x == id)) xs) (λ x h. ground (arith, h))
      (select_passes (λ x. not (key x == id)) xs)
