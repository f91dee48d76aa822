-- ===== src/Auth/Tokens/Lifetime.antt =====
-- The life of a token of internal/auth/token.go, from CreateToken to RevokeToken.
use Prim.Native.String.{String, len, ◌++◌ as append_text}
use text.Mathlib.TextPositions.{starts_with-append}
use text.Mathlib.TextEquality.{eq_iff}
use text.Mathlib.Text.{◌==◌ as str_eq, starts_with}
use trackstar.AppErr.{unauthorized_err}
use trackstar.Auth.Accounts.{AuthEnv}
use trackstar.Auth.Sessions.{active_known}
use trackstar.Auth.Tokens.{
  CreateTokenInput, authenticate_token, create_token, new_token, revoke_token, token_expiry,
  token_of, token_prefix,
}
use trackstar.Common.{
  Bool, Bool-cases, List, [], any, arith, false, first, if◌then◌else◌, inl, inr, ltb, none, not,
  refl, select, some, true, ℕ, ◌&&◌, ◌*◌, ◌+◌, ◌==◌, ◌||◌, ◌∙◌, ◌∷◌, ◌≡◌,
}
use trackstar.Common.Int.{pos}
use trackstar.Common.Text.{is_empty, trim_space}
use trackstar.Db.Accounts.Tokens.{
  create_api_token, delete_api_token, get_api_token_user, is_own_token, live_token,
  new_api_token_row, token_ids, touch_api_token, unexpired,
}
use trackstar.Db.Accounts.Users.{has_user_id}
use trackstar.Db.Rows.{ApiTokenRow, Db, UserRow}
use trackstar.Db.Tx.{Result, err, ok, ◌>>=◌}
use trackstar.Db.Tx.Keeps.{runs_then}
use trackstar.User.{User, user_of}

abbrev same_token : String → ApiTokenRow → Bool
same_token hash t = str_eq t.token_hash hash

-- What `AuthenticateToken` says of a token that still stands for its user, or does not.
abbrev pub answer_for : Bool → UserRow → Result User
answer_for stands u = if stands then ok (user_of u) else err (unauthorized_err "invalid API token")

-- A token stands for `days` days of 24 hours, or for ever where that is 0.
abbrev pub stands_at : ℕ → ℕ → ℕ → Bool
stands_at now days later = days == 0 || ltb later (now + days * (24 * 3600))

-- What `CreateToken` accepts: a name of 1 to 100 bytes and 0 to 3650 days.
pub record IsTokenInput (input : CreateTokenInput) (days : ℕ) : Type 0 where
  pub named : is_empty (trim_space input.name) ≡ false
  pub short : ltb 100 (len (trim_space input.name)) ≡ false
  pub dated : input.expires_in_days ≡ pos days
  pub bounded : ltb 3650 days ≡ false

unexpired-token_expiry :
    (now days later : ℕ) → unexpired later (token_expiry now days) ≡ stands_at now days later
unexpired-token_expiry now days later = ground arith

no_token :
    (hash : String) (now : ℕ) (ts : List ApiTokenRow)
    → any (same_token hash) ts ≡ false
    → first (live_token hash now) ts ≡ none
no_token hash now [] h = refl
no_token hash now (t ∷ ts) h =
    let rest = no_token hash now ts (ground (arith, h)) in ground (arith, h, rest)

fewer_tokens :
    (hash : String) (p : ApiTokenRow → Bool) (ts : List ApiTokenRow)
    → any (same_token hash) ts ≡ false
    → any (same_token hash) (select p ts) ≡ false
fewer_tokens hash p [] h = refl
fewer_tokens hash p (t ∷ ts) h =
    let rest = fewer_tokens hash p ts (ground (arith, h)) in ground (arith, h, rest)

abbrev minted : AuthEnv → ℕ → ℕ → CreateTokenInput → String → ℕ → Db → ApiTokenRow
minted env now user input secret days d =
    new_api_token_row (new_token env now user (trim_space input.name) secret days)
      (env.engine.fresh_id (token_ids d))

abbrev with_token : ApiTokenRow → Db → Db
with_token t d = record d { api_tokens = t ∷ d.api_tokens }

create_token-runs :
    (env : AuthEnv) (now user days : ℕ) (raw : String) (input : CreateTokenInput) (d : Db)
    → IsTokenInput input days
    → any (has_user_id user) d.users ≡ true
    → any (same_token (env.hash_token (append_text token_prefix raw))) d.api_tokens ≡ false
    → let secret = append_text token_prefix raw in
      let t = minted env now user input secret days d in
      create_token env (ok raw) now user input d
      ≡ (ok (record { token = token_of t; secret = secret }), with_token t d)
unfolding create_token create_api_token
create_token-runs env now user days raw input d valid known new =
    ground (arith, valid.named, valid.short, valid.dated, valid.bounded, known, new)

authenticate_token-minted :
    (env : AuthEnv) (later : ℕ) (secret : String) (t : ApiTokenRow) (u : UserRow) (d : Db)
    → starts_with secret token_prefix ≡ true
    → t.token_hash ≡ env.hash_token secret
    → first (λ x. has_user_id t.user_id x && x.is_active) d.users ≡ some u
    → any (same_token (env.hash_token secret)) d.api_tokens ≡ false
    → (authenticate_token env later secret (with_token t d)).0
      ≡ answer_for (unexpired later t.expires_at) u
unfolding authenticate_token get_api_token_user touch_api_token
authenticate_token-minted env later secret t u d prefixed h found clear =
    let old = no_token (env.hash_token secret) later d.api_tokens clear in
    let same : str_eq t.token_hash (env.hash_token secret) ≡ true = (eq_iff _ _).1 h in
    elim (Bool-cases (unexpired later t.expires_at)) [
      | inl live ↦ ground (arith, prefixed, same, live, found)
      | inr over ↦ ground (arith, prefixed, same, over, old)
    ]

authenticate_token-none :
    (env : AuthEnv) (later : ℕ) (secret : String) (d : Db)
    → starts_with secret token_prefix ≡ true
    → any (same_token (env.hash_token secret)) d.api_tokens ≡ false
    → (authenticate_token env later secret d).0 ≡ err (unauthorized_err "invalid API token")
unfolding authenticate_token get_api_token_user
authenticate_token-none env later secret d prefixed clear =
    let old = no_token (env.hash_token secret) later d.api_tokens clear in
    ground (arith, prefixed, old)

revoke_token-runs :
    (user : ℕ) (t : ApiTokenRow) (d : Db)
    → t.user_id ≡ user
    → revoke_token user t.id (with_token t d)
      ≡ (ok tt, record d { api_tokens = select (λ x. not (is_own_token t.id user x)) d.api_tokens })
unfolding revoke_token delete_api_token
revoke_token-runs user t d own = ground (arith, own)

-- A token that `CreateToken` mints for an active user, with a hash that no other token has, stands
-- for that user as long as less than the asked number of days of 24 hours have gone by, and always
-- where it was asked for 0 days, and is refused from then on; once its owner has revoked it,
-- `AuthenticateToken` refuses it at any time.
pub create_token-authenticate_token :
    (env : AuthEnv) (now later user days : ℕ) (raw : String) (input : CreateTokenInput)
    (u : UserRow) (d : Db)
    → IsTokenInput input days
    → first (λ x. has_user_id user x && x.is_active) d.users ≡ some u
    → any (λ t. str_eq t.token_hash (env.hash_token (append_text token_prefix raw))) d.api_tokens
      ≡ false
    → (((create_token env (ok raw) now user input >>= λ c. authenticate_token env later c.secret)
          d).0
        ≡ answer_for (stands_at now days later) u)
      × (((create_token env (ok raw) now user input >>= λ c.
              revoke_token user c.token.id >>= λ _. authenticate_token env later c.secret)
            d).0
          ≡ err (unauthorized_err "invalid API token"))
create_token-authenticate_token env now later user days raw input u d valid found new =
    let secret = append_text token_prefix raw in
    let prefixed = starts_with-append token_prefix raw in
    let t = minted env now user input secret days d in
    let mint = create_token env (ok raw) now user input in
    let runs =
      create_token-runs env now user days raw input d valid (active_known user u d.users found)
        new in
    let kept = record d {
      api_tokens = select (λ x. not (is_own_token t.id user x)) d.api_tokens;
    } in
    let used = runs_then mint (λ c. authenticate_token env later c.secret) d runs in
    let dropped =
      runs_then mint
        (λ c. revoke_token user c.token.id >>= λ _. authenticate_token env later c.secret) d runs in
    let gone =
      runs_then (revoke_token user t.id) (λ _. authenticate_token env later secret) (with_token t d)
        (revoke_token-runs user t d refl) in
    (
      (λ i. (used i).0)
          ∙ authenticate_token-minted env later secret t u d prefixed refl found new
          ∙ (λ i. answer_for (unexpired-token_expiry now days later i) u),
      (λ i. (dropped i).0)
          ∙ (λ i. (gone i).0)
          ∙ authenticate_token-none env later secret kept prefixed
              (fewer_tokens (env.hash_token secret) _ d.api_tokens new),
    )
