-- ===== src/Db/Accounts/Tokens.antt =====
-- internal/database/dbgen/tokens.sql.go: the statements on personal API tokens.
use text.Mathlib.Text.{◌==◌ as str_eq}
use trackstar.AppErr.{constraint, no_rows}
use trackstar.Common.{
  Bool, List, Option, String, any, first, if◌then◌else◌, leb, length, ltb, map, modify, none, not,
  select, some, true, ℕ, ◌&&◌, ◌==◌, ◌||◌, ◌∷◌,
}
use trackstar.Db.Accounts.Users.{has_user_id}
use trackstar.Db.Order.{sort_by}
use trackstar.Db.Rows.{ApiTokenRow, Db, UserRow}
use trackstar.Db.Stories.{Engine}
use trackstar.Db.Tx.{Tx, err, ok, update}

abbrev pub token_ids : Db → List ℕ
token_ids d = map (λ t. t.id) d.api_tokens

pub record NewApiToken : Type 0 where
  pub user_id : ℕ
  pub name : String
  pub token_hash : String
  pub created_at : ℕ
  pub expires_at : Option ℕ

abbrev pub new_api_token_row : NewApiToken → ℕ → ApiTokenRow
new_api_token_row n id = record {
  id = id;
  user_id = n.user_id;
  name = n.name;
  token_hash = n.token_hash;
  created_at = n.created_at;
  last_used_at = none;
  expires_at = n.expires_at;
}

-- A hash is unique, and a token is of a user there is.
unfoldable pub create_api_token : Engine → NewApiToken → Tx ApiTokenRow
create_api_token engine n d =
    let row = new_api_token_row n (engine.fresh_id (token_ids d)) in
    if any (λ t. str_eq t.token_hash n.token_hash) d.api_tokens
      || not (any (has_user_id n.user_id) d.users)
    then (err constraint, d)
    else (ok row, record d { api_tokens = row ∷ d.api_tokens })

abbrev pub is_own_token : ℕ → ℕ → ApiTokenRow → Bool
is_own_token id user t = t.id == id && t.user_id == user

-- The number of rows that were deleted.
unfoldable pub delete_api_token : ℕ → ℕ → Tx ℕ
delete_api_token id user d = (
  ok (length (select (is_own_token id user) d.api_tokens)),
  record d { api_tokens = select (λ t. not (is_own_token id user t)) d.api_tokens },
)

-- expires_at IS NULL OR expires_at > now
abbrev pub unexpired : ℕ → Option ℕ → Bool
unexpired now none = true
unexpired now (some at) = ltb now at

abbrev pub live_token : String → ℕ → ApiTokenRow → Bool
live_token hash now t = str_eq t.token_hash hash && unexpired now t.expires_at

-- The token and its user, where the account is active; hashes and ids are unique.
unfoldable pub get_api_token_user : String → ℕ → Tx (ApiTokenRow × UserRow)
get_api_token_user hash now d = elim (first (live_token hash now) d.api_tokens) [
  | none ↦ (err no_rows, d)
  | some t ↦ elim (first (λ u. has_user_id t.user_id u && u.is_active) d.users) [
    | none ↦ (err no_rows, d)
    | some u ↦ (ok (t, u), d)
  ]
]

-- ORDER BY created_at DESC, id DESC
abbrev pub newer_token : ApiTokenRow → ApiTokenRow → Bool
newer_token a b = ltb b.created_at a.created_at || (a.created_at == b.created_at && leb b.id a.id)

unfoldable pub list_api_tokens : ℕ → Tx (List ApiTokenRow)
list_api_tokens user d =
    (ok (sort_by newer_token (select (λ t. t.user_id == user) d.api_tokens)), d)

unfoldable pub touch_api_token : ℕ → ℕ → Tx Unit
touch_api_token id now = update λ d. record d {
  api_tokens = modify (λ t. t.id == id) (λ t. record t { last_used_at = some now }) d.api_tokens;
}
