-- ===== src/Db/Accounts/OauthTokens.antt =====
-- internal/database/dbgen/oauth.sql.go: the statements on the tokens of OAuth grants.
use text.Mathlib.Text.{◌==◌ as str_eq}
use trackstar.AppErr.{constraint, no_rows}
use trackstar.Common.{
  Bool, List, Option, String, [], any, false, first, if◌then◌else◌, is_some, leb, length, ltb, map,
  modify, none, not, select, some, true, ℕ, ◌&&◌, ◌==◌, ◌||◌, ◌∷◌,
}
use trackstar.Db.Accounts.Users.{has_user_id}
use trackstar.Db.Order.{sort_by}
use trackstar.Db.Rows.{OauthClientRow, OauthGrantRow, OauthTokenRow, TokenKind, UserRow}
use trackstar.Db.Stories.{Engine}
use trackstar.Db.Tx.{Tx, err, ok, or_fail, update}

unfoldable pub touch_oauth_grant : ℕ → ℕ → Tx Unit
touch_oauth_grant id now = update λ d. record d {
  oauth_grants =
      modify (λ g. g.id == id) (λ g. record g { last_used_at = some now }) d.oauth_grants;
}

abbrev pub has_token_hash : String → OauthTokenRow → Bool
has_token_hash hash t = str_eq t.token_hash hash

-- A hash is unique, and a token is of a grant there is.
unfoldable pub create_oauth_token : Engine → ℕ → TokenKind → String → ℕ → Tx Unit
create_oauth_token engine grant kind hash expires_at d =
    let row : OauthTokenRow = record {
      id = engine.fresh_id (map (λ t. t.id) d.oauth_tokens);
      grant_id = grant;
      kind = kind;
      token_hash = hash;
      expires_at = expires_at;
      used_at = none;
    } in
    if any (has_token_hash hash) d.oauth_tokens || not (any (λ g. g.id == grant) d.oauth_grants)
    then (err constraint, d)
    else (ok tt, record d { oauth_tokens = row ∷ d.oauth_tokens })

-- A token with its grant, which every token has.
unfoldable pub get_oauth_token : String → Tx (OauthTokenRow × OauthGrantRow)
get_oauth_token hash d = elim (first (has_token_hash hash) d.oauth_tokens) [
  | none ↦ (err no_rows, d)
  | some t ↦ elim (first (λ g. g.id == t.grant_id) d.oauth_grants) [
    | none ↦ (err no_rows, d)
    | some g ↦ (ok (t, g), d)
  ]
]

unfoldable pub get_oauth_grant_user : ℕ → Tx UserRow
get_oauth_grant_user id d = elim (first (λ g. g.id == id) d.oauth_grants) [
  | none ↦ (err no_rows, d)
  | some g ↦ or_fail no_rows (first (has_user_id g.user_id) d.users) d
]

abbrev pub is_access : TokenKind → Bool
is_access TokenKind.access = true
is_access TokenKind.refresh = false

abbrev pub live_access : String → ℕ → OauthTokenRow → Bool
live_access hash now t = has_token_hash hash t && is_access t.kind && ltb now t.expires_at

-- The grant of a live access token and its user, where the account is active.
unfoldable pub get_oauth_access_token_user : String → ℕ → Tx (OauthGrantRow × UserRow)
get_oauth_access_token_user hash now d = elim (first (live_access hash now) d.oauth_tokens) [
  | none ↦ (err no_rows, d)
  | some t ↦ elim (first (λ g. g.id == t.grant_id) d.oauth_grants) [
    | none ↦ (err no_rows, d)
    | some g ↦ elim (first (λ u. has_user_id g.user_id u && u.is_active) d.users) [
      | none ↦ (err no_rows, d)
      | some u ↦ (ok (g, u), d)
    ]
  ]
]

abbrev pub is_unused_token : ℕ → OauthTokenRow → Bool
is_unused_token id t = t.id == id && not (is_some t.used_at)

-- The number of rows that were changed.
unfoldable pub use_oauth_token : ℕ → ℕ → Tx ℕ
use_oauth_token id now d = (
  ok (length (select (is_unused_token id) d.oauth_tokens)),
  record d {
    oauth_tokens =
        modify (is_unused_token id) (λ t. record t { used_at = some now }) d.oauth_tokens;
  },
)

unfoldable pub delete_expired_oauth_tokens : ℕ → Tx Unit
delete_expired_oauth_tokens now =
    update λ d. record d { oauth_tokens = select (λ t. not (leb t.expires_at now)) d.oauth_tokens }

-- ORDER BY created_at DESC, id DESC
abbrev pub newer_grant : OauthGrantRow → OauthGrantRow → Bool
newer_grant a b = ltb b.created_at a.created_at || (a.created_at == b.created_at && leb b.id a.id)

pub record ListedGrant : Type 0 where
  pub id : ℕ
  pub created_at : ℕ
  pub last_used_at : Option ℕ
  pub client_name : String

-- A grant with the name of its client, which every grant has.
abbrev pub with_client : OauthGrantRow → Option OauthClientRow → List ListedGrant → List ListedGrant
with_client g none rest = rest
with_client g (some c) rest =
    record {
      id = g.id;
      created_at = g.created_at;
      last_used_at = g.last_used_at;
      client_name = c.name;
    }
    ∷ rest

abbrev pub join_clients : List OauthClientRow → List OauthGrantRow → List ListedGrant
join_clients cs [] = []
join_clients cs (g ∷ gs) = with_client g (first (λ c. c.id == g.client_id) cs) (join_clients cs gs)

unfoldable pub list_oauth_grants : ℕ → Tx (List ListedGrant)
list_oauth_grants user d =
    let own = sort_by newer_grant (select (λ g. g.user_id == user) d.oauth_grants) in
    (ok (join_clients d.oauth_clients own), d)
