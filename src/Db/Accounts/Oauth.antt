-- ===== src/Db/Accounts/Oauth.antt =====
-- internal/database/dbgen/oauth.sql.go: the statements on OAuth clients, codes, grants and tokens.
-- Deleting a grant deletes its tokens and clears it in the codes (db/migrations, 00009_oauth.sql).
use mathlib.Core.Option
use text.Mathlib.Text.{◌==◌ as str_eq}
use trackstar.AppErr.{constraint, no_rows}
use trackstar.Common.{
  Bool, List, Option, String, any, false, first, if◌then◌else◌, is_some, leb, length, map, modify,
  none, not, select, some, ℕ, ◌&&◌, ◌==◌, ◌||◌, ◌∷◌,
}
use trackstar.Common.Int.{ltb_ℤ, pos, ℤ}
use trackstar.Db.Accounts.Users.{has_user_id}
use trackstar.Db.Rows.{Db, OauthClientRow, OauthCodeRow, OauthGrantRow}
use trackstar.Db.Stories.{Engine}
use trackstar.Db.Tx.{Tx, err, ok, or_fail, update}

abbrev pub has_client_id : String → OauthClientRow → Bool
has_client_id client_id c = str_eq c.client_id client_id

unfoldable pub create_oauth_client : Engine → String → String → List String → ℕ → Tx OauthClientRow
create_oauth_client engine client_id name uris now d =
    let row : OauthClientRow = record {
      id = engine.fresh_id (map (λ c. c.id) d.oauth_clients);
      client_id = client_id;
      name = name;
      redirect_uris = uris;
      created_at = now;
      last_used_at = none;
    } in
    if any (has_client_id client_id) d.oauth_clients
    then (err constraint, d)
    else (ok row, record d { oauth_clients = row ∷ d.oauth_clients })

unfoldable pub get_oauth_client : String → Tx OauthClientRow
get_oauth_client client_id d = or_fail no_rows (first (has_client_id client_id) d.oauth_clients) d

unfoldable pub touch_oauth_client : ℕ → ℕ → Tx Unit
touch_oauth_client id now = update λ d. record d {
  oauth_clients =
      modify (λ c. c.id == id) (λ c. record c { last_used_at = some now }) d.oauth_clients;
}

-- COALESCE(last_used_at, created_at) <= before, and no grant is of the client
abbrev pub is_idle : ℤ → List OauthGrantRow → OauthClientRow → Bool
is_idle before gs c =
    not (ltb_ℤ before (pos (Option.get_or c.last_used_at c.created_at)))
    && not (any (λ g. g.client_id == c.id) gs)

-- The codes of a client go with it.
unfoldable pub delete_idle_oauth_clients : ℤ → Tx Unit
delete_idle_oauth_clients before = update λ d. record d {
  oauth_clients = select (λ c. not (is_idle before d.oauth_grants c)) d.oauth_clients;
  oauth_codes =
      select
        (λ k.
          not (any (λ c. c.id == k.client_id && is_idle before d.oauth_grants c) d.oauth_clients))
        d.oauth_codes;
}

abbrev pub has_code_hash : String → OauthCodeRow → Bool
has_code_hash hash k = str_eq k.code_hash hash

pub record NewOauthCode : Type 0 where
  pub code_hash : String
  pub user_id : ℕ
  pub client_id : ℕ
  pub redirect_uri : String
  pub code_challenge : String
  pub expires_at : ℕ

abbrev pub new_code_row : NewOauthCode → ℕ → OauthCodeRow
new_code_row n id = record {
  id = id;
  code_hash = n.code_hash;
  user_id = n.user_id;
  client_id = n.client_id;
  redirect_uri = n.redirect_uri;
  code_challenge = n.code_challenge;
  expires_at = n.expires_at;
  used_at = none;
  grant_id = none;
}

unfoldable pub create_oauth_code : Engine → NewOauthCode → Tx Unit
create_oauth_code engine n d =
    let row = new_code_row n (engine.fresh_id (map (λ k. k.id) d.oauth_codes)) in
    if any (has_code_hash n.code_hash) d.oauth_codes
      || not (any (has_user_id n.user_id) d.users)
      || not (any (λ c. c.id == n.client_id) d.oauth_clients)
    then (err constraint, d)
    else (ok tt, record d { oauth_codes = row ∷ d.oauth_codes })

unfoldable pub get_oauth_code : String → Tx OauthCodeRow
get_oauth_code hash d = or_fail no_rows (first (has_code_hash hash) d.oauth_codes) d

abbrev pub is_unused_code : ℕ → OauthCodeRow → Bool
is_unused_code id k = k.id == id && not (is_some k.used_at)

-- The number of rows that were changed.
unfoldable pub use_oauth_code : ℕ → ℕ → ℕ → Tx ℕ
use_oauth_code id now grant d = (
  ok (length (select (is_unused_code id) d.oauth_codes)),
  record d {
    oauth_codes =
        modify (is_unused_code id) (λ k. record k { used_at = some now; grant_id = some grant })
          d.oauth_codes;
  },
)

unfoldable pub delete_expired_oauth_codes : ℕ → Tx Unit
delete_expired_oauth_codes now =
    update λ d. record d { oauth_codes = select (λ k. not (leb k.expires_at now)) d.oauth_codes }

abbrev pub grant_ids : Db → List ℕ
grant_ids d = map (λ g. g.id) d.oauth_grants

unfoldable pub create_oauth_grant : Engine → ℕ → ℕ → ℕ → Tx OauthGrantRow
create_oauth_grant engine user client now d =
    let row : OauthGrantRow = record {
      id = engine.fresh_id (grant_ids d);
      user_id = user;
      client_id = client;
      created_at = now;
      last_used_at = none;
    } in
    if not (any (has_user_id user) d.users) || not (any (λ c. c.id == client) d.oauth_clients)
    then (err constraint, d)
    else (ok row, record d { oauth_grants = row ∷ d.oauth_grants })

-- Whether the rows that are deleted contain the one a code points at.
abbrev pub points_at : (OauthGrantRow → Bool) → List OauthGrantRow → Option ℕ → Bool
points_at gone gs none = false
points_at gone gs (some id) = any (λ g. g.id == id && gone g) gs

abbrev pub without_grants : (OauthGrantRow → Bool) → Db → Db
without_grants gone d = record d {
  oauth_grants = select (λ g. not (gone g)) d.oauth_grants;
  oauth_tokens =
      select (λ t. not (any (λ g. g.id == t.grant_id && gone g) d.oauth_grants)) d.oauth_tokens;
  oauth_codes =
      modify (λ k. points_at gone d.oauth_grants k.grant_id) (λ k. record k { grant_id = none })
        d.oauth_codes;
}

unfoldable pub delete_oauth_grant_by_id : ℕ → Tx Unit
delete_oauth_grant_by_id id = update (without_grants λ g. g.id == id)

-- The number of grants that were deleted.
unfoldable pub delete_oauth_grant : ℕ → ℕ → Tx ℕ
delete_oauth_grant id user d = (
  ok (length (select (λ g. g.id == id && g.user_id == user) d.oauth_grants)),
  without_grants (λ g. g.id == id && g.user_id == user) d,
)

unfoldable pub delete_user_oauth_grants : ℕ → Tx Unit
delete_user_oauth_grants user = update (without_grants λ g. g.user_id == user)

unfoldable pub delete_empty_oauth_grants : Tx Unit
delete_empty_oauth_grants =
    update λ d. without_grants (λ g. not (any (λ t. t.grant_id == g.id) d.oauth_tokens)) d
