-- ===== src/Auth/Oauth/Rotation.antt =====
-- A refresh token of internal/auth/oauth.go, its grant and its client, from one statement to the next.
pub mod Pruned
pub mod Rotate
pub mod Replay
use mathlib.Core.Option
use text.Mathlib.TextEquality.{eq_iff}
use trackstar.Auth.Oauth.{is_refresh}
use trackstar.Auth.Oauth.Reuse.{IsStable, has_grant}
use trackstar.Common.{
  Bool, Bool-cases, List, String, any, arith, false, first, first-any, first-modify-kept,
  if◌then◌else◌, inl, inr, is_some, leb, modify, refl, some, subst, sym, true, ℕ, ◌==◌, ◌∙◌, ◌≡◌,
}
use trackstar.Db.Accounts.Oauth.{delete_expired_oauth_codes, has_client_id, touch_oauth_client}
use trackstar.Db.Accounts.OauthTokens.{has_token_hash, is_unused_token, use_oauth_token}
use trackstar.Db.Rows.{Db, OauthClientRow, OauthGrantRow, OauthTokenRow}
use trackstar.Db.Tx.Hoare.{Hoare}

-- The refresh token with the hash: its id, its grant and whether it was used, which has not expired at
-- the given time, its grant's row, and the client the grant is of.
pub record IsHeld (hash client_id : String) (now id grant : ℕ) (used : Bool) (d : Db) : Type 0 where
  pub token : OauthTokenRow
  pub owner : OauthGrantRow
  pub client : OauthClientRow
  pub found : first (has_token_hash hash) d.oauth_tokens ≡ some token
  pub same_id : token.id ≡ id
  pub of_grant : token.grant_id ≡ grant
  pub refreshes : is_refresh token.kind ≡ true
  pub spent : is_some token.used_at ≡ used
  pub lives : leb token.expires_at now ≡ false
  pub owned : first (has_grant grant) d.oauth_grants ≡ some owner
  pub registered : first (has_client_id client_id) d.oauth_clients ≡ some client
  pub of_client : owner.client_id ≡ client.id

-- A row with another hash does not come in the way.
new_apart :
    (hash : String) (row t : OauthTokenRow) (ts : List OauthTokenRow)
    → first (has_token_hash hash) ts ≡ some t
    → any (has_token_hash row.token_hash) ts ≡ false
    → has_token_hash hash row ≡ false
new_apart hash row t ts e new = elim (Bool-cases (has_token_hash hash row)) [
  | inr miss ↦ miss
  | inl hit ↦
      let same : row.token_hash ≡ hash = (eq_iff _ _).0 hit in
      let there = first-any (has_token_hash hash) ts e in
      let gone : any (has_token_hash hash) ts ≡ false =
        subst (λ (s : String). any (has_token_hash s) ts ≡ false) same new in
      absurd (ground (arith, there, gone))
]

touched_id :
    (b : Bool) (at : ℕ) (c : OauthClientRow)
    → (if b then record c { last_used_at = some at } else c).id ≡ c.id
touched_id true at c = refl
touched_id false at c = refl

module _ (hash client_id : String) (now id grant : ℕ) where
  pub IsHeld-IsStable : (used : Bool) → IsStable (IsHeld hash client_id now id grant used)
  IsHeld-IsStable used = record {
    at = λ d row new h. record {
      token = h.token;
      owner = h.owner;
      client = h.client;
      found =
          (let apart = new_apart hash row h.token d.oauth_tokens h.found new in
            ground (arith, apart, h.found));
      same_id = h.same_id;
      of_grant = h.of_grant;
      refreshes = h.refreshes;
      spent = h.spent;
      lives = h.lives;
      owned = h.owned;
      registered = h.registered;
      of_client = h.of_client;
    };
  }

  pub use_oauth_token-IsHeld :
      Hoare
        (IsHeld hash client_id now id grant false)
        (use_oauth_token id now)
        (λ _ d. IsHeld hash client_id now id grant true d)
  unfolding use_oauth_token
  use_oauth_token-IsHeld = record {
    at = λ d h.
        let f = λ (t : OauthTokenRow). record t { used_at = some now } in
        let there =
          first-modify-kept (has_token_hash hash) (is_unused_token id) f d.oauth_tokens (λ t. refl)
            h.found in
        let hit : is_unused_token id h.token ≡ true = ground (arith, h.same_id, h.spent) in
        record {
          token = f h.token;
          owner = h.owner;
          client = h.client;
          found =
              subst
                (λ (b : Bool).
                  first (has_token_hash hash) (modify (is_unused_token id) f d.oauth_tokens)
                  ≡ some (if b then f h.token else h.token))
                hit there;
          same_id = h.same_id;
          of_grant = h.of_grant;
          refreshes = h.refreshes;
          spent = refl;
          lives = h.lives;
          owned = h.owned;
          registered = h.registered;
          of_client = h.of_client;
        };
  }

  pub touch_oauth_client-IsHeld :
      (row_id at : ℕ)
      → Hoare
          (IsHeld hash client_id now id grant true)
          (touch_oauth_client row_id at)
          (λ _ d. IsHeld hash client_id now id grant true d)
  unfolding touch_oauth_client
  touch_oauth_client-IsHeld row_id at = record {
    at = λ d h.
        let f = λ (c : OauthClientRow). record c { last_used_at = some at } in
        record {
          token = h.token;
          owner = h.owner;
          client = if h.client.id == row_id then f h.client else h.client;
          found = h.found;
          same_id = h.same_id;
          of_grant = h.of_grant;
          refreshes = h.refreshes;
          spent = h.spent;
          lives = h.lives;
          owned = h.owned;
          registered =
              first-modify-kept (has_client_id client_id) (λ c. c.id == row_id) f d.oauth_clients
                (λ c. refl) h.registered;
          of_client = h.of_client ∙ sym (touched_id (h.client.id == row_id) at h.client);
        };
  }

  pub delete_expired_oauth_codes-IsHeld :
      Hoare
        (IsHeld hash client_id now id grant true)
        (delete_expired_oauth_codes now)
        (λ _ d. IsHeld hash client_id now id grant true d)
  unfolding delete_expired_oauth_codes
  delete_expired_oauth_codes-IsHeld = record {
    at = λ d h. record {
      token = h.token;
      owner = h.owner;
      client = h.client;
      found = h.found;
      same_id = h.same_id;
      of_grant = h.of_grant;
      refreshes = h.refreshes;
      spent = h.spent;
      lives = h.lives;
      owned = h.owned;
      registered = h.registered;
      of_client = h.of_client;
    };
  }
