-- ===== src/Auth/Oauth/Rotation/Pruned.antt =====
-- A rotated token of internal/auth/oauth.go under pruneOAuth.
use trackstar.Auth.Accounts.{AuthEnv}
use trackstar.Auth.Oauth.{OauthTokens, prune_oauth}
use trackstar.Auth.Oauth.Reuse.{IsIssue, OfGrant, has_grant}
use trackstar.Auth.Oauth.Rotation.{IsHeld, delete_expired_oauth_codes-IsHeld}
use trackstar.Common.{
  All-All, All-any, All-select, Bool-cases, List, String, any, arith, false, first, first-any,
  first-any-of, first-select-kept, first_passes, inl, inr, leb, not, some, true, ℕ, ◌&&◌, ◌==◌, ◌≡◌,
}
use trackstar.Db.Accounts.Oauth.{delete_empty_oauth_grants, delete_expired_oauth_codes}
use trackstar.Db.Accounts.OauthTokens.{delete_expired_oauth_tokens, has_token_hash}
use trackstar.Db.Rows.{Db, OauthGrantRow, OauthTokenRow}
use trackstar.Db.Tx.Hoare.{Hoare, Hoare-bind}

-- A grant that has tokens is not deleted.
keeps_owner :
    (hash : String) (token : OauthTokenRow) (ts : List OauthTokenRow) (g : OauthGrantRow)
    → first (has_token_hash hash) ts ≡ some token
    → (g.id == token.grant_id && not (any (λ t. t.grant_id == g.id) ts)) ≡ false
keeps_owner hash token ts g e = elim (Bool-cases (g.id == token.grant_id)) [
  | inr f ↦ ground (arith, f)
  | inl f ↦
      let has =
        first-any-of (has_token_hash hash) (λ t. t.grant_id == g.id) ts e (ground (arith, f)) in
      ground (arith, has)
]

module _ (env : AuthEnv) (client_id refresh_token : String) (now id grant : ℕ)
    (issued : OauthTokens) where
  abbrev hash : String
  hash = env.hash_token refresh_token

  -- The token was rotated and others were issued in its place.
  abbrev pub Rotated : Db → Type 0
  Rotated d = IsHeld hash client_id now id grant true d × IsIssue env grant issued d

  expired-Rotated : Hoare Rotated (delete_expired_oauth_codes now) (λ _ d. Rotated d)
  unfolding delete_expired_oauth_codes
  expired-Rotated = record {
    at = λ d h. (
      (delete_expired_oauth_codes-IsHeld hash client_id now id grant).at d h.0,
      record { tagged = h.1.tagged; known = h.1.known },
    );
  }

  expired_tokens-Rotated : Hoare Rotated (delete_expired_oauth_tokens now) (λ _ d. Rotated d)
  unfolding delete_expired_oauth_tokens
  expired_tokens-Rotated = record {
    at = λ d h.
        let p = λ (t : OauthTokenRow). not (leb t.expires_at now) in
        let lives = h.0.lives in
        (
          record {
            token = h.0.token;
            owner = h.0.owner;
            client = h.0.client;
            found =
                first-select-kept (has_token_hash hash) p d.oauth_tokens h.0.found
                  (ground (arith, lives));
            same_id = h.0.same_id;
            of_grant = h.0.of_grant;
            refreshes = h.0.refreshes;
            spent = h.0.spent;
            lives = lives;
            owned = h.0.owned;
            registered = h.0.registered;
            of_client = h.0.of_client;
          },
          record {
            tagged = h.1.tagged;
            known = (
              All-select (OfGrant grant (env.hash_token issued.access_token)) p d.oauth_tokens
                  h.1.known.0,
              h.1.known.1,
            );
          },
        );
  }

  empty_grants-Rotated : Hoare Rotated delete_empty_oauth_grants (λ _ d. Rotated d)
  unfolding delete_empty_oauth_grants
  empty_grants-Rotated = record {
    at = λ d h.
        let ts = d.oauth_tokens in
        let gs = d.oauth_grants in
        let gone = λ (g : OauthGrantRow). not (any (λ t. t.grant_id == g.id) ts) in
        let p = λ (t : OauthTokenRow). not (any (λ g. g.id == t.grant_id && gone g) gs) in
        let owner = h.0.owner in
        let token = h.0.token in
        let of_grant = h.0.of_grant in
        let owner_id = first_passes (has_grant grant) gs h.0.owned in
        let owns =
          first-any-of (has_token_hash hash) (λ t. t.grant_id == owner.id) ts h.0.found
            (ground (arith, of_grant, owner_id)) in
        let stays : any (λ g. g.id == token.grant_id && gone g) gs ≡ false =
          All-any (λ g. g.id == token.grant_id && gone g) gs
            (All-All _ (λ g. keeps_owner hash token ts g h.0.found) gs) in
        let owned =
          first-select-kept (has_grant grant) (λ g. not (gone g)) gs h.0.owned
            (ground (arith, owns)) in
        (
          record {
            token = token;
            owner = owner;
            client = h.0.client;
            found = first-select-kept (has_token_hash hash) p ts h.0.found (ground (arith, stays));
            same_id = h.0.same_id;
            of_grant = of_grant;
            refreshes = h.0.refreshes;
            spent = h.0.spent;
            lives = h.0.lives;
            owned = owned;
            registered = h.0.registered;
            of_client = h.0.of_client;
          },
          record {
            tagged = h.1.tagged;
            known = (
              All-select (OfGrant grant (env.hash_token issued.access_token)) p ts h.1.known.0,
              first-any (has_grant grant) _ owned,
            );
          },
        );
  }

  pub prune_oauth-Rotated : Hoare Rotated (prune_oauth now) (λ _ d. Rotated d)
  unfolding prune_oauth
  prune_oauth-Rotated =
      Hoare-bind {A = Unit} (λ _ d. Rotated d) expired-Rotated
        λ _.
          Hoare-bind {A = Unit} (λ _ d. Rotated d) expired_tokens-Rotated
            (λ _. empty_grants-Rotated)
