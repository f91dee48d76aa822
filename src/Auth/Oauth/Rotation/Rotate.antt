-- ===== src/Auth/Oauth/Rotation/Rotate.antt =====
-- Refresh of internal/auth/oauth.go where it rotates a token.
use trackstar.Auth.Accounts.{AuthEnv}
use trackstar.Auth.Oauth.{
  OauthClient, OauthTokens, invalid_grant_err, is_refresh, issue_tokens, missing_grant, prune_oauth,
  refresh_body, rotate,
}
use trackstar.Auth.Oauth.Reuse.{IsIssue, has_grant, issue_tokens-IsIssue}
use trackstar.Auth.Oauth.Rotation.{
  IsHeld, IsHeld-IsStable, touch_oauth_client-IsHeld, use_oauth_token-IsHeld,
}
use trackstar.Auth.Oauth.Rotation.Pruned.{prune_oauth-Rotated}
use trackstar.Common.{
  Option, Option-cases, String, arith, false, first, inl, inr, is_some, leb, none, not, refl, some,
  true, ℕ, ◌==◌, ◌||◌, ◌≡◌,
}
use trackstar.Db.Accounts.Oauth.{delete_oauth_grant_by_id, has_client_id, touch_oauth_client}
use trackstar.Db.Accounts.OauthTokens.{
  get_oauth_grant_user, get_oauth_token, has_token_hash, use_oauth_token,
}
use trackstar.Db.Accounts.Users.{has_user_id}
use trackstar.Db.Rows.{Db, OauthClientRow, OauthGrantRow, OauthTokenRow}
use trackstar.Db.Tx.{Result, pure, refuse_if, ◌>>=◌, ◌>>◌}
use trackstar.Db.Tx.Hoare.{
  Hoare, Hoare-any, Hoare-bind, Hoare-if, Hoare-map_err, Hoare-pure, Hoare-refuse, Hoare-weaken,
}

-- The rows of the token and of its grant as they were read, and the client's.
record IsRead (env : AuthEnv) (client_id refresh_token : String) (client : OauthClientRow)
    (row : OauthTokenRow) (g : OauthGrantRow) (d : Db) : Type 0 where
  found : first (has_token_hash (env.hash_token refresh_token)) d.oauth_tokens ≡ some row
  owned : first (has_grant row.grant_id) d.oauth_grants ≡ some g
  registered : first (has_client_id client_id) d.oauth_clients ≡ some client

module _ (env : AuthEnv) (client_id refresh_token : String) where
  abbrev pub token_hash : String
  token_hash = env.hash_token refresh_token

  -- What a rotation leaves: the token marked as used, and the new access token of the same grant.
  pub record IsRotated (now : ℕ) (issued : OauthTokens) (d : Db) : Type 0 where
    pub id : ℕ
    pub grant : ℕ
    pub held : IsHeld token_hash client_id now id grant true d
    pub issue : IsIssue env grant issued d

  rotate_rest :
      (random random' : Result String) (now id grant : ℕ) (c : OauthClient)
      → Hoare
          (IsHeld token_hash client_id now id grant false)
          (use_oauth_token id now >>= λ n.
            refuse_if (not (n == 1)) invalid_grant_err
            >> (touch_oauth_client c.row_id now
                >> (issue_tokens env random random' grant now >>= λ issued.
                    prune_oauth now >> pure issued)))
          (λ issued d. IsRotated now issued d)
  rotate_rest random random' now id grant c =
      let held = λ (d : Db). IsHeld token_hash client_id now id grant true d in
      Hoare-bind (λ n d. held d) (use_oauth_token-IsHeld token_hash client_id now id grant)
        λ n. Hoare-refuse (not (n == 1)) invalid_grant_err λ _.
          Hoare-bind {A = Unit} (λ _ d. held d)
            (touch_oauth_client-IsHeld token_hash client_id now id grant c.row_id now)
            λ _.
              Hoare-bind (λ issued d. held d × IsIssue env grant issued d)
                (issue_tokens-IsIssue env random random' grant now held
                  (IsHeld-IsStable token_hash client_id now id grant true))
                λ issued.
                  Hoare-bind {A = Unit} (λ _ d. held d × IsIssue env grant issued d)
                    (prune_oauth-Rotated env client_id refresh_token now id grant issued)
                    (λ _.
                      Hoare-pure issued
                        (λ d h. record { id = id; grant = grant; held = h.0; issue = h.1 }))

  get_oauth_grant_user-keeps :
      (P : Db → Type 0) (id : ℕ) → Hoare P (get_oauth_grant_user id) (λ _ d. P d)
  unfolding get_oauth_grant_user
  get_oauth_grant_user-keeps P id = record {
    at = λ d h. elim (Option-cases (first (λ g. g.id == id) d.oauth_grants)) [
      | inl e ↦ rw (e, get_oauth_grant_user) tt
      | inr (g, e) ↦ elim (Option-cases (first (has_user_id g.user_id) d.users)) [
        | inl f ↦ rw (e, f, get_oauth_grant_user) tt
        | inr (u, f) ↦ rw (e, f, get_oauth_grant_user) h
      ]
    ];
  }

  rotate-IsRotated :
      (random random' : Result String) (now : ℕ) (c : OauthClient) (client : OauthClientRow)
      (row : OauthTokenRow) (g : OauthGrantRow)
      → is_refresh row.kind ≡ true
      → (g.client_id == c.row_id) ≡ true
      → c.row_id ≡ client.id
      → is_some row.used_at ≡ false
      → Hoare
          (IsRead env client_id refresh_token client row g)
          (rotate env random random' now c row)
          (λ issued d. IsRotated now issued d)
  unfolding rotate
  rotate-IsRotated random random' now c client row g refreshes own same unused =
      let read = IsRead env client_id refresh_token client row g in
      Hoare-refuse (leb row.expires_at now) invalid_grant_err λ lives.
        Hoare-bind (λ u d. read d)
          (Hoare-map_err (λ _. invalid_grant_err) (get_oauth_grant_user-keeps read row.grant_id))
          λ u. Hoare-refuse (not u.is_active) invalid_grant_err λ _.
            Hoare-weaken
              (λ d h. record {
                token = row;
                owner = g;
                client = client;
                found = h.found;
                same_id = refl;
                of_grant = refl;
                refreshes = refreshes;
                spent = unused;
                lives = lives;
                owned = h.owned;
                registered = h.registered;
                of_client = ground (arith, own, same);
              })
              (rotate_rest random random' now row.id row.grant_id c)

  -- What is known where tokens came of it.
  abbrev pub Outcome : ℕ → Option OauthTokens → Db → Type 0
  Outcome now none d = Unit
  Outcome now (some issued) d = IsRotated now issued d

  -- The client that was found, as its row.
  abbrev pub FoundClient : OauthClient → OauthClientRow → Db → Type 0
  FoundClient c client d =
      (first (has_client_id client_id) d.oauth_clients ≡ some client) × (c.row_id ≡ client.id)

  get_oauth_token-IsRead :
      (c : OauthClient) (client : OauthClientRow)
      → Hoare
          (FoundClient c client)
          (get_oauth_token token_hash)
          (λ p d. IsRead env client_id refresh_token client p.0 p.1 d)
  unfolding get_oauth_token
  get_oauth_token-IsRead c client = record {
    at = λ d h. elim (Option-cases (first (has_token_hash token_hash) d.oauth_tokens)) [
      | inl e ↦ rw (e, get_oauth_token) tt
      | inr (t, e) ↦ elim (Option-cases (first (λ g. g.id == t.grant_id) d.oauth_grants)) [
        | inl f ↦ rw (e, f, get_oauth_token) tt
        | inr (g, f) ↦
            rw (e, f, get_oauth_token) (record { found = e; owned = f; registered = h.0 })
      ]
    ];
  }

  pub refresh_body-Outcome :
      (random random' : Result String) (now : ℕ) (c : OauthClient) (client : OauthClientRow)
      → c.row_id ≡ client.id
      → Hoare
          (FoundClient c client)
          (refresh_body env random random' now c refresh_token)
          (λ issued d. Outcome now issued d)
  unfolding refresh_body
  refresh_body-Outcome random random' now c client same =
      Hoare-bind (λ p d. IsRead env client_id refresh_token client p.0 p.1 d)
        (Hoare-map_err missing_grant (get_oauth_token-IsRead c client))
        λ (row, g).
          Hoare-refuse (not (is_refresh row.kind) || not (g.client_id == c.row_id))
            invalid_grant_err
            λ good.
              Hoare-if (is_some row.used_at)
                (λ used.
                  Hoare-weaken (λ d h. tt)
                    (Hoare-bind {A = Unit} (λ _ d. Unit)
                      (Hoare-any (delete_oauth_grant_by_id row.grant_id))
                      (λ _. Hoare-pure none (λ d h. tt))))
                (λ unused.
                  Hoare-bind (λ issued d. IsRotated now issued d)
                    (rotate-IsRotated random random' now c client row g (ground (arith, good))
                      (ground (arith, good)) same unused)
                    (λ issued. Hoare-pure (some issued) (λ d h. h)))
