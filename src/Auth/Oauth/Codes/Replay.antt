-- ===== src/Auth/Oauth/Codes/Replay.antt =====
-- ExchangeCode of internal/auth/oauth.go with one code twice.
-- Tokens were issued, and the code was spent on their grant.
use trackstar.AppErr.{unauthorized_err}
use trackstar.Auth.Accounts.{AuthEnv}
use trackstar.Auth.Oauth.{
  Exchange, OauthClient, OauthTokens, authenticate_access_token, bad_redemption, client_of,
  delete_grant_of, exchange_body, exchange_code, find_client, invalid_grant_err, issue_tokens,
  missing_grant, redeem_code, unknown_client, unless_reused,
}
use trackstar.Auth.Oauth.Codes.{
  IsOpen, IsSpent, IsSpent-IsStable, Presented, Registered, create_oauth_grant-IsOpen,
  prune_oauth-IsOpen, touch_oauth_client-IsSpent, use_oauth_code-IsSpent,
}
use trackstar.Auth.Oauth.Reuse.{
  IsIssue, deleted-authenticate_access_token, has_grant, issue_tokens-IsIssue,
}
use trackstar.Common.{
  All-any, Option, Option-cases, String, arith, false, first, first-any, first-eq-none, inl, inr,
  is_some, leb, none, not, some, subst, sym, ℕ, ◌==◌, ◌∙◌, ◌≡◌,
}
use trackstar.Db.Accounts.{get_user}
use trackstar.Db.Accounts.Oauth.{
  delete_oauth_grant_by_id, get_oauth_client, get_oauth_code, has_client_id, has_code_hash,
  touch_oauth_client, use_oauth_code, without_grants,
}
use trackstar.Db.Accounts.Users.{has_user_id}
use trackstar.Db.Rows.{Db, OauthCodeRow}
use trackstar.Db.Tx.{err, in_tx, ok, refuse_if, ◌>>=◌, ◌>>◌}
use trackstar.Db.Tx.Hoare.{
  Hoare, Hoare-any, Hoare-bind, Hoare-if, Hoare-map_err, Hoare-post, Hoare-pure, Hoare-refuse,
  Hoare-weaken, OkPost,
}
use trackstar.Db.Tx.Keeps.{Hoare-in_tx}
use trackstar.User.Keeps.{found_user}

record IsRedeemed (env : AuthEnv) (hash client_id : String) (issued : OauthTokens) (d : Db)
    : Type 0 where
  grant : ℕ
  spent : IsSpent hash client_id grant d
  issue : IsIssue env grant issued d

get_user-Presented :
    (hash client_id : String) (row : OauthCodeRow) (id : ℕ)
    → Hoare (Presented hash client_id row) (get_user id) (λ _ d. Presented hash client_id row d)
get_user-Presented hash client_id row id =
    Hoare-post (λ u d. Presented hash client_id row d × (first (has_user_id id) d.users ≡ some u))
      (λ u d h. h.0) (found_user (Presented hash client_id row) id)

good_expiry :
    (digest : String → String) (now : ℕ) (c : OauthClient) (x : Exchange) (row : OauthCodeRow)
    → bad_redemption digest now c x row ≡ false
    → leb row.expires_at now ≡ false
good_expiry digest now c x row h = ground (arith, h)

spending :
    (env : AuthEnv) (now : ℕ) (c : OauthClient) (client_id : String) (x : Exchange) (id grant : ℕ)
    → Hoare
        (IsOpen (env.hash_token x.code) client_id id)
        (use_oauth_code id now grant >>= λ n.
          refuse_if (not (n == 1)) invalid_grant_err
          >> (touch_oauth_client c.row_id now >> issue_tokens env x.random x.random' grant now))
        (λ issued d. IsRedeemed env (env.hash_token x.code) client_id issued d)
spending env now c client_id x id grant =
    let hash = env.hash_token x.code in
    Hoare-bind (λ n d. IsSpent hash client_id grant d)
      (use_oauth_code-IsSpent hash client_id id now grant)
      λ n. Hoare-refuse (not (n == 1)) invalid_grant_err λ _.
        Hoare-bind {A = Unit} (λ _ d. IsSpent hash client_id grant d)
          (touch_oauth_client-IsSpent hash client_id grant c.row_id now)
          λ _.
            Hoare-post (λ issued d. IsSpent hash client_id grant d × IsIssue env grant issued d)
              (λ issued d h. record { grant = grant; spent = h.0; issue = h.1 })
              (issue_tokens-IsIssue env x.random x.random' grant now (IsSpent hash client_id grant)
                (IsSpent-IsStable hash client_id grant))

redeem_code-IsRedeemed :
    (env : AuthEnv) (digest : String → String) (now : ℕ) (c : OauthClient) (client_id : String)
    (x : Exchange) (row : OauthCodeRow)
    → is_some row.used_at ≡ false
    → Hoare
        (Presented (env.hash_token x.code) client_id row)
        (redeem_code env digest now c x row)
        (λ issued d. IsRedeemed env (env.hash_token x.code) client_id issued d)
unfolding redeem_code
redeem_code-IsRedeemed env digest now c client_id x row unused =
    let hash = env.hash_token x.code in
    Hoare-refuse (bad_redemption digest now c x row) invalid_grant_err λ good.
      Hoare-bind (λ u d. Presented hash client_id row d)
        (Hoare-map_err (λ _. invalid_grant_err) (get_user-Presented hash client_id row row.user_id))
        λ u. Hoare-refuse (not u.is_active) invalid_grant_err λ _.
          Hoare-bind {A = Unit} (λ _ d. IsOpen hash client_id row.id d)
            (prune_oauth-IsOpen hash client_id row now unused (good_expiry digest now c x row good))
            λ _.
              Hoare-bind (λ grant d. IsOpen hash client_id row.id d)
                (create_oauth_grant-IsOpen env.engine hash client_id row.id row.user_id c.row_id
                  now)
                (λ grant. spending env now c client_id x row.id grant.id)

-- What is known of the database where tokens came of it.
abbrev Outcome : AuthEnv → String → String → Option OauthTokens → Db → Type 0
Outcome env hash client_id none d = Unit
Outcome env hash client_id (some issued) d = IsRedeemed env hash client_id issued d

get_oauth_code-Presented :
    (hash client_id : String)
    → Hoare (Registered client_id) (get_oauth_code hash) (λ row d. Presented hash client_id row d)
unfolding get_oauth_code
get_oauth_code-Presented hash client_id = record {
  at = λ d h. elim (Option-cases (first (has_code_hash hash) d.oauth_codes)) [
    | inl missing ↦ rw missing tt
    | inr found ↦ rw found.1 (found.1, h)
  ];
}

exchange_body-Outcome :
    (env : AuthEnv) (digest : String → String) (now : ℕ) (c : OauthClient) (client_id : String)
    (x : Exchange)
    → Hoare
        (Registered client_id)
        (exchange_body env digest now c x)
        (λ issued d. Outcome env (env.hash_token x.code) client_id issued d)
unfolding exchange_body
exchange_body-Outcome env digest now c client_id x =
    let hash = env.hash_token x.code in
    Hoare-bind (λ row d. Presented hash client_id row d)
      (Hoare-map_err missing_grant (get_oauth_code-Presented hash client_id))
      λ row.
        Hoare-if (is_some row.used_at)
          (λ used.
            Hoare-weaken (λ d h. tt)
              (Hoare-bind {A = Unit} (λ _ d. Unit) (Hoare-any (delete_grant_of row.grant_id))
                (λ _. Hoare-pure none (λ d h. tt))))
          (λ unused.
            Hoare-bind (λ issued d. IsRedeemed env hash client_id issued d)
              (redeem_code-IsRedeemed env digest now c client_id x row unused)
              (λ issued. Hoare-pure (some issued) (λ d h. h)))

get_oauth_client-Registered :
    (client_id : String)
    → Hoare (λ d. Unit) (get_oauth_client client_id) (λ c d. Registered client_id d)
unfolding get_oauth_client
get_oauth_client-Registered client_id = record {
  at = λ d h. elim (Option-cases (first (has_client_id client_id) d.oauth_clients)) [
    | inl missing ↦ rw missing tt
    | inr found ↦ rw found.1 (first-any (has_client_id client_id) d.oauth_clients found.1)
  ];
}

find_client-Registered :
    (client_id : String) → Hoare (λ d. Unit) (find_client client_id) (λ c d. Registered client_id d)
unfolding find_client
find_client-Registered client_id =
    Hoare-bind (λ c d. Registered client_id d)
      (Hoare-map_err unknown_client (get_oauth_client-Registered client_id))
      (λ row. Hoare-pure (client_of row) (λ d h. h))

unless_reused-IsRedeemed :
    (env : AuthEnv) (hash client_id : String) (issued : Option OauthTokens)
    → Hoare
        (Outcome env hash client_id issued)
        (unless_reused issued)
        (λ tokens d. IsRedeemed env hash client_id tokens d)
unless_reused-IsRedeemed env hash client_id none = record { at = λ d h. tt }
unless_reused-IsRedeemed env hash client_id (some issued) = record { at = λ d h. h }

exchange_code-IsRedeemed :
    (env : AuthEnv) (digest : String → String) (now : ℕ) (client_id : String) (x : Exchange)
    → Hoare
        (λ d. Unit)
        (exchange_code env digest now client_id x)
        (λ issued d. IsRedeemed env (env.hash_token x.code) client_id issued d)
unfolding exchange_code
exchange_code-IsRedeemed env digest now client_id x =
    let hash = env.hash_token x.code in
    Hoare-bind (λ c d. Registered client_id d) (find_client-Registered client_id)
      λ c.
        Hoare-bind (λ issued d. Outcome env hash client_id issued d)
          (Hoare-in_tx (λ issued d. Outcome env hash client_id issued d)
            (exchange_body-Outcome env digest now c client_id x))
          (λ issued. unless_reused-IsRedeemed env hash client_id issued)

replay-runs :
    (env : AuthEnv) (digest : String → String) (later grant : ℕ) (client_id : String) (x : Exchange)
    (d : Db)
    → IsSpent (env.hash_token x.code) client_id grant d
    → exchange_code env digest later client_id x d
      ≡ (err invalid_grant_err, without_grants (has_grant grant) d)
unfolding exchange_code exchange_body find_client get_oauth_client get_oauth_code
    delete_oauth_grant_by_id in_tx
replay-runs env digest later grant client_id x d h =
    elim (Option-cases (first (has_client_id client_id) d.oauth_clients)) [
      | inl e ↦
          let missing =
            All-any (has_client_id client_id) d.oauth_clients
              (first-eq-none (has_client_id client_id) d.oauth_clients e) in
          absurd (ground (arith, missing, h.registered))
      | inr (c, e) ↦ ground (arith, e, h.found, h.used, h.points)
    ]

-- An authorization code is good for one exchange, and a second one is taken for a leak. Where
-- `ExchangeCode` has given out tokens for a code, the same client presenting the same code again
-- right after, with any redirect URI and verifier and at any time, gets no tokens, and the access
-- token given out before stands for nobody any more.
pub exchange_code_once :
    (env : AuthEnv) (digest : String → String) (now later after : ℕ) (client_id : String)
    (x y : Exchange) (issued : OauthTokens) (d d' : Db)
    → exchange_code env digest now client_id x d ≡ (ok issued, d')
    → y.code ≡ x.code
    → let (result, final) = exchange_code env digest later client_id y d' in
      (result ≡ err invalid_grant_err)
      × ((authenticate_access_token env after issued.access_token final).0
          ≡ err (unauthorized_err "invalid access token"))
exchange_code_once env digest now later after client_id x y issued d d' first_time same =
    let redeemed : IsRedeemed env (env.hash_token x.code) client_id issued d' =
      subst (OkPost (λ tokens s. IsRedeemed env (env.hash_token x.code) client_id tokens s))
        first_time ((exchange_code-IsRedeemed env digest now client_id x).at d tt) in
    let spent : IsSpent (env.hash_token y.code) client_id redeemed.grant d' =
      subst (λ (s : String). IsSpent (env.hash_token s) client_id redeemed.grant d') (sym same)
        redeemed.spent in
    let replay = replay-runs env digest later redeemed.grant client_id y d' spent in
    (
      (λ i. (replay i).0),
      (λ i. (authenticate_access_token env after issued.access_token (replay i).1).0)
          ∙ deleted-authenticate_access_token env after redeemed.grant issued d' redeemed.issue,
    )
