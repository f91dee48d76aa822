-- ===== src/Auth/Oauth/Codes.antt =====
-- A code of internal/auth/oauth.go that is presented to ExchangeCode a second time.
pub mod Replay
use mathlib.Core.Option
use trackstar.Auth.Oauth.{prune_oauth}
use trackstar.Auth.Oauth.Reuse.{IsStable}
use trackstar.Common.{
  Bool, Bool-cases, List, String, [], any, arith, false, first, first-modify-kept,
  first-select-kept, if◌then◌else◌, inl, inr, is_some, leb, modify, none, not, refl, some, subst,
  true, ℕ, ◌==◌, ◌||◌, ◌∙◌, ◌∷◌, ◌≡◌,
}
use trackstar.Db.Accounts.Oauth.{
  create_oauth_grant, delete_empty_oauth_grants, delete_expired_oauth_codes, has_client_id,
  has_code_hash, is_unused_code, points_at, touch_oauth_client, use_oauth_code, without_grants,
}
use trackstar.Db.Accounts.OauthTokens.{delete_expired_oauth_tokens}
use trackstar.Db.Accounts.Users.{has_user_id}
use trackstar.Db.Rows.{Db, OauthClientRow, OauthCodeRow, OauthGrantRow}
use trackstar.Db.Stories.{Engine}
use trackstar.Db.Tx.Hoare.{Hoare, Hoare-bind}

-- The client is registered.
abbrev pub Registered : String → Db → Type 0
Registered client_id d = any (has_client_id client_id) d.oauth_clients ≡ true

-- The code was redeemed for the grant.
pub record IsSpent (hash client_id : String) (grant : ℕ) (d : Db) : Type 0 where
  pub row : OauthCodeRow
  pub found : first (has_code_hash hash) d.oauth_codes ≡ some row
  pub used : is_some row.used_at ≡ true
  pub points : row.grant_id ≡ some grant
  pub registered : Registered client_id d

-- The code can still be redeemed, under its id.
pub record IsOpen (hash client_id : String) (id : ℕ) (d : Db) : Type 0 where
  pub row : OauthCodeRow
  pub found : first (has_code_hash hash) d.oauth_codes ≡ some row
  pub same_id : row.id ≡ id
  pub unused : is_some row.used_at ≡ false
  pub registered : Registered client_id d

pub IsSpent-IsStable :
    (hash client_id : String) (grant : ℕ) → IsStable (IsSpent hash client_id grant)
IsSpent-IsStable hash client_id grant = record {
  at = λ d row new h. record {
    row = h.row;
    found = h.found;
    used = h.used;
    points = h.points;
    registered = h.registered;
  };
}

-- A code whose grant may have been cleared.
abbrev cleared : Bool → OauthCodeRow → OauthCodeRow
cleared b k = if b then record k { grant_id = none } else k

kept_id : (b : Bool) (k : OauthCodeRow) → (cleared b k).id ≡ k.id
kept_id true k = refl
kept_id false k = refl

kept_use : (b : Bool) (k : OauthCodeRow) → is_some (cleared b k).used_at ≡ is_some k.used_at
kept_use true k = refl
kept_use false k = refl

module _ (hash client_id : String) (id : ℕ) where
  abbrev Open : Db → Type 0
  Open d = IsOpen hash client_id id d

  without_grants-IsOpen :
      (gone : OauthGrantRow → Bool) (d : Db) → Open d → Open (without_grants gone d)
  without_grants-IsOpen gone d h =
      let p = λ (k : OauthCodeRow). points_at gone d.oauth_grants k.grant_id in
      let there =
        first-modify-kept (has_code_hash hash) p (λ k. record k { grant_id = none }) d.oauth_codes
          (λ k. refl) h.found in
      record {
        row = cleared (p h.row) h.row;
        found = there;
        same_id = kept_id (p h.row) h.row ∙ h.same_id;
        unused = kept_use (p h.row) h.row ∙ h.unused;
        registered = h.registered;
      }

  pub use_oauth_code-IsSpent :
      (now grant : ℕ)
      → Hoare Open (use_oauth_code id now grant) (λ _ d. IsSpent hash client_id grant d)
  unfolding use_oauth_code
  use_oauth_code-IsSpent now grant = record {
    at = λ d h.
        let f = λ (k : OauthCodeRow). record k { used_at = some now; grant_id = some grant } in
        let there =
          first-modify-kept (has_code_hash hash) (is_unused_code id) f d.oauth_codes (λ k. refl)
            h.found in
        let hit : is_unused_code id h.row ≡ true = ground (arith, h.same_id, h.unused) in
        record {
          row = f h.row;
          found =
              subst
                (λ (b : Bool).
                  first (has_code_hash hash) (modify (is_unused_code id) f d.oauth_codes)
                  ≡ some (if b then f h.row else h.row))
                hit there;
          used = refl;
          points = refl;
          registered = h.registered;
        };
  }

-- The row of the code as it was read.
abbrev pub Presented : String → String → OauthCodeRow → Db → Type 0
Presented hash client_id row d =
    (first (has_code_hash hash) d.oauth_codes ≡ some row) × Registered client_id d

module _ (hash client_id : String) (row : OauthCodeRow) (now : ℕ)
    (unused : is_some row.used_at ≡ false) (lives : leb row.expires_at now ≡ false) where
  delete_expired_oauth_codes-IsOpen :
      Hoare
        (Presented hash client_id row)
        (delete_expired_oauth_codes now)
        (λ _ d. IsOpen hash client_id row.id d)
  unfolding delete_expired_oauth_codes
  delete_expired_oauth_codes-IsOpen = record {
    at = λ d h. record {
      row = row;
      found =
          first-select-kept (has_code_hash hash) (λ k. not (leb k.expires_at now)) d.oauth_codes h.0
            (ground (arith, lives));
      same_id = refl;
      unused = unused;
      registered = h.1;
    };
  }

  delete_expired_oauth_tokens-IsOpen :
      Hoare
        (IsOpen hash client_id row.id)
        (delete_expired_oauth_tokens now)
        (λ _ d. IsOpen hash client_id row.id d)
  unfolding delete_expired_oauth_tokens
  delete_expired_oauth_tokens-IsOpen = record {
    at = λ d h. record {
      row = h.row;
      found = h.found;
      same_id = h.same_id;
      unused = h.unused;
      registered = h.registered;
    };
  }

  delete_empty_oauth_grants-IsOpen :
      Hoare
        (IsOpen hash client_id row.id)
        delete_empty_oauth_grants
        (λ _ d. IsOpen hash client_id row.id d)
  unfolding delete_empty_oauth_grants
  delete_empty_oauth_grants-IsOpen = record {
    at = λ d h. without_grants-IsOpen hash client_id row.id _ d h;
  }

  pub prune_oauth-IsOpen :
      Hoare (Presented hash client_id row) (prune_oauth now) (λ _ d. IsOpen hash client_id row.id d)
  unfolding prune_oauth
  prune_oauth-IsOpen =
      Hoare-bind {A = Unit} (λ _ d. IsOpen hash client_id row.id d)
        delete_expired_oauth_codes-IsOpen
        λ _.
          Hoare-bind {A = Unit} (λ _ d. IsOpen hash client_id row.id d)
            delete_expired_oauth_tokens-IsOpen (λ _. delete_empty_oauth_grants-IsOpen)

pub create_oauth_grant-IsOpen :
    (engine : Engine) (hash client_id : String) (id user client now : ℕ)
    → Hoare
        (IsOpen hash client_id id)
        (create_oauth_grant engine user client now)
        (λ _ d. IsOpen hash client_id id d)
unfolding create_oauth_grant
create_oauth_grant-IsOpen engine hash client_id id user client now = record {
  at = λ d h.
      elim (Bool-cases
        (not (any (has_user_id user) d.users) || not (any (λ c. c.id == client) d.oauth_clients))) [
          | inl e ↦ rw e tt
          | inr e ↦ rw e (record {
            row = h.row;
            found = h.found;
            same_id = h.same_id;
            unused = h.unused;
            registered = h.registered;
          })
        ];
}

touched :
    (client_id : String) (id now : ℕ) (cs : List OauthClientRow)
    → any
        (has_client_id client_id)
        (modify (λ c. c.id == id) (λ c. record c { last_used_at = some now }) cs)
      ≡ any (has_client_id client_id) cs
touched client_id id now [] = refl
touched client_id id now (c ∷ cs) = ground (arith, touched client_id id now cs)

pub touch_oauth_client-IsSpent :
    (hash client_id : String) (grant id now : ℕ)
    → Hoare
        (IsSpent hash client_id grant)
        (touch_oauth_client id now)
        (λ _ d. IsSpent hash client_id grant d)
unfolding touch_oauth_client
touch_oauth_client-IsSpent hash client_id grant id now = record {
  at = λ d h. record {
    row = h.row;
    found = h.found;
    used = h.used;
    points = h.points;
    registered = touched client_id id now d.oauth_clients ∙ h.registered;
  };
}
