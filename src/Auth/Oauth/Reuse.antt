-- ===== src/Auth/Oauth/Reuse.antt =====
-- Tokens of internal/auth/oauth.go that are issued for a grant, and what deleting the grant leaves.
use text.Mathlib.Text.{starts_with}
use text.Mathlib.TextPositions.{starts_with-append}
use Prim.Native.String.{String, ◌++◌ as append_text}
use trackstar.AppErr.{unauthorized_err}
use trackstar.Auth.Accounts.{AuthEnv}
use trackstar.Auth.Oauth.{
  OauthTokens, access_token_prefix, access_token_ttl, authenticate_access_token, issue_tokens,
  refresh_token_prefix, refresh_token_ttl,
}
use trackstar.Common.{
  All, Bool, Bool-cases, List, [], any, arith, false, first, inl, inr, none, not, refl, select,
  subst, sym, true, ℕ, ◌&&◌, ◌+◌, ◌==◌, ◌||◌, ◌∷◌, ◌≡◌,
}
use trackstar.Db.Accounts.Oauth.{without_grants}
use trackstar.Db.Accounts.OauthTokens.{
  create_oauth_token, get_oauth_access_token_user, has_token_hash, live_access,
}
use trackstar.Db.Rows.{Db, OauthGrantRow, OauthTokenRow, TokenKind}
use trackstar.Db.Stories.{Engine}
use trackstar.Db.Tx.{Result, err}
use trackstar.Db.Tx.Hoare.{Hoare, Hoare-bind, Hoare-pure}
use trackstar.User.Keeps.{lift_keeps}

-- A token with the given hash is of the given grant.
abbrev pub OfGrant : ℕ → String → OauthTokenRow → Type 0
OfGrant grant hash t = (has_token_hash hash t && not (t.grant_id == grant)) ≡ false

abbrev pub has_grant : ℕ → OauthGrantRow → Bool
has_grant id g = g.id == id

-- The grant is there, and every token with the given hash is of it.
abbrev pub Issued : ℕ → String → Db → Type 0
Issued grant hash d =
    All (OfGrant grant hash) d.oauth_tokens × (any (has_grant grant) d.oauth_grants ≡ true)

abbrev pub with_token_row : OauthTokenRow → Db → Db
with_token_row row d = record d { oauth_tokens = row ∷ d.oauth_tokens }

-- What a new token does not touch, its hash being new.
pub record IsStable (P : Db → Type 0) : Type 0 where
  pub at :
      (d : Db) (row : OauthTokenRow)
      → any (has_token_hash row.token_hash) d.oauth_tokens ≡ false
      → P d
      → P (with_token_row row d)

both_false : (a b : Bool) → (a || not b) ≡ false → (a ≡ false) × (b ≡ true)
both_false a b h = (ground (arith, h), ground (arith, h))

create_oauth_token-then :
    (engine : Engine) (grant : ℕ) (kind : TokenKind) (hash : String) (expires_at : ℕ)
    (P Q : Db → Type 0)
    → ((d : Db) (row : OauthTokenRow)
        → row.token_hash ≡ hash
        → row.grant_id ≡ grant
        → any (has_token_hash hash) d.oauth_tokens ≡ false
        → any (has_grant grant) d.oauth_grants ≡ true
        → P d
        → Q (with_token_row row d))
    → Hoare P (create_oauth_token engine grant kind hash expires_at) (λ _ d. Q d)
unfolding create_oauth_token
create_oauth_token-then engine grant kind hash expires_at P Q f = record {
  at = λ d h.
      elim (Bool-cases
        (any (has_token_hash hash) d.oauth_tokens || not (any (has_grant grant) d.oauth_grants))) [
          | inl bad ↦ rw bad tt
          | inr good ↦
              let (new, there) = both_false _ _ good in rw good (f d _ refl refl new there h)
        ];
}

others_differ :
    (grant : ℕ) (hash : String) (ts : List OauthTokenRow)
    → any (has_token_hash hash) ts ≡ false
    → All (OfGrant grant hash) ts
others_differ grant hash [] h = tt
others_differ grant hash (t ∷ ts) h =
    (ground (arith, h), others_differ grant hash ts (ground (arith, h)))

-- Tokens that were issued for a grant.
pub record IsIssue (env : AuthEnv) (grant : ℕ) (issued : OauthTokens) (d : Db) : Type 0 where
  pub tagged : starts_with issued.access_token access_token_prefix ≡ true
  pub known : Issued grant (env.hash_token issued.access_token) d

of_grant :
    (row : OauthTokenRow) (grant : ℕ) (hash : String)
    → row.grant_id ≡ grant
    → OfGrant grant hash row
of_grant row grant hash e = ground (arith, e)

pub issue_tokens-IsIssue :
    (env : AuthEnv) (random random' : Result String) (grant now : ℕ) (P : Db → Type 0)
    → IsStable P
    → Hoare P
        (issue_tokens env random random' grant now)
        (λ issued d. P d × IsIssue env grant issued d)
unfolding issue_tokens
issue_tokens-IsIssue env random random' grant now P stable =
    Hoare-bind (λ access d. P d) (lift_keeps P random)
      λ access.
        Hoare-bind (λ refresh d. P d) (lift_keeps P random')
          λ refresh.
            let secret = append_text access_token_prefix access in
            let hash = env.hash_token secret in
            let rotated = env.hash_token (append_text refresh_token_prefix refresh) in
            Hoare-bind {A = Unit} (λ _ d. P d × Issued grant hash d)
              (create_oauth_token-then env.engine grant TokenKind.access hash
                (now + access_token_ttl) P (λ d. P d × Issued grant hash d)
                (λ d row e g new there h. (
                  stable.at d row
                      (subst (λ (s : String). any (has_token_hash s) d.oauth_tokens ≡ false) (sym e)
                        new)
                      h,
                  ((of_grant row grant hash g, others_differ grant hash d.oauth_tokens new), there),
                )))
              λ _.
                Hoare-bind {A = Unit} (λ _ d. P d × Issued grant hash d)
                  (create_oauth_token-then env.engine grant TokenKind.refresh rotated
                    (now + refresh_token_ttl) (λ d. P d × Issued grant hash d)
                    (λ d. P d × Issued grant hash d)
                    (λ d row e g new there h. (
                      stable.at d row
                          (subst (λ (s : String). any (has_token_hash s) d.oauth_tokens ≡ false)
                            (sym e) new)
                          h.0,
                      ((of_grant row grant hash g, h.1.0), there),
                    )))
                  (λ _. Hoare-pure _ (λ d h. (
                    h.0,
                    record { tagged = starts_with-append access_token_prefix access; known = h.1 },
                  )))

-- Deleting the grant deletes its tokens.
deleted_of :
    (grant id : ℕ) (gs : List OauthGrantRow)
    → (id == grant) ≡ true
    → any (has_grant grant) gs ≡ true
    → any (λ g. g.id == id && g.id == grant) gs ≡ true
deleted_of grant id [] e h = h
deleted_of grant id (g ∷ gs) e h =
    ground (arith, e, h, λ (r : any (has_grant grant) gs ≡ true). deleted_of grant id gs e r)

deleted_all :
    (grant : ℕ) (hash : String) (gs : List OauthGrantRow) (ts : List OauthTokenRow)
    → any (has_grant grant) gs ≡ true
    → All (OfGrant grant hash) ts
    → any
        (has_token_hash hash)
        (select (λ t. not (any (λ g. g.id == t.grant_id && g.id == grant) gs)) ts)
      ≡ false
deleted_all grant hash gs [] h k = refl
deleted_all grant hash gs (t ∷ ts) h k =
    let rest = deleted_all grant hash gs ts h k.1 in
    elim (Bool-cases (t.grant_id == grant)) [
      | inl e ↦ let gone = deleted_of grant t.grant_id gs e h in ground (arith, gone, rest)
      | inr e ↦ ground (arith, k.0, e, rest)
    ]

no_access :
    (hash : String) (now : ℕ) (ts : List OauthTokenRow)
    → any (has_token_hash hash) ts ≡ false
    → first (live_access hash now) ts ≡ none
no_access hash now [] h = refl
no_access hash now (t ∷ ts) h =
    let rest = no_access hash now ts (ground (arith, h)) in ground (arith, h, rest)

-- An access token whose grant is deleted opens nothing.
pub deleted-authenticate_access_token :
    (env : AuthEnv) (later grant : ℕ) (issued : OauthTokens) (d : Db)
    → IsIssue env grant issued d
    → (authenticate_access_token env later issued.access_token
        (without_grants (has_grant grant) d)).0
      ≡ err (unauthorized_err "invalid access token")
unfolding authenticate_access_token get_oauth_access_token_user
deleted-authenticate_access_token env later grant issued d h =
    let hash = env.hash_token issued.access_token in
    let gone = deleted_all grant hash d.oauth_grants d.oauth_tokens h.known.1 h.known.0 in
    let refused = no_access hash later _ gone in
    let tagged = h.tagged in ground (arith, tagged, refused)
