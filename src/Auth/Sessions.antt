-- ===== src/Auth/Sessions.antt =====
-- Sessions of internal/auth/auth.go, from StartSession to Authenticate and Logout.
use text.Mathlib.Text.{◌==◌ as str_eq}
use text.Mathlib.TextEquality.{eq_iff}
use trackstar.AppErr.{unauthorized_err}
use trackstar.Auth.Accounts.{AuthEnv, authenticate, logout, session_row, session_ttl, start_session}
use trackstar.Common.{
  Bool, Bool-cases, List, String, [], any, arith, false, first, if◌then◌else◌, inl, inr, leb, ltb,
  none, not, refl, select, some, subst, sym, true, ℕ, ◌&&◌, ◌+◌, ◌∙◌, ◌∷◌, ◌≡◌,
}
use trackstar.Common.Text.{is_empty}
use trackstar.Db.Accounts.Users.{
  create_session, delete_expired_sessions, delete_session, get_session_user, has_user_id,
  live_session,
}
use trackstar.Db.Rows.{Db, SessionRow, UserRow}
use trackstar.Db.Tx.{Result, err, ok, ◌>>=◌}
use trackstar.Db.Tx.Keeps.{runs_then}
use trackstar.User.{User, user_of}

abbrev same_hash : String → SessionRow → Bool
same_hash hash s = str_eq s.token_hash hash

abbrev active_user : ℕ → UserRow → Bool
active_user id u = has_user_id id u && u.is_active

-- What `Authenticate` says of a session that ends at the given time.
abbrev pub until : ℕ → ℕ → UserRow → Result User
until ends now u = if ltb now ends then ok (user_of u) else err (unauthorized_err "not signed in")

none_live :
    (hash : String) (now : ℕ) (ss : List SessionRow)
    → any (same_hash hash) ss ≡ false
    → first (live_session hash now) ss ≡ none
none_live hash now [] h = refl
none_live hash now (s ∷ ss) h =
    let rest = none_live hash now ss (ground (arith, h)) in ground (arith, h, rest)

swept_has :
    (hash : String) (now : ℕ) (ss : List SessionRow)
    → any (same_hash hash) ss ≡ false
    → any (same_hash hash) (select (λ s. not (leb s.expires_at now)) ss) ≡ false
swept_has hash now [] h = refl
swept_has hash now (s ∷ ss) h =
    let rest = swept_has hash now ss (ground (arith, h)) in ground (arith, h, rest)

pub active_known :
    (id : ℕ) (u : UserRow) (us : List UserRow)
    → first (active_user id) us ≡ some u
    → any (has_user_id id) us ≡ true
active_known id u [] h = absurd (ground (arith, h))
active_known id u (x ∷ us) h = elim (Bool-cases (has_user_id id x)) [
  | inl e ↦ ground (arith, e)
  | inr e ↦ let rest = active_known id u us (ground (arith, e, h)) in ground (arith, e, rest)
]

-- The database after a session was started.
abbrev pub signed_in : AuthEnv → ℕ → ℕ → String → Db → Db
signed_in env now user token d = record d {
  sessions = session_row env now user token ∷ select (λ s. not (leb s.expires_at now)) d.sessions;
}

pub start_session-runs :
    (env : AuthEnv) (now user : ℕ) (token : String) (d : Db)
    → any (has_user_id user) d.users ≡ true
    → any (same_hash (env.hash_token token)) d.sessions ≡ false
    → start_session env (ok token) now user d ≡ (ok token, signed_in env now user token d)
unfolding start_session create_session delete_expired_sessions
start_session-runs env now user token d known new =
    let clear = swept_has (env.hash_token token) now d.sessions new in ground (arith, clear, known)

authenticate-new :
    (env : AuthEnv) (later : ℕ) (token : String) (u : UserRow) (s : SessionRow)
    (ss : List SessionRow) (d : Db)
    → d.sessions ≡ s ∷ ss
    → s.token_hash ≡ env.hash_token token
    → first (active_user s.user_id) d.users ≡ some u
    → any (same_hash (env.hash_token token)) ss ≡ false
    → is_empty token ≡ false
    → (authenticate env later token d).0 ≡ until s.expires_at later u
unfolding authenticate get_session_user
authenticate-new env later token u s ss d e h found clear full =
    let old = none_live (env.hash_token token) later ss clear in
    let same : str_eq s.token_hash (env.hash_token token) ≡ true = (eq_iff _ _).1 h in
    elim (Bool-cases (ltb later s.expires_at)) [
      | inl live ↦ ground (arith, e, full, same, live, found)
      | inr over ↦ ground (arith, e, full, same, over, old)
    ]

-- `StartSession` signs an active user in: with the token it returns, `Authenticate` answers with the
-- user until the session's time to live is over and refuses from then on, where no other session has
-- the hash of the token.
pub start_session-authenticate :
    (env : AuthEnv) (now later user : ℕ) (token : String) (u : UserRow) (d : Db)
    → first (λ x. has_user_id user x && x.is_active) d.users ≡ some u
    → any (λ s. str_eq s.token_hash (env.hash_token token)) d.sessions ≡ false
    → is_empty token ≡ false
    → ((start_session env (ok token) now user >>= authenticate env later) d).0
      ≡ until (now + session_ttl) later u
start_session-authenticate env now later user token u d found new full =
    let hash = env.hash_token token in
    let known = active_known user u d.users found in
    let clear = swept_has hash now d.sessions new in
    let ran =
      runs_then (start_session env (ok token) now user) (authenticate env later) d
        (start_session-runs env now user token d known new) in
    (λ i. (ran i).0)
    ∙ authenticate-new env later token u (session_row env now user token) _
        (signed_in env now user token d) refl refl found clear full

after_logout :
    (hash : String) (now : ℕ) (ss : List SessionRow)
    → first (live_session hash now) (select (λ s. not (str_eq s.token_hash hash)) ss) ≡ none
after_logout hash now [] = refl
after_logout hash now (s ∷ ss) = ground (arith, after_logout hash now ss)

still_live :
    (gone hash : String) (now : ℕ) (ss : List SessionRow)
    → str_eq gone hash ≡ false
    → first (live_session hash now) (select (λ s. not (str_eq s.token_hash gone)) ss)
      ≡ first (live_session hash now) ss
still_live gone hash now [] h = refl
still_live gone hash now (s ∷ ss) h = elim (Bool-cases (str_eq s.token_hash gone)) [
  | inl e ↦
      let differs : str_eq s.token_hash hash ≡ false =
        subst (λ (x : String). str_eq x hash ≡ false) (sym ((eq_iff _ _).0 e)) h in
      ground (arith, e, differs, still_live gone hash now ss h)
  | inr e ↦ ground (arith, e, still_live gone hash now ss h)
]

-- `Logout` ends the session of its token and no other: `Authenticate` refuses the token afterwards,
-- and answers as before for every token that has another hash.
pub logout-authenticate :
    (env : AuthEnv) (now : ℕ) (token other : String) (d : Db)
    → is_empty token ≡ false
    → str_eq (env.hash_token token) (env.hash_token other) ≡ false
    → ((authenticate env now token (logout env token d).1).0
        ≡ err (unauthorized_err "not signed in"))
      × ((authenticate env now other (logout env token d).1).0 ≡ (authenticate env now other d).0)
unfolding authenticate logout get_session_user delete_session
logout-authenticate env now token other d full apart = (
  ground (arith, full, after_logout (env.hash_token token) now d.sessions),
  ground
      (arith, full, still_live (env.hash_token token) (env.hash_token other) now d.sessions apart),
)
