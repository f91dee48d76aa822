-- ===== src/Auth/Oauth/Redirects.antt =====
-- internal/auth/oauth.go: the registration of clients and their redirect URIs.
use Prim.Native.Char.{code}
use Prim.Native.String.{String, len}
use text.Mathlib.Text.{◌==◌ as str_eq}
use trackstar.AppErr.{oauth}
use trackstar.Auth.Accounts.{AuthEnv}
use trackstar.Auth.Oauth.{OauthClient, client_of, find_client, idle_client_ttl}
use trackstar.Common.{
  Bool, List, Option, any, false, if◌then◌else◌, length, ltb, none, not, some, ℕ, ◌&&◌, ◌-◌, ◌==◌,
  ◌||◌,
}
use trackstar.Common.Int.{sub_ℕ}
use trackstar.Common.Text.{is_empty, squeeze}
use trackstar.Db.Accounts.Oauth.{create_oauth_client, delete_idle_oauth_clients}
use trackstar.Db.Tx.{Result, Tx, pure, refuse_if, ◌>>=◌, ◌>>◌}

-- What `Parse` of net/url says of a text that the code reads.
pub record Url : Type 0 where
  pub scheme : String
  pub host : String
  pub hostname : String
  pub path : String
  pub raw_query : String
  pub fragment : String
  pub has_user : Bool

-- Go's net/url and net: `Parse`, and whether `ParseIP` reads a loopback address.
pub record UrlEnv : Type 0 where
  pub parse_url : String → Option Url
  pub is_loopback_ip : String → Bool

-- `strings.Contains(raw, "#")`
pub contains_hash : String → Bool
contains_hash String.[] = false
contains_hash (String.◌∷◌ c s) = code c == 35 || contains_hash s

-- `isLoopback`
abbrev pub is_loopback : UrlEnv → String → Bool
is_loopback env host = str_eq host "localhost" || env.is_loopback_ip host

abbrev pub is_redirect_url : UrlEnv → Bool → Option Url → Bool
is_redirect_url env hash none = false
is_redirect_url env hash (some u) =
    not (is_empty u.host || not (is_empty u.fragment) || hash || u.has_user)
    && (str_eq u.scheme "https" || (str_eq u.scheme "http" && is_loopback env u.hostname))

-- `validRedirectURI`
unfoldable pub valid_redirect_uri : UrlEnv → String → Bool
unfolding contains_hash
valid_redirect_uri env raw =
    not (ltb 2000 (len raw)) && is_redirect_url env (contains_hash raw) (env.parse_url raw)

abbrev pub same_but_port : UrlEnv → Option Url → Option Url → Bool
same_but_port env (some a) (some b) =
    not (
      not (str_eq a.scheme "http")
      || not (str_eq b.scheme "http")
      || not (is_loopback env a.hostname))
    && str_eq a.hostname b.hostname
    && str_eq a.path b.path
    && str_eq a.raw_query b.raw_query
    && is_empty b.fragment
    && not b.has_user
same_but_port env a b = false

-- `redirectMatches`: the port of a loopback address may differ.
unfoldable pub redirect_matches : UrlEnv → String → String → Bool
redirect_matches env registered requested =
    str_eq registered requested
    || same_but_port env (env.parse_url registered) (env.parse_url requested)

abbrev pub any_matches : UrlEnv → String → List String → Bool
any_matches env requested uris = any (λ uri. redirect_matches env uri requested) uris

-- `ClientForRedirect`
unfoldable pub client_for_redirect : UrlEnv → String → String → Tx OauthClient
client_for_redirect env client_id redirect_uri = do
  c ← find_client client_id
  refuse_if (not (any_matches env redirect_uri c.redirect_uris)) (oauth "invalid_request")
  pure c

-- `string(r[:n])` for the runes r of a text, or the text where it has no more than n
pub first_runes : ℕ → String → String
first_runes n String.[] = String.[]
first_runes n (String.◌∷◌ c s) =
    let rest = first_runes (n - 1) s in if n == 0 then String.[] else String.◌∷◌ c rest

unfoldable pub client_title : String → String
unfolding first_runes
client_title name =
    let words = squeeze name in first_runes 100 (if is_empty words then "Unnamed client" else words)

abbrev pub bad_uris : UrlEnv → List String → Bool
bad_uris env uris =
    length uris == 0 || ltb 10 (length uris) || any (λ uri. not (valid_redirect_uri env uri)) uris

-- `RegisterClient`, with the random text of the client's id. Clients that have no connection and were
-- not used lately are deleted.
unfoldable pub register_client :
    AuthEnv → UrlEnv → Result String → ℕ → String → List String → Tx OauthClient
unfolding client_title
register_client env urls random now name uris = do
  refuse_if (bad_uris urls uris) (oauth "invalid_redirect_uri")
  client_id ← λ d. (random, d)
  delete_idle_oauth_clients (sub_ℕ now idle_client_ttl)
  row ← create_oauth_client env.engine client_id (client_title name) uris now
  pure (client_of row)
