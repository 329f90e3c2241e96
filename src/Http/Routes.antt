-- ===== src/Http/Routes.antt =====
-- Proxies, redirects and upgrades in jac/js_engine/engine/src/builtins/js/http_core.js. `parse_proxy` is
-- what the function does where URL is undefined or throws.
pub mod Redirect
use jaseci.Prelude.{
  ℕ, zero, suc, ◌+◌, ◌-◌, Bool, true, false, not, ◌&&◌, ◌||◌, List, [], ◌∷◌, ◌++◌, map, reverse,
  Option, none, some, ltb, ◌==◌, if◌then◌else◌, Str, codes, length, take, drop, split, str_eq,
  starts_with, to_lower_case, index_of, last_index_of, index_of_text,
}
use jaseci.Numerals.{trim, Numeric, integer, other, to_number}
use jaseci.Http.Headers.{Entry, shown}
use jaseci.Http.Objects.{get}

-- `s.endsWith(pattern)`
unfoldable pub ends_with : Str → Str → Bool
unfolding starts_with
ends_with pattern s = starts_with (reverse pattern) (reverse s)

-- `pat.charAt(0) === "." ? pat.substring(1) : pat`
unfoldable pub without_dot : Str → Str
without_dot [] = []
without_dot (c ∷ s) = if c == b'.' then s else c ∷ s

-- A round of the loop of `shouldBypassProxy`, for an entry in small letters without a dot in front.
unfoldable pub matches_entry : Str → Str → Bool
unfolding ends_with str_eq
matches_entry host [] = str_eq host [] || ends_with (codes ".") host
matches_entry host (c ∷ s) =
    if c == b'*'
    then ends_with s host || str_eq host (drop 1 s)
    else str_eq host (c ∷ s) || ends_with (b'.' ∷ c ∷ s) host

unfoldable pub matches_any : Str → List Str → Bool
unfolding trim to_lower_case without_dot matches_entry
matches_any host [] = false
matches_any host (entry ∷ entries) =
    let pattern = to_lower_case (trim entry) in
    let rest = matches_any host entries in
    if length pattern == 0 then rest else matches_entry host (without_dot pattern) || rest

-- `shouldBypassProxy(hostname, noProxy)`; a value that is missing is the empty string
unfoldable pub should_bypass_proxy : Str → Str → Bool
unfolding str_eq to_lower_case split matches_any
should_bypass_proxy hostname [] = false
should_bypass_proxy hostname (c ∷ no_proxy) =
    if str_eq (c ∷ no_proxy) (codes "*")
    then true
    else matches_any (to_lower_case hostname) (split b',' (c ∷ no_proxy))

-- `proxyEnv`; a variable that is missing or empty is the empty string
pub record ProxyEnv : Type 0 where
  pub http_upper : Str
  pub https_upper : Str
  pub no_upper : Str
  pub http_lower : Str
  pub https_lower : Str
  pub no_lower : Str

-- `a || b` on strings
unfoldable pub or : Str → Str → Str
or [] b = b
or (c ∷ a) b = c ∷ a

unfoldable pub normalize_proxy_env : ProxyEnv → ProxyEnv
unfolding or
normalize_proxy_env env = record env {
  http_upper = or env.http_upper env.http_lower;
  https_upper = or env.https_upper env.https_lower;
  no_upper = or env.no_upper env.no_lower;
}

-- `resolveProxyUrl`; the result null is the empty string
unfoldable pub resolve_proxy_url : Bool → ProxyEnv → Str → Str
unfolding or should_bypass_proxy
resolve_proxy_url is_https env hostname =
    if should_bypass_proxy hostname (or env.no_upper env.no_lower)
    then []
    else if is_https
    then or env.https_upper env.https_lower
    else or env.http_upper env.http_lower

unfoldable pub default_port : Str → ℕ
unfolding str_eq
default_port protocol = if str_eq protocol (codes "https:") then 443 else 80

-- `isUpgradeRequest`; `none` is a missing header
unfoldable pub is_upgrade_request : List (Str × Entry) → Bool
unfolding get to_lower_case index_of_text
is_upgrade_request headers = elim (get headers (codes "upgrade")) [
  | none ↦ false
  | some upgrade ↦
      if length (shown upgrade) == 0 then false else elim (get headers (codes "connection")) [
        | none ↦ false
        | some connection ↦
            if length (shown connection) == 0
            then false
            else elim (index_of_text (codes "upgrade") (to_lower_case (shown connection))) [
              | none ↦ false
              | some i ↦ true
            ]
      ]
]

pub record Location : Type 0 where
  pub protocol : Str
  pub host : Str
  pub port : ℕ
  pub path : Str

-- `prefix`: the path up to its last slash
unfoldable pub prefix_of : Str → Str
unfolding or last_index_of
prefix_of path =
    let dir = or path (codes "/") in
    let end = last_index_of dir b'/' in if end == 0 then codes "/" else take end dir

-- A location that is no URL; `base` has the path of the request.
unfoldable pub resolve_path : ℕ → Str → Location → Location
unfolding prefix_of
resolve_path c location base =
    if c == b'/'
    then record base { path = c ∷ location }
    else record base { path = prefix_of base.path ++ (c ∷ location) }

-- What is read of a URL; `port` is empty or has digits only, `search` may be empty.
pub record Url : Type 0 where
  pub protocol : Str
  pub hostname : Str
  pub port : Str
  pub pathname : Str
  pub search : Str

-- `Number(abs.port) || defaultPortForProtocol(abs.protocol)`
unfoldable pub port_or : Numeric → Str → ℕ
unfolding default_port
port_or (integer (suc n)) protocol = suc n
port_or _ protocol = default_port protocol

unfoldable pub of_url : Url → Location
unfolding port_or to_number
of_url u = record {
  protocol = u.protocol;
  host = u.hostname;
  port = port_or (to_number u.port) u.protocol;
  path = u.pathname ++ u.search;
}

-- `location.indexOf("://") !== -1`
unfoldable pub has_scheme : Str → Bool
unfolding index_of_text
has_scheme location = elim (index_of_text (codes "://") location) [ none ↦ false | some i ↦ true ]

-- `resolveRedirectLocation`. `url` is what `new URL` makes of a text, `none` where it throws or where
-- there is no URL.
unfoldable pub redirect : (Str → Option Url) → Str → Location → Option Location
unfolding has_scheme of_url resolve_path
redirect url [] base = none
redirect url (c ∷ location) base =
    if has_scheme (c ∷ location)
    then elim (url (c ∷ location)) [
      | some u ↦ some (of_url u)
      | none ↦ some (resolve_path c location base)
    ]
    else some (resolve_path c location base)

unfoldable pub is_redirect_status : ℕ → Bool
is_redirect_status code = code == 301 || code == 302 || code == 303 || code == 307 || code == 308
