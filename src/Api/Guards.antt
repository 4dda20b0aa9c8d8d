-- ===== src/Api/Guards.antt =====
-- internal/api/middleware.go: which requests reach a handler; and the matching of names of
-- internal/config/config.go. `parse_url` is what net/url makes of an origin: its scheme, its host and
-- its host's name, or nothing.
pub mod Names
pub mod Barrier
use aiofiles.Prelude.{
  ℕ, zero, suc, String, Bool, true, false, not, ◌&&◌, ◌||◌, Option, none, some, List, [], ◌∷◌, any,
  ltb, length, ◌==◌, if◌then◌else◌, str_eq, codes,
}
use aiofiles.Prelude.Bytes.{same_codes, has_suffix}
use aiofiles.Proxy.{Net, Request, from_proxy, request_hostname, request_origin}
use Prim.Native.String
use Prim.Native.Char.{code}

-- One pattern of ALLOWED_HOSTS, both texts as their code points.
unfoldable pub matches_host : List ℕ → List ℕ → Bool
unfolding has_suffix
matches_host [] host = same_codes [] host
matches_host (s ∷ []) host = s == b'*' || same_codes (s ∷ []) host
matches_host (s ∷ dot ∷ d) host =
    if s == b'*' && dot == b'.'
    then ltb (length (dot ∷ d)) (length host) && has_suffix host (dot ∷ d)
    else same_codes (s ∷ dot ∷ d) host

unfoldable pub host_allowed : List String → String → Bool
unfolding matches_host
host_allowed [] host = true
host_allowed (p ∷ l) host = any (λ q. matches_host (codes q) (codes host)) (p ∷ l)

pub data Verdict : Type 0 where
  passes rejected : Verdict

-- `proxy_only` and `allowed_hosts` of the configuration.
pub record HostRules : Type 0 where
  pub proxy_only : Bool
  pub allowed_hosts : List String

abbrev is_empty : List String → Bool
is_empty [] = true
is_empty (h ∷ l) = false

trim_open : String → String
trim_open String.[] = String.[]
trim_open (String.◌∷◌ c s) = if code c == b'[' then s else String.◌∷◌ c s

trim_close : String → String
trim_close String.[] = String.[]
trim_close (String.◌∷◌ c s) =
    if code c == b']' && str_eq s "" then String.[] else String.◌∷◌ c (trim_close s)

pub record Url : Type 0 where
  pub scheme : String
  pub host : String
  pub hostname : String

abbrev pub safe_method : String → Bool
safe_method m = str_eq m "GET" || str_eq m "HEAD" || str_eq m "OPTIONS"

module _ {Addr Prefix : Type 0} (net : Net Addr Prefix) (prefixes : List Prefix) where
  unfoldable pub is_ip_literal : String → Bool
  unfolding trim_open trim_close
  is_ip_literal host = elim (net.parse_addr (trim_close (trim_open host))) [
    | none ↦ false
    | some a ↦ true
  ]

  -- `hostMW`
  unfoldable pub host_guard : HostRules → Request → Verdict
  unfolding is_ip_literal host_allowed
  host_guard rules r =
      if not rules.proxy_only && is_empty rules.allowed_hosts
      then passes
      else if str_eq r.path "/api/health"
      then passes
      else (let host = request_hostname net prefixes r in
          if rules.proxy_only && not (from_proxy net prefixes r)
          then rejected
          else if rules.proxy_only && (str_eq host "" || is_ip_literal host)
          then rejected
          else if host_allowed rules.allowed_hosts host
          then passes
          else rejected)

  unfoldable pub same_origin : (String → Option Url) → Request → Bool
  same_origin parse_url r =
      if str_eq r.fetch_site "same-origin" || str_eq r.fetch_site "none"
      then true
      else if str_eq r.origin ""
      then true
      else elim (parse_url r.origin) [
        | none ↦ false
        | some u ↦
            if str_eq u.host ""
            then false
            else (let (scheme, host) = request_origin net prefixes r in
                net.equal_fold u.scheme scheme && net.equal_fold u.hostname host)
      ]

  -- `originMW`
  unfoldable pub origin_guard : (String → Option Url) → Request → Verdict
  unfolding same_origin
  origin_guard parse_url r =
      if safe_method r.method then passes else if same_origin parse_url r then passes else rejected
