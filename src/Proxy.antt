-- ===== src/Proxy.antt =====
-- internal/proxy/proxy.go: which forwarding headers are believed. What net/netip, net and net/url
-- compute, and the case mappings of strings, are the fields of `Net`.
pub mod Chain
use aiofiles.Prelude.{
  ℕ, zero, suc, String, Bool, true, false, not, ◌&&◌, ◌||◌, Option, none, some, List, [], ◌∷◌, ◌++◌,
  any, ltb, leb, ◌==◌, if◌then◌else◌, str_eq,
}
use Prim.Native.String.{◌++◌ as ◌<>◌}
use Prim.Native.String
use Prim.Native.Char.{code}

-- `netip.ParseAddr`, `Addr.Unmap`, `Addr.String`, `Prefix.Contains`, the host of `net.SplitHostPort`,
-- the `Hostname` of a URL with the given host, `strings.ToLower` and `strings.EqualFold`.
pub record Net (Addr Prefix : Type 0) : Type 0 where
  pub parse_addr : String → Option Addr
  pub unmap : Addr → Addr
  pub addr_text : Addr → String
  pub contains : Prefix → Addr → Bool
  pub split_host : String → Option String
  pub url_hostname : String → String
  pub lower : String → String
  pub equal_fold : String → String → Bool

-- The parts of a request that are read; a header that is not there is the empty text.
pub record Request : Type 0 where
  pub remote_addr : String
  pub tls : Bool
  pub host : String
  pub forwarded_for : List String
  pub forwarded_proto : String
  pub forwarded_host : String
  pub real_ip : String
  pub method : String
  pub path : String
  pub fetch_site : String
  pub origin : String

-- The white space of `unicode.IsSpace`.
abbrev is_space : ℕ → Bool
is_space c =
    (leb 9 c && leb c 13)
    || c == 32
    || c == 133
    || c == 160
    || c == 5760
    || (leb 8192 c && leb c 8202)
    || c == 8232
    || c == 8233
    || c == 8239
    || c == 8287
    || c == 12288

trim_left : String → String
trim_left String.[] = String.[]
trim_left (String.◌∷◌ c s) = if is_space (code c) then trim_left s else String.◌∷◌ c s

-- A space is dropped when nothing but spaces comes after it.
trim_right : String → String
trim_right String.[] = String.[]
trim_right (String.◌∷◌ c s) =
    let rest = trim_right s in
    if is_space (code c) && str_eq rest "" then String.[] else String.◌∷◌ c rest

unfoldable pub trim_space : String → String
unfolding trim_left trim_right
trim_space s = trim_right (trim_left s)

-- The first field of a text split at the commas, and the others.
split_fields : String → String × List String
split_fields String.[] = (String.[], [])
split_fields (String.◌∷◌ c s) =
    let (field, fields) = split_fields s in
    if code c == b',' then (String.[], field ∷ fields) else (String.◌∷◌ c field, fields)

unfoldable pub split_commas : String → List String
unfolding split_fields
split_commas s = (split_fields s).0 ∷ (split_fields s).1

unfoldable pub first_value : String → String
unfolding split_fields trim_space
first_value header = trim_space (split_fields header).0

unfoldable pub keep_hops : List String → List String
unfolding trim_space
keep_hops [] = []
keep_hops (part ∷ l) =
    if str_eq (trim_space part) "" then keep_hops l else trim_space part ∷ keep_hops l

-- `forwardedFor`, of the values of the header.
unfoldable pub forwarded_hops : List String → List String
unfolding keep_hops split_commas
forwarded_hops [] = []
forwarded_hops (v ∷ l) = keep_hops (split_commas v) ++ forwarded_hops l

-- `hops[len(hops)-1]` and down: the last entry comes first.
unfoldable pub backwards : List String → List String
backwards [] = []
backwards (h ∷ l) = backwards l ++ h ∷ []

has_colon : String → Bool
has_colon String.[] = false
has_colon (String.◌∷◌ c s) = code c == b':' || has_colon s

module _ {Addr Prefix : Type 0} (net : Net Addr Prefix) where
  unfoldable pub hostname : String → String
  unfolding has_colon
  hostname host =
      let h = net.url_hostname host in net.lower (if has_colon h then "[" <> (h <> "]") else h)

  unfoldable pub peer_ip : Request → String
  peer_ip r = elim (net.split_host r.remote_addr) [ none ↦ r.remote_addr | some host ↦ host ]

  -- `New` puts the loopback prefixes before the configured ones.
  abbrev pub new_trust : List Prefix → List Prefix → List Prefix
  new_trust loopback extra = loopback ++ extra

  unfoldable pub trusted : List Prefix → String → Bool
  unfolding trim_space
  trusted prefixes ip = elim (net.parse_addr (trim_space ip)) [
    | none ↦ false
    | some a ↦ any (λ p. net.contains p (net.unmap a)) prefixes
  ]

  unfoldable pub from_proxy : List Prefix → Request → Bool
  unfolding peer_ip trusted
  from_proxy prefixes r = trusted prefixes (peer_ip r)

  -- The loop of `ClientIP`, over the hops from the last to the first.
  unfoldable pub walk : List Prefix → List String → Option String
  unfolding trusted
  walk prefixes [] = none
  walk prefixes (hop ∷ l) = elim (net.parse_addr hop) [
    | none ↦ walk prefixes l
    | some a ↦
        if trusted prefixes (net.addr_text a)
        then walk prefixes l
        else some (net.addr_text (net.unmap a))
  ]

  unfoldable pub client_ip : List Prefix → Request → String
  unfolding peer_ip trusted walk forwarded_hops backwards trim_space
  client_ip prefixes r =
      if not (trusted prefixes (peer_ip r))
      then peer_ip r
      else elim (walk prefixes (backwards (forwarded_hops r.forwarded_for))) [
        | some ip ↦ ip
        | none ↦ if str_eq (trim_space r.real_ip) "" then peer_ip r else trim_space r.real_ip
      ]

  unfoldable pub is_https : List Prefix → Request → Bool
  unfolding from_proxy first_value
  is_https prefixes r =
      r.tls || (from_proxy prefixes r && net.equal_fold (first_value r.forwarded_proto) "https")

  unfoldable pub request_hostname : List Prefix → Request → String
  unfolding from_proxy first_value hostname
  request_hostname prefixes r = hostname (
      if from_proxy prefixes r && not (str_eq (first_value r.forwarded_host) "")
      then first_value r.forwarded_host
      else r.host)

  unfoldable pub request_origin : List Prefix → Request → String × String
  unfolding is_https request_hostname
  request_origin prefixes r =
      (if is_https prefixes r then "https" else "http", request_hostname prefixes r)
