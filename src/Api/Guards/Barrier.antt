-- ===== src/Api/Guards/Barrier.antt =====
-- What the guards take from a peer that is not a trusted proxy, and from one that is.
use aiofiles.Prelude.{
  String, false, ◌&&◌, ◌≡◌, refl, Option, some, List, str_eq, arith, Option-cases, inl, inr,
}
use aiofiles.Proxy.{
  Net, Request, from_proxy, peer_ip, client_ip, is_https, request_hostname, request_origin,
}
use aiofiles.Api.Guards.{
  HostRules, Url, rejected, host_guard, same_origin, origin_guard, safe_method,
}

module _ {Addr Prefix : Type 0} (net : Net Addr Prefix) (prefixes : List Prefix) where
  origin_guard-forged :
      (parse_url : String → Option Url) (r : Request) (chain : List String)
      (proto name real : String)
      → let r' = record r {
        forwarded_for = chain;
        forwarded_proto = proto;
        forwarded_host = name;
        real_ip = real;
      } in
        request_origin net prefixes r' ≡ request_origin net prefixes r
        → origin_guard net prefixes parse_url r' ≡ origin_guard net prefixes parse_url r
  unfolding origin_guard same_origin
  origin_guard-forged parse_url r chain proto name real h =
      elim (Option-cases (parse_url r.origin)) [
        | inl e ↦ ground arith
        | inr (u, e) ↦ ground (arith, h)
      ]

  -- Whatever a peer that is not a trusted proxy writes into the four forwarding headers, the address it
  -- is counted under, the origin it is compared with and the verdicts of both guards stay the same.
  pub guards-unforgeable :
      (rules : HostRules) (parse_url : String → Option Url) (r : Request) (chain : List String)
      (proto name real : String)
      → from_proxy net prefixes r ≡ false
      → let r' = record r {
        forwarded_for = chain;
        forwarded_proto = proto;
        forwarded_host = name;
        real_ip = real;
      } in
        (client_ip net prefixes r' ≡ client_ip net prefixes r)
        × (request_origin net prefixes r' ≡ request_origin net prefixes r)
        × (host_guard net prefixes rules r' ≡ host_guard net prefixes rules r)
        × (origin_guard net prefixes parse_url r' ≡ origin_guard net prefixes parse_url r)
  unfolding client_ip request_origin is_https request_hostname from_proxy peer_ip host_guard
      origin_guard same_origin
  guards-unforgeable rules parse_url r chain proto name real h = (
    rw h refl,
    rw h refl,
    rw h refl,
    origin_guard-forged parse_url r chain proto name real (rw h refl),
  )

  -- A request that changes state and that a browser sends for a page of another site is refused: it has
  -- an origin, the browser does not call it same-origin or its own, and the origin's scheme or name is
  -- not the one the request came under.
  pub origin_guard-refuses :
      (parse_url : String → Option Url) (r : Request) {u : Url}
      → safe_method r.method ≡ false
      → str_eq r.fetch_site "same-origin" ≡ false
      → str_eq r.fetch_site "none" ≡ false
      → str_eq r.origin "" ≡ false
      → parse_url r.origin ≡ some u
      → (net.equal_fold u.scheme (request_origin net prefixes r).0
          && net.equal_fold u.hostname (request_origin net prefixes r).1)
        ≡ false
      → origin_guard net prefixes parse_url r ≡ rejected
  unfolding origin_guard same_origin
  origin_guard-refuses parse_url r m s n o e apart = ground arith
