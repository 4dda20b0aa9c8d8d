-- ===== src/Examples/Web.antt =====
-- The limiter, the guards and the sweeper at concrete inputs.
use aiofiles.Prelude.{
  ◌+◌, ◌-◌, ◌*◌, ◌≤◌, String, true, false, ◌≡◌, refl, Option, none, some, List, [], ◌∷◌, ◌++◌,
  str_eq, arith, if◌then◌else◌,
}
use aiofiles.Proxy.{
  Net, Request, trusted, peer_ip, walk, backwards, forwarded_hops, keep_hops, split_commas,
  trim_space, client_ip, from_proxy, request_origin,
}
use aiofiles.Proxy.Chain.{client_ip-forged}
use aiofiles.Api.ProbeLimit.{
  Gate, begin, then_step, takes, new_gate, take_token, probe_interval, probe_burst, max_probe_slots,
}
use aiofiles.Api.ProbeLimit.Rate.{rate_bound}
use aiofiles.Api.Guards.{HostRules, Url, host_guard, origin_guard}
use aiofiles.Api.Guards.Barrier.{guards-unforgeable}

-- An address is its text, a prefix the one address in it; `junk` is no address.
abbrev net : Net String String
net = record {
  parse_addr = λ s. if str_eq s "junk" then none else some s;
  unmap = λ a. a;
  addr_text = λ a. a;
  contains = λ p a. str_eq p a;
  split_host = λ s. some s;
  url_hostname = λ s. s;
  lower = λ s. s;
  equal_fold = λ s t. str_eq s t;
}

abbrev request : Request
request = record {
  remote_addr = "127.0.0.1";
  tls = false;
  host = "box";
  forwarded_for = "9.9.9.9, 127.0.0.1" ∷ [];
  forwarded_proto = "https";
  forwarded_host = "junk";
  real_ip = "";
  method = "POST";
  path = "/api/jobs";
  fetch_site = "cross-site";
  origin = "http://evil";
}

abbrev loopback : List String
loopback = "127.0.0.1" ∷ []

client_ip-forged_example :
    client_ip net loopback (record request {
      forwarded_for = ("6.6.6.6" ∷ []) ++ request.forwarded_for;
      real_ip = "7.7.7.7";
    })
    ≡ "9.9.9.9"
unfolding trusted peer_ip walk forwarded_hops backwards trim_space keep_hops split_commas
client_ip-forged_example =
    client_ip-forged net loopback request ("6.6.6.6" ∷ []) "7.7.7.7" refl refl

abbrev direct : Request
direct = record request { remote_addr = "5.5.5.5" }

abbrev rules : HostRules
rules = record { proxy_only = true; allowed_hosts = "junk" ∷ [] }

abbrev parse_url : String → Option Url
parse_url s = some (record { scheme = "http"; host = "evil"; hostname = "evil" })

guards-unforgeable_example :
    let r = record direct {
      forwarded_for = "1.1.1.1" ∷ [];
      forwarded_proto = "http";
      forwarded_host = "a";
      real_ip = "b";
    } in
    (client_ip net loopback r ≡ client_ip net loopback direct)
    × (request_origin net loopback r ≡ request_origin net loopback direct)
    × (host_guard net loopback rules r ≡ host_guard net loopback rules direct)
    × (origin_guard net loopback parse_url r ≡ origin_guard net loopback parse_url direct)
unfolding from_proxy trusted peer_ip trim_space
guards-unforgeable_example =
    guards-unforgeable net loopback rules parse_url direct ("1.1.1.1" ∷ []) "http" "a" "b" refl

rate_bound_example :
    let g : Gate = record (new_gate 2 0) {
      limiter = (take_token 5 (new_gate 2 0).limiter).0;
      holding = 1;
    } in
    (probe_interval * g.granted ≤ probe_burst + (g.limiter.last - 0))
    × (g.limiter.slots ≤ max_probe_slots)
    × (1 ≤ 2 → g.limiter.slots ≤ 2)
unfolding take_token
rate_bound_example = rate_bound 2 0 (then_step begin (takes (new_gate 2 0) 5 (omega arith) refl))
