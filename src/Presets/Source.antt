-- ===== src/Presets/Source.antt =====
-- internal/presets/presets.go: the address of a download. The packages net/url and net/netip and the DNS
-- resolver are parameters; the ranges of addresses are as their documentation has them.
pub mod Public
pub mod Accepts
use aiofiles.Prelude.{
  ℕ, zero, suc, ◌+◌, ◌-◌, ◌*◌, ◌/◌, ◌%◌, ◌^◌, Bool, true, false, not, ◌&&◌, ◌||◌, Option, none,
  some, List, [], ◌∷◌, any, ◌==◌, leb, ltb, if◌then◌else◌, length, codes, str_eq, String, Result,
  ok, err, ◌>>=◌, ◌>>◌, refuse_if,
}
use aiofiles.Prelude.Bytes.{Bytes, same_codes, has_prefix, trim_by, end_with}
use aiofiles.Prelude.Split.{split_at}
use aiofiles.Presets.Checks.{Checked, invalid, passes, says}

-- `netip.Addr`: the zero value, and the two families with their numbers; the second has a zone.
pub data Address : Type 0 where
  nowhere : Address
  v4 : ℕ → Address
  v6 : ℕ → Bytes → Address

-- A block of addresses: its first one and the bits that are common.
pub data Block : Type 0 where
  block4 block6 : ℕ → ℕ → Block

abbrev pub quad : ℕ → ℕ → ℕ → ℕ → ℕ
quad a b c d = ((a * 256 + b) * 256 + c) * 256 + d

-- `Prefix.Contains`, of an address without a zone.
abbrev pub contains : Block → Address → Bool
contains (block4 base bits) (v4 n) = n / 2 ^ (32 - bits) == base / 2 ^ (32 - bits)
contains (block6 base bits) (v6 n z) = n / 2 ^ (128 - bits) == base / 2 ^ (128 - bits)
contains _ _ = false

abbrev pub blocked_prefixes : List Block
blocked_prefixes =
    block4 (quad 0 0 0 0) 8
    ∷ block4 (quad 10 0 0 0) 8
    ∷ block4 (quad 100 64 0 0) 10
    ∷ block4 (quad 127 0 0 0) 8
    ∷ block4 (quad 169 254 0 0) 16
    ∷ block4 (quad 172 16 0 0) 12
    ∷ block4 (quad 192 0 0 0) 24
    ∷ block4 (quad 192 168 0 0) 16
    ∷ block4 (quad 198 18 0 0) 15
    ∷ block4 (quad 240 0 0 0) 4
    ∷ block6 0 96
    ∷ block6 (6619035 * 2 ^ 96) 96
    ∷ block6 (252 * 2 ^ 120) 7
    ∷ []

-- An IPv4 address in the form of IPv6 is the IPv4 address; `Unmap` and `WithZone("")`.
unfoldable pub unmap : Address → Address
unmap nowhere = nowhere
unmap (v4 n) = v4 n
unmap (v6 n z) = if n / 2 ^ 32 == 65535 then v4 (n % 2 ^ 32) else v6 n []

abbrev is_loopback : Address → Bool
is_loopback nowhere = false
is_loopback (v4 n) = n / 2 ^ 24 == 127
is_loopback (v6 n z) = n == 1

abbrev is_unspecified : Address → Bool
is_unspecified nowhere = false
is_unspecified (v4 n) = n == 0
is_unspecified (v6 n z) = n == 0

abbrev pub is_multicast : Address → Bool
is_multicast nowhere = false
is_multicast (v4 n) = n / 2 ^ 28 == 14
is_multicast (v6 n z) = n / 2 ^ 120 == 255

abbrev pub is_link_local : Address → Bool
is_link_local nowhere = false
is_link_local (v4 n) = n / 2 ^ 16 == quad 0 0 169 254
is_link_local (v6 n z) = n / 2 ^ 118 == 1018

abbrev is_broadcast : Address → Bool
is_broadcast (v4 n) = n == 2 ^ 32 - 1
is_broadcast _ = false

abbrev is_global_unicast : Address → Bool
is_global_unicast nowhere = false
is_global_unicast a =
    not (is_broadcast a)
    && (not (is_unspecified a)
        && (not (is_loopback a) && (not (is_multicast a) && not (is_link_local a))))

abbrev is_private : Address → Bool
is_private nowhere = false
is_private (v4 n) =
    n / 2 ^ 24 == 10 || (n / 2 ^ 20 == quad 0 0 10 193 || n / 2 ^ 16 == quad 0 0 192 168)
is_private (v6 n z) = n / 2 ^ 121 == 126

-- The multicast groups of a link and of an interface, which are among the multicast ones.
abbrev is_local_group : Address → Bool
is_local_group nowhere = false
is_local_group (v4 n) = n / 2 ^ 8 == quad 0 224 0 0
is_local_group (v6 n z) = n / 2 ^ 120 == 255 && (n / 2 ^ 112 % 16 == 2 || n / 2 ^ 112 % 16 == 1)

-- `addrPermitted` of a valid address behind `Unmap`.
abbrev pub plain_permitted : Address → Bool
plain_permitted a =
    if not (is_global_unicast a)
      || (is_private a
          || (is_loopback a
              || (is_unspecified a || (is_multicast a || (is_link_local a || is_local_group a)))))
    then false
    else not (any (λ b. contains b a) blocked_prefixes)

abbrev pub is_valid : Address → Bool
is_valid nowhere = false
is_valid _ = true

unfoldable pub addr_permitted : Address → Bool
unfolding unmap
addr_permitted a = if not (is_valid a) then false else plain_permitted (unmap a)

abbrev pub is_letter : ℕ → Bool
is_letter c = (leb b'a' c && leb c b'z') || (leb b'A' c && leb c b'Z')

abbrev pub is_label_byte : ℕ → Bool
is_label_byte c = is_letter c || ((leb b'0' c && leb c b'9') || (c == b'-' || c == b'_'))

abbrev pub is_label : Bytes → Bool
is_label l = not (same_codes l [] || ltb 63 (length l)) && not (any (λ c. not (is_label_byte c)) l)

abbrev pub starts_letter : Bytes → Bool
starts_letter [] = false
starts_letter (c ∷ l) = is_letter c

abbrev pub last_label : List Bytes → Bytes
last_label [] = []
last_label (l ∷ []) = l
last_label (l ∷ m ∷ ls) = last_label (m ∷ ls)

-- `strings.TrimSuffix(host, ".")`
abbrev pub trim_final_dot : Bytes → Bytes
trim_final_dot [] = []
trim_final_dot (c ∷ []) = if c == b'.' then [] else c ∷ []
trim_final_dot (c ∷ d ∷ s) = c ∷ trim_final_dot (d ∷ s)

unfoldable pub is_dns_name : Bytes → Bool
unfolding split_at
is_dns_name name =
    let host = trim_final_dot name in
    let labels = split_at b'.' host in
    if same_codes host [] || ltb 253 (length host)
    then false
    else if any (λ l. not (is_label l)) labels
    then false
    else starts_letter (last_label labels)

-- What the checks ask of the standard library: `url.Parse` with the parts of its result, `netip.ParseAddr`, and
-- the resolver.
pub record Url : Type 0 where
  pub scheme : Bytes
  pub host : Bytes
  pub hostname : Bytes
  pub text : Bytes

pub record Lookup : Type 0 where
  pub parse_url : Bytes → Option Url
  pub parse_addr : Bytes → Option Address
  pub lookup_addrs : Bytes → Option (List Address)

abbrev not_public : Checked (Unit {0})
not_public = invalid "url" (
    says
      "must point at a public internet address - loopback, link-local, multicast and private or LAN addresses are refused")

abbrev pub check_addrs : Option (List Address) → Checked (Unit {0})
check_addrs none = invalid "url" (says "hostname could not be resolved")
check_addrs (some []) = invalid "url" (says "hostname could not be resolved")
check_addrs (some (a ∷ more)) =
    if any (λ b. not (addr_permitted b)) (a ∷ more) then not_public else passes

abbrev pub check_name : Lookup → Bytes → Checked (Unit {0})
check_name net host =
    if not (is_dns_name host)
    then invalid "url" (says "hostname is not valid")
    else check_addrs (net.lookup_addrs host)

unfoldable pub check_source_host : Lookup → Bytes → Checked (Unit {0})
check_source_host net host =
    if same_codes host []
    then invalid "url" (says "is missing a hostname")
    else elim (net.parse_addr host) [
      | some a ↦ if not (addr_permitted a) then not_public else passes
      | none ↦ check_name net host
    ]

-- The white space of ASCII; `strings.TrimSpace` removes more of Unicode's.
abbrev pub is_space : ℕ → Bool
is_space c = c == b' ' || (leb 9 c && leb c 13)

abbrev pub check_url : Lookup → Bytes → Url → Checked Bytes
check_url net raw u =
    if not (same_codes u.scheme (codes "http")) && not (same_codes u.scheme (codes "https"))
    then invalid "url" (says "must start with http:// or https://")
    else if same_codes u.host []
    then invalid "url" (says "is missing a hostname")
    else if has_prefix raw (codes "-")
    then invalid "url" (says "must not start with a dash")
    else check_source_host net u.hostname >> ok u.text

unfoldable pub validate_source_url : Lookup → Bytes → Checked Bytes
unfolding check_source_host trim_by
validate_source_url net text =
    let raw = trim_by is_space text in
    if same_codes raw []
    then invalid "url" (says "is required")
    else if ltb 2048 (length raw)
    then invalid "url" (says "is too long")
    else elim (net.parse_url raw) [
      | none ↦ invalid "url" (says "is not a valid URL")
      | some u ↦ check_url net raw u
    ]
