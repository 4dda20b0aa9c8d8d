-- ===== src/Settings/Hosts.antt =====
-- internal/config/config.go: parseHosts and parsePrefixes, which read ALLOWED_HOSTS and TRUSTED_PROXIES.
use aiofiles.Prelude.{
  ℕ, Bool, true, false, not, ◌&&◌, ◌||◌, ◌≡◌, refl, ◌⊎◌, inl, inr, Option, none, some, List, [],
  ◌∷◌, ◌++◌, All, any, ◌==◌, leb, if◌then◌else◌, codes, take, length, ◌-◌, arith, Bool-cases,
  some_injective,
}
use mathlib.Core.Path.{subst}
use aiofiles.Prelude.Bytes.{Bytes, same_codes, has_byte, has_prefix, has_suffix, trim_by}
use aiofiles.Prelude.Split.{split_at}

-- The white space of ASCII; `strings.TrimSpace` removes more of Unicode's.
abbrev pub is_space : ℕ → Bool
is_space c = c == b' ' || (leb 9 c && leb c 13)

-- `strings.TrimPrefix(host, "*.")`
abbrev pub host_body : Bytes → Bytes
host_body [] = []
host_body (c ∷ []) = c ∷ []
host_body (c ∷ d ∷ s) = if c == b'*' && d == b'.' then s else c ∷ d ∷ s

-- The bytes of `"*:/@[] "`.
abbrev pub is_foreign : ℕ → Bool
is_foreign c = has_byte c (codes "*:/@[] ")

abbrev pub bad_host : (Bytes → Bool) → Bytes → Bool
bad_host bracketed body = not (bracketed body) && (same_codes body [] || any is_foreign body)

-- What the loop does with the fields that are left: the hosts so far are in front, unless a star comes. A bad
-- field behind a star is not read.
unfoldable pub read_hosts :
    (Bytes → Bytes) → (Bytes → Bool) → List Bytes → List Bytes → Option (List Bytes)
unfolding trim_by
read_hosts lower bracketed acc [] = some acc
read_hosts lower bracketed acc (field ∷ fields) =
    let host = lower (trim_by is_space field) in
    let skip = read_hosts lower bracketed acc fields in
    let more = read_hosts lower bracketed (acc ++ host ∷ []) fields in
    if same_codes host []
    then skip
    else if same_codes host (codes "*")
    then some (codes "*" ∷ [])
    else if bad_host bracketed (host_body host)
    then none
    else more

-- The functions of net/netip: `ParsePrefix` with `Masked`, `ParseAddr`, `Is6`, and `PrefixFrom` of all bits of
-- an unmapped address.
pub record NetIp (Addr Prefix : Type 0) : Type 0 where
  pub parse_prefix : Bytes → Option Prefix
  pub parse_addr : Bytes → Option Addr
  pub is_6 : Addr → Bool
  pub whole : Addr → Prefix

-- `host[1:len(host)-1]`, of a text with a first and a last byte.
abbrev inner : Bytes → Bytes
inner [] = []
inner (c ∷ s) = take (length s - 1) s

module _ {Addr Prefix : Type 0} (net : NetIp Addr Prefix) where
  abbrev six : Option Addr → Bool
  six none = false
  six (some a) = net.is_6 a

  unfoldable pub is_bracketed_ipv6 : Bytes → Bool
  unfolding has_suffix
  is_bracketed_ipv6 host =
      if not (has_prefix host (codes "[")) || not (has_suffix host (codes "]"))
      then false
      else six (net.parse_addr (inner host))

  abbrev one_prefix : Option Prefix → Option Addr → Option Prefix
  one_prefix (some p) a = some p
  one_prefix none none = none
  one_prefix none (some a) = some (net.whole a)

  abbrev with_prefix : Option Prefix → Option (List Prefix) → Option (List Prefix)
  with_prefix (some p) (some ps) = some (p ∷ ps)
  with_prefix _ _ = none

  unfoldable pub read_prefixes : List Bytes → Option (List Prefix)
  unfolding trim_by
  read_prefixes [] = some []
  read_prefixes (f ∷ fields) =
      let field = trim_by is_space f in
      let rest = read_prefixes fields in
      if same_codes field []
      then rest
      else with_prefix (one_prefix (net.parse_prefix field) (net.parse_addr field)) rest

  unfoldable pub parse_prefixes : Bytes → Option (List Prefix)
  unfolding read_prefixes split_at
  parse_prefixes s = read_prefixes (split_at b',' s)

unfoldable pub parse_hosts : (Bytes → Bytes) → (Bytes → Bool) → Bytes → Option (List Bytes)
unfolding split_at read_hosts
parse_hosts lower bracketed s = read_hosts lower bracketed [] (split_at b',' s)

-- An entry of the list of hosts that can match: a lone star, or a text that is not empty behind "*." and, unless it is
-- an IPv6 address in brackets, holds no star, port, path, user, bracket or space there.
abbrev pub IsEntry : (Bytes → Bool) → Bytes → Type 0
IsEntry bracketed h =
    (same_codes h (codes "*") ≡ true)
    ⊎ ((bracketed (host_body h) ≡ true)
        ⊎ ((same_codes (host_body h) [] ≡ false) × (any is_foreign (host_body h) ≡ false)))

IsEntry-append :
    (bracketed : Bytes → Bool) (acc : List Bytes) (h : Bytes)
    → All (IsEntry bracketed) acc
    → IsEntry bracketed h
    → All (IsEntry bracketed) (acc ++ h ∷ [])
IsEntry-append bracketed [] h a k = (k, tt)
IsEntry-append bracketed (x ∷ acc) h (a, as_) k = (a, IsEntry-append bracketed acc h as_ k)

read_hosts-IsEntry :
    (lower : Bytes → Bytes) (bracketed : Bytes → Bool) (acc fields : List Bytes)
    {hosts : List Bytes}
    → All (IsEntry bracketed) acc
    → read_hosts lower bracketed acc fields ≡ some hosts
    → All (IsEntry bracketed) hosts
unfolding read_hosts
read_hosts-IsEntry lower bracketed acc [] a h = subst (All (IsEntry bracketed)) (some_injective h) a
read_hosts-IsEntry lower bracketed acc (field ∷ fields) a h =
    let host = lower (trim_by is_space field) in
    elim (Bool-cases (same_codes host [])) [
      | inl e ↦ read_hosts-IsEntry lower bracketed acc fields a (rw (e, read_hosts) at h)
      | inr e ↦ elim (Bool-cases (same_codes host (codes "*"))) [
        | inl f ↦
            subst (All (IsEntry bracketed)) (some_injective (rw (e, f, read_hosts) at h))
              (inl refl, tt)
        | inr f ↦ elim (Bool-cases (bad_host bracketed (host_body host))) [
          | inl g ↦ absurd (cc (rw (e, f, g, read_hosts) at h))
          | inr g ↦
              read_hosts-IsEntry lower bracketed (acc ++ host ∷ []) fields
                (IsEntry-append bracketed acc host a (inr (kept (bracketed (host_body host)) g)))
                (rw (e, f, g, read_hosts) at h)
        ]
      ]
    ]
  where
    kept :
        {a c : Bool} (b : Bool)
        → (not b && (a || c)) ≡ false
        → (b ≡ true) ⊎ ((a ≡ false) × (c ≡ false))
    kept true h = inl refl
    kept false h = inr (ground arith)

pub parse_hosts-IsEntry :
    (lower : Bytes → Bytes) (bracketed : Bytes → Bool) (s : Bytes) {hosts : List Bytes}
    → parse_hosts lower bracketed s ≡ some hosts
    → All (IsEntry bracketed) hosts
unfolding parse_hosts
parse_hosts-IsEntry lower bracketed s h =
    read_hosts-IsEntry lower bracketed [] (split_at b',' s) tt h
