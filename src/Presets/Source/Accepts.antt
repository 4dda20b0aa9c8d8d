-- ===== src/Presets/Source/Accepts.antt =====
-- Which addresses of downloads are accepted.
use aiofiles.Prelude.{
  ◌<◌, Bool, true, false, not, ◌&&◌, ◌≡◌, refl, ◌⊎◌, inl, inr, Option, none, some, List, [], ◌∷◌,
  All, any, ltb, length, ok, arith, Bool-cases, Option-cases, >>-ok, ok-injective, codes,
}
use aiofiles.Prelude.Bytes.{Bytes, same_codes, same_codes-eq, has_prefix, trim_by}
use aiofiles.Prelude.Split.{split_at}
use aiofiles.Presets.Source.{
  Address, unmap, addr_permitted, is_dns_name, starts_letter, last_label, trim_final_dot, Url,
  Lookup, check_addrs, check_name, check_source_host, check_url, is_space, validate_source_url,
}
use aiofiles.Presets.Source.Public.{IsPublic, addr_permitted-IsPublic}

addrs-IsPublic :
    (l : List Address)
    → any (λ b. not (addr_permitted b)) l ≡ false
    → All (λ (a : Address). IsPublic (unmap a)) l
addrs-IsPublic [] h = tt
addrs-IsPublic (a ∷ l) h =
    (addr_permitted-IsPublic a (ground (arith, h)), addrs-IsPublic l (ground (arith, h)))

-- What an accepted host stands for: a public address, or a name of the DNS, whose last label begins with
-- a letter, with addresses of which each is public.
abbrev pub Reaches : Lookup → Bytes → Type 0
Reaches net host =
    ((a : Address) × (net.parse_addr host ≡ some a) × IsPublic (unmap a))
    ⊎ ((l : List Address) × (net.lookup_addrs host ≡ some l)
        × (0 < length l)
        × All (λ (a : Address). IsPublic (unmap a)) l
        × (starts_letter (last_label (split_at b'.' (trim_final_dot host))) ≡ true))

check_addrs-IsPublic :
    (o : Option (List Address))
    → check_addrs o ≡ ok tt
    → (l : List Address) × (o ≡ some l)
      × (0 < length l)
      × All (λ (a : Address). IsPublic (unmap a)) l
check_addrs-IsPublic none h = absurd cc
check_addrs-IsPublic (some []) h = absurd cc
check_addrs-IsPublic (some (a ∷ l)) h =
    (a ∷ l, refl, omega arith, addrs-IsPublic (a ∷ l) (ground (arith, h)))

is_dns_name-letter :
    (host : Bytes)
    → is_dns_name host ≡ true
    → starts_letter (last_label (split_at b'.' (trim_final_dot host))) ≡ true
unfolding is_dns_name
is_dns_name-letter host h = ground arith

check_name-Reaches : (net : Lookup) (host : Bytes) → check_name net host ≡ ok tt → Reaches net host
check_name-Reaches net host h = elim (Bool-cases (is_dns_name host)) [
  | inl e ↦
      let (l, found, some_, all) = check_addrs-IsPublic (net.lookup_addrs host) (rw e at h) in
      inr (l, found, some_, all, is_dns_name-letter host e)
  | inr e ↦ absurd (cc (rw e at h))
]

check_source_host-Reaches :
    (net : Lookup) (host : Bytes) → check_source_host net host ≡ ok tt → Reaches net host
unfolding check_source_host
check_source_host-Reaches net host h = elim (Bool-cases (same_codes host [])) [
  | inl e ↦ absurd (cc (rw (e, check_source_host) at h))
  | inr e ↦ elim (Option-cases (net.parse_addr host)) [
    | inl f ↦ check_name-Reaches net host (rw (e, f, check_source_host) at h)
    | inr (a, f) ↦ elim (Bool-cases (addr_permitted a)) [
      | inl g ↦ inl (a, f, addr_permitted-IsPublic a g)
      | inr g ↦ absurd (cc (rw (e, f, g, check_source_host) at h))
    ]
  ]
]

-- What is accepted of a URL: its scheme, and where its host leads.
pub record Accepts (net : Lookup) (raw out : Bytes) (u : Url) : Type 0 where
  pub parsed : net.parse_url raw ≡ some u
  pub web : (u.scheme ≡ codes "http") ⊎ (u.scheme ≡ codes "https")
  pub reaches : Reaches net u.hostname
  pub undashed : has_prefix raw (codes "-") ≡ false
  pub same : u.text ≡ out

check_url-Accepts :
    (net : Lookup) (raw : Bytes) (u : Url) {out : Bytes}
    → net.parse_url raw ≡ some u
    → check_url net raw u ≡ ok out
    → Accepts net raw out u
check_url-Accepts net raw u parsed h =
    elim (Bool-cases
      (not (same_codes u.scheme (codes "http")) && not (same_codes u.scheme (codes "https")))) [
        | inl e ↦ absurd (cc (rw e at h))
        | inr e ↦ elim (Bool-cases (same_codes u.host [])) [
          | inl f ↦ absurd (cc (rw (e, f) at h))
          | inr f ↦ elim (Bool-cases (has_prefix raw (codes "-"))) [
            | inl g ↦ absurd (cc (rw (e, f, g) at h))
            | inr g ↦
                let (a, b) = >>-ok (check_source_host net u.hostname) _ (rw (e, f, g) at h) in
                record {
                  parsed = parsed;
                  web =
                      either (same_codes u.scheme (codes "http"))
                        (same_codes u.scheme (codes "https")) e
                        (same_codes-eq u.scheme (codes "http"))
                        (same_codes-eq u.scheme (codes "https"));
                  reaches = check_source_host-Reaches net u.hostname a;
                  undashed = g;
                  same = ok-injective b;
                }
          ]
        ]
      ]
  where
    either :
        {P Q : Type 0} (a b : Bool)
        → (not a && not b) ≡ false
        → (a ≡ true → P)
        → (b ≡ true → Q)
        → P ⊎ Q
    either true b e p q = inl (p refl)
    either false true e p q = inr (q refl)
    either false false e p q = absurd cc

-- A download is accepted only from a web address whose host is a public address, or a name whose addresses
-- are all public and whose last label begins with a letter; what is handed on is that address, and it was not
-- sent with a dash in front.
pub validate_source_url-Accepts :
    (net : Lookup) (text : Bytes) {out : Bytes}
    → validate_source_url net text ≡ ok out
    → (u : Url) × Accepts net (trim_by is_space text) out u
unfolding validate_source_url
validate_source_url-Accepts net text h =
    let raw = trim_by is_space text in
    elim (Bool-cases (same_codes raw [])) [
      | inl e ↦ absurd (cc (rw (e, validate_source_url) at h))
      | inr e ↦ elim (Bool-cases (ltb 2048 (length raw))) [
        | inl f ↦ absurd (cc (rw (e, f, validate_source_url) at h))
        | inr f ↦ elim (Option-cases (net.parse_url raw)) [
          | inl g ↦ absurd (cc (rw (e, f, g, validate_source_url) at h))
          | inr (u, g) ↦ (u, check_url-Accepts net raw u g (rw (e, f, g, validate_source_url) at h))
        ]
      ]
    ]
