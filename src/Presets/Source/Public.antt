-- ===== src/Presets/Source/Public.antt =====
-- The public addresses, by their ranges.
use aiofiles.Prelude.{
  ℕ, ◌+◌, ◌-◌, ◌*◌, ◌/◌, ◌%◌, ◌^◌, ◌≤◌, ◌<◌, true, false, ◌≡◌, refl, ◌⊎◌, inl, inr, [], any, ◌==◌,
  arith, Bool-cases, dec_lt,
}
use native.Mathlib.Nat.{div-eq_of_lt-le}
use aiofiles.Presets.Source.{
  Address, nowhere, v4, v6, quad, unmap, plain_permitted, addr_permitted, is_multicast,
  is_link_local, blocked_prefixes, contains,
}

-- A number outside a closed range.
abbrev Outside : ℕ → ℕ → ℕ → Type 0
Outside lo hi n = (n < lo) ⊎ (hi < n)

-- The IPv4 addresses that are public: none of this network, of the private ranges, of shared address space, of loopback, of
-- link-local addresses, of protocol assignments, of benchmarking, of multicast or reserved.
abbrev Public4 : ℕ → Type 0
Public4 n =
    Outside (quad 0 0 0 0) (quad 0 255 255 255) n
    × Outside (quad 10 0 0 0) (quad 10 255 255 255) n
    × Outside (quad 100 64 0 0) (quad 100 127 255 255) n
    × Outside (quad 127 0 0 0) (quad 127 255 255 255) n
    × Outside (quad 169 254 0 0) (quad 169 254 255 255) n
    × Outside (quad 172 16 0 0) (quad 172 31 255 255) n
    × Outside (quad 192 0 0 0) (quad 192 0 0 255) n
    × Outside (quad 192 168 0 0) (quad 192 168 255 255) n
    × Outside (quad 198 18 0 0) (quad 198 19 255 255) n
    × Outside (quad 224 0 0 0) (quad 255 255 255 255) n

-- The IPv6 addresses that are public: none whose first 96 bits are zero, none of NAT64, none that is unique local, link-local or multicast.
abbrev Public6 : ℕ → Type 0
Public6 n =
    (2 ^ 32 ≤ n)
    × Outside (6619035 * 2 ^ 96) (6619035 * 2 ^ 96 + 2 ^ 32 - 1) n
    × Outside (252 * 2 ^ 120) (254 * 2 ^ 120 - 1) n
    × Outside (1018 * 2 ^ 118) (1019 * 2 ^ 118 - 1) n
    × Outside (255 * 2 ^ 120) (256 * 2 ^ 120 - 1) n

abbrev pub IsPublic : Address → Type 0
IsPublic nowhere = ⊥
IsPublic (v4 n) = Public4 n
IsPublic (v6 n z) = Public6 n

outside :
    (n lo hi width q : ℕ)
    → (n / width == q) ≡ false
    → q * width ≡ lo
    → hi < lo + width
    → 0 < width
    → Outside lo hi n
outside n lo hi width q h k l pos =
    let apart : n / width ≡ q → Outside lo hi n = λ e. absurd (ground arith) in
    elim (dec_lt n lo) [
      | yes below ↦ inl below
      | no from ↦ elim (dec_lt hi n) [
        | yes above ↦ inr above
        | no to ↦
            let e : n / width ≡ q =
              div-eq_of_lt-le {k = q} width {m = n} (omega arith) (grind arith) in
            apart e
      ]
    ]

-- What the tests of `addrPermitted` exclude.
permitted-blocks :
    (a : Address)
    → plain_permitted a ≡ true
    → (is_multicast a ≡ false)
      × (is_link_local a ≡ false)
      × (any (λ b. contains b a) blocked_prefixes ≡ false)
permitted-blocks a h = ground arith

-- The quotients that the blocks of IPv4 compare.
record Apart4 (n : ℕ) : Type 0 where
  pub this : (n / 2 ^ 24 == 0) ≡ false
  pub ten : (n / 2 ^ 24 == 10) ≡ false
  pub shared : (n / 2 ^ 22 == quad 0 0 1 145) ≡ false
  pub loop : (n / 2 ^ 24 == 127) ≡ false
  pub protocol : (n / 2 ^ 8 == quad 0 192 0 0) ≡ false
  pub bench : (n / 2 ^ 17 == quad 0 0 99 9) ≡ false
  pub twelve : (n / 2 ^ 20 == quad 0 0 10 193) ≡ false
  pub home : (n / 2 ^ 16 == quad 0 0 192 168) ≡ false
  pub reserved : (n / 2 ^ 28 == 15) ≡ false

blocks-Apart4 : (n : ℕ) → any (λ b. contains b (v4 n)) blocked_prefixes ≡ false → Apart4 n
blocks-Apart4 n h = ground arith

permitted4 : (n : ℕ) → plain_permitted (v4 n) ≡ true → Public4 n
permitted4 n h =
    let (multicast, link, blocks) = permitted-blocks (v4 n) h in
    let b = blocks-Apart4 n blocks in
    (
      outside n (quad 0 0 0 0) (quad 0 255 255 255) (2 ^ 24) 0 b.this refl (omega arith)
          (omega arith),
      outside n (quad 10 0 0 0) (quad 10 255 255 255) (2 ^ 24) 10 b.ten refl (omega arith)
          (omega arith),
      outside n (quad 100 64 0 0) (quad 100 127 255 255) (2 ^ 22) (quad 0 0 1 145) b.shared refl
          (omega arith) (omega arith),
      outside n (quad 127 0 0 0) (quad 127 255 255 255) (2 ^ 24) 127 b.loop refl (omega arith)
          (omega arith),
      outside n (quad 169 254 0 0) (quad 169 254 255 255) (2 ^ 16) (quad 0 0 169 254) link refl
          (omega arith) (omega arith),
      outside n (quad 172 16 0 0) (quad 172 31 255 255) (2 ^ 20) (quad 0 0 10 193) b.twelve refl
          (omega arith) (omega arith),
      outside n (quad 192 0 0 0) (quad 192 0 0 255) (2 ^ 8) (quad 0 192 0 0) b.protocol refl
          (omega arith) (omega arith),
      outside n (quad 192 168 0 0) (quad 192 168 255 255) (2 ^ 16) (quad 0 0 192 168) b.home refl
          (omega arith) (omega arith),
      outside n (quad 198 18 0 0) (quad 198 19 255 255) (2 ^ 17) (quad 0 0 99 9) b.bench refl
          (omega arith) (omega arith),
      beyond
          (outside n (quad 224 0 0 0) (quad 239 255 255 255) (2 ^ 28) 14 multicast refl
            (omega arith) (omega arith))
          (outside n (quad 240 0 0 0) (quad 255 255 255 255) (2 ^ 28) 15 b.reserved refl
            (omega arith) (omega arith)),
    )
  where
    beyond :
        Outside (quad 224 0 0 0) (quad 239 255 255 255) n
        → Outside (quad 240 0 0 0) (quad 255 255 255 255) n
        → Outside (quad 224 0 0 0) (quad 255 255 255 255) n
    beyond (inl a) q = inl a
    beyond (inr a) (inl b) = absurd (omega arith)
    beyond (inr a) (inr b) = inr b

record Apart6 (n : ℕ) : Type 0 where
  pub zeros : (n / 2 ^ 32 == 0) ≡ false
  pub nat64 : (n / 2 ^ 32 == 6619035 * 2 ^ 64) ≡ false
  pub local : (n / 2 ^ 121 == 126) ≡ false

blocks-Apart6 : (n : ℕ) → any (λ b. contains b (v6 n [])) blocked_prefixes ≡ false → Apart6 n
blocks-Apart6 n h = ground arith

permitted6 : (n : ℕ) → plain_permitted (v6 n []) ≡ true → Public6 n
permitted6 n h =
    let (multicast, link, blocks) = permitted-blocks (v6 n []) h in
    let b = blocks-Apart6 n blocks in
    (
      above (outside n 0 (2 ^ 32 - 1) (2 ^ 32) 0 b.zeros refl (omega arith) (omega arith)),
      outside n (6619035 * 2 ^ 96) (6619035 * 2 ^ 96 + 2 ^ 32 - 1) (2 ^ 32) (6619035 * 2 ^ 64)
          b.nat64 refl (omega arith) (omega arith),
      outside n (252 * 2 ^ 120) (254 * 2 ^ 120 - 1) (2 ^ 121) 126 b.local refl (omega arith)
          (omega arith),
      outside n (1018 * 2 ^ 118) (1019 * 2 ^ 118 - 1) (2 ^ 118) 1018 link refl (omega arith)
          (omega arith),
      outside n (255 * 2 ^ 120) (256 * 2 ^ 120 - 1) (2 ^ 120) 255 multicast refl (omega arith)
          (omega arith),
    )
  where
    above : Outside 0 (2 ^ 32 - 1) n → 2 ^ 32 ≤ n
    above (inl a) = absurd (omega arith)
    above (inr a) = omega arith

pub addr_permitted-IsPublic : (a : Address) → addr_permitted a ≡ true → IsPublic (unmap a)
unfolding addr_permitted unmap
addr_permitted-IsPublic nowhere h = absurd cc
addr_permitted-IsPublic (v4 n) h = permitted4 n h
addr_permitted-IsPublic (v6 n z) h = elim (Bool-cases (n / 2 ^ 32 == 65535)) [
  | inl e ↦ rw (e, unmap) (permitted4 (n % 2 ^ 32) (rw (e, addr_permitted, unmap) at h))
  | inr e ↦ rw (e, unmap) (permitted6 n (rw (e, addr_permitted, unmap) at h))
]
