-- ===== src/Prelude/Bytes.antt =====
-- Texts as lists of bytes or code points: comparison, prefixes and suffixes, trimming.
use Prim.Native.Nat.{ℕ}
use mathlib.Core.Path.{◌≡◌, refl, ap}
use mathlib.Core.Logic.{inl, inr}
use mathlib.Core.Bool.{Bool, true, false, ◌&&◌, ◌||◌}
use mathlib.Core.List.{List, [], ◌∷◌, ◌++◌}
use native.Mathlib.Omega.{arith}
use aiofiles.Prelude.Tests.{◌==◌, if◌then◌else◌, Bool-cases}
use aiofiles.Prelude.Lists.{any}

abbrev pub Bytes : Type 0
Bytes = List ℕ

abbrev pub same_codes : Bytes → Bytes → Bool
same_codes [] [] = true
same_codes [] (d ∷ m) = false
same_codes (c ∷ l) [] = false
same_codes (c ∷ l) (d ∷ m) = c == d && same_codes l m

-- `strings.HasPrefix(s, prefix)`
abbrev pub has_prefix : Bytes → Bytes → Bool
has_prefix s [] = true
has_prefix [] (d ∷ m) = false
has_prefix (c ∷ s) (d ∷ m) = c == d && has_prefix s m

-- `strings.HasSuffix(s, suffix)`
unfoldable pub has_suffix : Bytes → Bytes → Bool
has_suffix [] suffix = same_codes [] suffix
has_suffix (c ∷ s) suffix = same_codes (c ∷ s) suffix || has_suffix s suffix

abbrev pub has_byte : ℕ → Bytes → Bool
has_byte b s = any (λ c. c == b) s

-- `strings.TrimLeft`, `strings.TrimRight` and `strings.Trim`, of the bytes that pass a test.
unfoldable pub trim_left_by : (ℕ → Bool) → Bytes → Bytes
trim_left_by p [] = []
trim_left_by p (c ∷ s) = if p c then trim_left_by p s else c ∷ s

-- A byte in front of what is left of the rest; one that passes the test does not stand last.
abbrev pub end_with : Bool → ℕ → Bytes → Bytes
end_with true c [] = []
end_with true c (d ∷ l) = c ∷ d ∷ l
end_with false c l = c ∷ l

unfoldable pub trim_right_by : (ℕ → Bool) → Bytes → Bytes
trim_right_by p [] = []
trim_right_by p (c ∷ s) = end_with (p c) c (trim_right_by p s)

unfoldable pub trim_by : (ℕ → Bool) → Bytes → Bytes
unfolding trim_left_by trim_right_by
trim_by p s = trim_right_by p (trim_left_by p s)

pub same_codes-eq : (l m : List ℕ) → same_codes l m ≡ true → l ≡ m
same_codes-eq [] [] h = refl
same_codes-eq [] (d ∷ m) h = cc
same_codes-eq (c ∷ l) [] h = cc
same_codes-eq (c ∷ l) (d ∷ m) h = ground (arith, same_codes-eq l m)

pub same_codes_refl : (l : List ℕ) → same_codes l l ≡ true
same_codes_refl [] = refl
same_codes_refl (c ∷ l) = ground (arith, same_codes_refl l)

pub has_suffix-split :
    (host suffix : List ℕ)
    → has_suffix host suffix ≡ true
    → (front : List ℕ) × (host ≡ front ++ suffix)
unfolding has_suffix
has_suffix-split [] suffix h = ([], same_codes-eq [] suffix h)
has_suffix-split (c ∷ host) suffix h = elim (Bool-cases (same_codes (c ∷ host) suffix)) [
  | inl e ↦ ([], same_codes-eq (c ∷ host) suffix e)
  | inr e ↦
      let (front, same) = has_suffix-split host suffix (ground (arith, h, e)) in
      (c ∷ front, ap (λ l. c ∷ l) same)
]

pub has_suffix-append : (front suffix : List ℕ) → has_suffix (front ++ suffix) suffix ≡ true
unfolding has_suffix
has_suffix-append [] [] = refl
has_suffix-append [] (c ∷ suffix) = ground (arith, same_codes_refl (c ∷ suffix))
has_suffix-append (c ∷ front) suffix = ground (arith, has_suffix-append front suffix)
