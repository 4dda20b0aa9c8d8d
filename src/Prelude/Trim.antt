-- ===== src/Prelude/Trim.antt =====
-- What trimming and cutting keep of a text.
use Prim.Native.Nat.{ℕ, zero, suc, ◌≤◌}
use mathlib.Core.Path.{◌≡◌, refl}
use mathlib.Core.Logic.{inl, inr}
use mathlib.Core.Bool.{Bool, true, false, not}
use mathlib.Core.List.{[], ◌∷◌}
use native.Mathlib.Omega.{arith}
use aiofiles.Prelude.Tests.{Bool-cases}
use aiofiles.Prelude.Lists.{length, take, All}
use aiofiles.Prelude.Bytes.{Bytes, trim_by, trim_left_by, trim_right_by, end_with}

abbrev pub first_passes : (ℕ → Bool) → Bytes → Bool
first_passes p [] = true
first_passes p (c ∷ s) = p c

module _ (p : ℕ → Bool) where
  pub trim_left-All :
      (q : ℕ → Bool) (s : Bytes)
      → All (λ c. q c ≡ true) s
      → All (λ c. q c ≡ true) (trim_left_by p s)
  unfolding trim_left_by
  trim_left-All q [] h = tt
  trim_left-All q (c ∷ s) (h, hs) = ground (arith, trim_left-All q s hs)

  end_with-All :
      (q : ℕ → Bool) (b : Bool) (c : ℕ) (s : Bytes)
      → q c ≡ true
      → All (λ c. q c ≡ true) s
      → All (λ c. q c ≡ true) (end_with b c s)
  end_with-All q true c [] h hs = tt
  end_with-All q true c (d ∷ s) h hs = (h, hs)
  end_with-All q false c s h hs = (h, hs)

  pub trim_right-All :
      (q : ℕ → Bool) (s : Bytes)
      → All (λ c. q c ≡ true) s
      → All (λ c. q c ≡ true) (trim_right_by p s)
  unfolding trim_right_by
  trim_right-All q [] h = tt
  trim_right-All q (c ∷ s) (h, hs) =
      end_with-All q (p c) c (trim_right_by p s) h (trim_right-All q s hs)

  pub length-trim_left-le : (s : Bytes) → length (trim_left_by p s) ≤ length s
  unfolding trim_left_by
  length-trim_left-le [] = omega arith
  length-trim_left-le (c ∷ s) = ground (arith, length-trim_left-le s)

  length-end_with-le : (b : Bool) (c : ℕ) (s : Bytes) → length (end_with b c s) ≤ suc (length s)
  length-end_with-le true c [] = omega arith
  length-end_with-le true c (d ∷ s) = omega arith
  length-end_with-le false c s = omega arith

  pub length-trim_right-le : (s : Bytes) → length (trim_right_by p s) ≤ length s
  unfolding trim_right_by
  length-trim_right-le [] = omega arith
  length-trim_right-le (c ∷ s) =
      omega (arith, length-trim_right-le s, length-end_with-le (p c) c (trim_right_by p s))

  pub trim_left-first : (s : Bytes) → first_passes (λ c. not (p c)) (trim_left_by p s) ≡ true
  unfolding trim_left_by
  trim_left-first [] = refl
  trim_left-first (c ∷ s) = ground (arith, trim_left-first s)

  end_with-first :
      (b : Bool) (c : ℕ) (s : Bytes)
      → p c ≡ false
      → first_passes (λ c. not (p c)) (end_with b c s) ≡ true
  end_with-first true c [] h = refl
  end_with-first true c (d ∷ s) h = ground (arith, h)
  end_with-first false c s h = ground (arith, h)

  pub trim_right-first :
      (s : Bytes)
      → first_passes (λ c. not (p c)) s ≡ true
      → first_passes (λ c. not (p c)) (trim_right_by p s) ≡ true
  unfolding trim_right_by
  trim_right-first [] h = refl
  trim_right-first (c ∷ s) h = end_with-first (p c) c (trim_right_by p s) (ground (arith, h))

  -- The last byte passes the test, if there is one.
  abbrev pub last_passes : Bytes → Bool
  last_passes [] = true
  last_passes (c ∷ []) = not (p c)
  last_passes (c ∷ d ∷ s) = last_passes (d ∷ s)

  end_with-last :
      (c : ℕ) (s : Bytes) → last_passes s ≡ true → last_passes (end_with (p c) c s) ≡ true
  end_with-last c [] h = elim (Bool-cases (p c)) [
    | inl e ↦ rw e refl
    | inr e ↦ rw e (ground (arith, e))
  ]
  end_with-last c (d ∷ s) h = elim (Bool-cases (p c)) [ inl e ↦ rw e h | inr e ↦ rw e h ]

  pub trim_right-last : (s : Bytes) → last_passes (trim_right_by p s) ≡ true
  unfolding trim_right_by
  trim_right-last [] = refl
  trim_right-last (c ∷ s) = end_with-last c (trim_right_by p s) (trim_right-last s)

pub take-All :
    (q : ℕ → Bool) (n : ℕ) (s : Bytes) → All (λ c. q c ≡ true) s → All (λ c. q c ≡ true) (take n s)
take-All q zero s h = tt
take-All q (suc n) [] h = tt
take-All q (suc n) (c ∷ s) (h, hs) = (h, take-All q n s hs)

pub trim_by-All :
    (p q : ℕ → Bool) (s : Bytes) → All (λ c. q c ≡ true) s → All (λ c. q c ≡ true) (trim_by p s)
unfolding trim_by
trim_by-All p q s h = trim_right-All p q (trim_left_by p s) (trim_left-All p q s h)

pub length-trim_by-le : (p : ℕ → Bool) (s : Bytes) → length (trim_by p s) ≤ length s
unfolding trim_by
length-trim_by-le p s =
    omega (arith, length-trim_right-le p (trim_left_by p s), length-trim_left-le p s)
