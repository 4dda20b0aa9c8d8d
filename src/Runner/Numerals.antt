-- ===== src/Runner/Numerals.antt =====
-- The decimal numbers of strconv.Itoa and strconv.Atoi, as internal/runner uses them.
use aiofiles.Prelude.{
  ℕ, zero, suc, ◌+◌, ◌-◌, ◌*◌, ◌/◌, ◌%◌, ◌^◌, Bool, true, false, ◌&&◌, ◌≡◌, refl, [], ◌∷◌, ◌++◌,
  ◌==◌, ltb, leb, if◌then◌else◌, Option, none, some, arith, Bool-cases, inl, inr,
}
use aiofiles.Prelude.Bytes.{Bytes}
use aiofiles.Prelude.Int.{ℤ, pos, negsuc}

-- The fuel is above the number, and each digit makes it smaller.
unfoldable pub digits : ℕ → ℕ → Bytes
digits zero n = []
digits (suc fuel) n = elim (ltb n 10) [
  | true ↦ (b'0' + n) ∷ []
  | false ↦ digits fuel (n / 10) ++ (b'0' + n % 10) ∷ []
]

-- `strconv.Itoa`
unfoldable pub itoa : ℤ → Bytes
unfolding digits
itoa (pos n) = digits (suc n) n
itoa (negsuc n) = b'-' ∷ digits (suc (suc n)) (suc n)

abbrev pub is_digit : ℕ → Bool
is_digit c = leb b'0' c && leb c b'9'

-- The number that follows the one read so far.
unfoldable pub read_digits : ℕ → Bytes → Option ℕ
read_digits n [] = some n
read_digits n (c ∷ s) = elim (is_digit c) [
  | true ↦ read_digits (n * 10 + (c - b'0')) s
  | false ↦ none
]

-- The digits of a number, of which there is at least one.
unfoldable pub read_number : Bytes → Option ℕ
unfolding read_digits
read_number [] = none
read_number (c ∷ s) = read_digits 0 (c ∷ s)

abbrev positive : Option ℕ → ℤ × Bool
positive none = (pos 0, false)
positive (some n) = if ltb n (2 ^ 63) then (pos n, true) else (pos (2 ^ 63 - 1), false)

abbrev negative : Option ℕ → ℤ × Bool
negative none = (pos 0, false)
negative (some zero) = (pos 0, true)
negative (some (suc n)) = if ltb n (2 ^ 63) then (negsuc n, true) else (negsuc (2 ^ 63 - 1), false)

-- `strconv.Atoi`: the number, and whether there was no error. A number out of range is an error that comes
-- with the nearest one in range.
unfoldable pub atoi : Bytes → ℤ × Bool
unfolding read_number
atoi [] = (pos 0, false)
atoi (c ∷ s) =
    if c == b'-'
    then negative (read_number s)
    else if c == b'+'
    then positive (read_number s)
    else positive (read_number (c ∷ s))

abbrev pub starts_dash : Bytes → Bool
starts_dash [] = false
starts_dash (c ∷ s) = c == b'-'

pub starts_dash-append :
    (l m : Bytes) → starts_dash l ≡ false → starts_dash m ≡ false → starts_dash (l ++ m) ≡ false
starts_dash-append [] m h k = k
starts_dash-append (c ∷ l) m h k = h

digits_undashed : (fuel n : ℕ) → starts_dash (digits fuel n) ≡ false
unfolding digits
digits_undashed zero n = refl
digits_undashed (suc fuel) n = elim (Bool-cases (ltb n 10)) [
  | inl e ↦ rw (e, starts_dash, digits) (ground arith)
  | inr e ↦
      rw (e, starts_dash, digits)
        (starts_dash-append (digits fuel (n / 10)) ((b'0' + n % 10) ∷ [])
          (digits_undashed fuel (n / 10)) (ground arith))
]

-- No number that is not negative reads as an option.
pub itoa_undashed : (n : ℕ) → starts_dash (itoa (pos n)) ≡ false
unfolding itoa
itoa_undashed n = digits_undashed (suc n) n
