-- ===== src/Prelude/Base64.antt =====
-- `base64.RawStdEncoding` of Go's standard library: the standard alphabet without padding.
use Prim.Native.Nat.{ℕ, ◌+◌, ◌-◌, ◌*◌, ◌/◌, ◌%◌, ◌<◌}
use mathlib.Core.Path.{◌≡◌, refl, ap, ◌∙◌}
use mathlib.Core.Bool.{Bool, true, false, not, ◌&&◌, ◌||◌}
use mathlib.Core.Option.{Option, none, some}
use mathlib.Core.List.{[], ◌∷◌}
use native.Mathlib.Omega.{arith}
use aiofiles.Prelude.Tests.{◌==◌, ltb, leb, if◌then◌else◌}
use aiofiles.Prelude.Lists.{keep, All}
use aiofiles.Prelude.Bytes.{Bytes}

-- The character of six bits, and the six bits of a character.
unfoldable pub letter : ℕ → ℕ
letter n =
    if ltb n 26
    then n + 65
    else if ltb n 52
    then n + 71
    else if ltb n 62
    then n - 4
    else if n == 62
    then 43
    else 47

unfoldable pub sextet : ℕ → Option ℕ
sextet c =
    if leb 65 c && leb c 90
    then some (c - 65)
    else if leb 97 c && leb c 122
    then some (c - 71)
    else if leb 48 c && leb c 57
    then some (c + 4)
    else if c == 43
    then some 62
    else if c == 47
    then some 63
    else none

unfoldable pub encode : Bytes → Bytes
unfolding letter
encode [] = []
encode (a ∷ []) = letter (a / 4) ∷ letter (a % 4 * 16) ∷ []
encode (a ∷ b ∷ []) = letter (a / 4) ∷ letter (a % 4 * 16 + b / 16) ∷ letter (b % 16 * 4) ∷ []
encode (a ∷ b ∷ c ∷ s) =
    letter (a / 4)
    ∷ letter (a % 4 * 16 + b / 16)
    ∷ letter (b % 16 * 4 + c / 64)
    ∷ letter (c % 64)
    ∷ encode s

-- `base64.StdEncoding`: the same with the last four letters filled up.
unfoldable pub encode_padded : Bytes → Bytes
unfolding letter
encode_padded [] = []
encode_padded (a ∷ []) = letter (a / 4) ∷ letter (a % 4 * 16) ∷ 61 ∷ 61 ∷ []
encode_padded (a ∷ b ∷ []) =
    letter (a / 4) ∷ letter (a % 4 * 16 + b / 16) ∷ letter (b % 16 * 4) ∷ 61 ∷ []
encode_padded (a ∷ b ∷ c ∷ s) =
    letter (a / 4)
    ∷ letter (a % 4 * 16 + b / 16)
    ∷ letter (b % 16 * 4 + c / 64)
    ∷ letter (c % 64)
    ∷ encode_padded s

abbrev pub with_sextet : Option ℕ → (ℕ → Option Bytes) → Option Bytes
with_sextet none f = none
with_sextet (some n) f = f n

abbrev pub with_bytes : Bytes → Option Bytes → Option Bytes
with_bytes (a ∷ b ∷ c ∷ []) (some s) = some (a ∷ b ∷ c ∷ s)
with_bytes _ _ = none

-- Four characters are three bytes; bits of the last character that belong to no byte are ignored.
unfoldable pub decode_letters : Bytes → Option Bytes
unfolding sextet
decode_letters [] = some []
decode_letters (a ∷ []) = none
decode_letters (a ∷ b ∷ []) =
    with_sextet (sextet a) (λ w. with_sextet (sextet b) (λ x. some ((w * 4 + x / 16) ∷ [])))
decode_letters (a ∷ b ∷ c ∷ []) = with_sextet (sextet a) (λ w.
    with_sextet (sextet b)
      (λ x. with_sextet (sextet c) (λ y. some ((w * 4 + x / 16) ∷ (x % 16 * 16 + y / 4) ∷ []))))
decode_letters (a ∷ b ∷ c ∷ d ∷ s) =
    let rest = decode_letters s in
    with_sextet (sextet a) (λ w. with_sextet (sextet b) (λ x. with_sextet (sextet c) (λ y.
      with_sextet (sextet d)
        (λ z. with_bytes ((w * 4 + x / 16) ∷ (x % 16 * 16 + y / 4) ∷ (y % 4 * 64 + z) ∷ []) rest))))

abbrev pub is_line_break : ℕ → Bool
is_line_break c = c == 10 || c == 13

-- The decoder passes over line breaks.
unfoldable pub decode : Bytes → Option Bytes
unfolding decode_letters
decode s = decode_letters (keep (λ c. not (is_line_break c)) s)

abbrev pub AllBytes : Bytes → Type 0
AllBytes s = All (λ n. n < 256) s

sextet-letter : (n : ℕ) → n < 64 → sextet (letter n) ≡ some n
unfolding sextet letter
sextet-letter n h = ground arith

letter_kept : (n : ℕ) → n < 64 → is_line_break (letter n) ≡ false
unfolding letter
letter_kept n h = ground arith

first_byte : (a b : ℕ) → b < 256 → a / 4 * 4 + (a % 4 * 16 + b / 16) / 16 ≡ a
first_byte a b h = omega arith

second_byte :
    (a b c : ℕ)
    → b < 256
    → c < 256
    → (a % 4 * 16 + b / 16) % 16 * 16 + (b % 16 * 4 + c / 64) / 4 ≡ b
second_byte a b c h k = omega arith

short_byte : (a b : ℕ) → b < 256 → (a % 4 * 16 + b / 16) % 16 * 16 + b % 16 * 4 / 4 ≡ b
short_byte a b h = omega arith

third_byte : (b c : ℕ) → c < 256 → (b % 16 * 4 + c / 64) % 4 * 64 + c % 64 ≡ c
third_byte b c h = omega arith

decode_letters-encode : (s : Bytes) → AllBytes s → decode_letters (encode s) ≡ some s
unfolding decode_letters encode
decode_letters-encode [] h = refl
decode_letters-encode (a ∷ []) (h, _) =
    rw (sextet-letter (a / 4) (omega arith), sextet-letter (a % 4 * 16) (omega arith))
      (ap (λ x. some (x ∷ [])) (omega arith))
decode_letters-encode (a ∷ b ∷ []) (h, (k, _)) =
    rw
      (
        sextet-letter (a / 4) (omega arith),
        sextet-letter (a % 4 * 16 + b / 16) (omega arith),
        sextet-letter (b % 16 * 4) (omega arith),
        first_byte a b k,
        short_byte a b k,
      )
      refl
decode_letters-encode (a ∷ b ∷ c ∷ s) (h, (k, (l, hs))) =
    rw
      (
        sextet-letter (a / 4) (omega arith),
        sextet-letter (a % 4 * 16 + b / 16) (omega arith),
        sextet-letter (b % 16 * 4 + c / 64) (omega arith),
        sextet-letter (c % 64) (omega arith),
        decode_letters-encode s hs,
        first_byte a b k,
        second_byte a b c k l,
        third_byte b c l,
      )
      refl

module _ (q : ℕ → Bool) where
  -- A test that all letters pass is passed by all of an encoded text.
  pub encode-All :
      (s : Bytes)
      → ((n : ℕ) → n < 64 → q (letter n) ≡ true)
      → AllBytes s
      → All (λ c. q c ≡ true) (encode s)
  unfolding encode
  encode-All [] f h = tt
  encode-All (a ∷ []) f (h, _) = (f (a / 4) (omega arith), (f (a % 4 * 16) (omega arith), tt))
  encode-All (a ∷ b ∷ []) f (h, (k, _)) = (
    f (a / 4) (omega arith),
    (f (a % 4 * 16 + b / 16) (omega arith), (f (b % 16 * 4) (omega arith), tt)),
  )
  encode-All (a ∷ b ∷ c ∷ s) f (h, (k, (l, hs))) = (
    f (a / 4) (omega arith),
    (
      f (a % 4 * 16 + b / 16) (omega arith),
      (f (b % 16 * 4 + c / 64) (omega arith), (f (c % 64) (omega arith), encode-All s f hs)),
    ),
  )

  keep_all : (s : Bytes) → All (λ c. q c ≡ true) s → keep q s ≡ s
  keep_all [] h = refl
  keep_all (c ∷ s) (h, hs) = rw (h, keep) (ap (λ l. c ∷ l) (keep_all s hs))

-- Bytes are what the decoder gives of their encoding.
pub decode-encode : (s : Bytes) → AllBytes s → decode (encode s) ≡ some s
unfolding decode
decode-encode s h =
    let kept =
      encode-All (λ c. not (is_line_break c)) s (λ n k. ground (arith, letter_kept n k)) h in
    ap decode_letters (keep_all (λ c. not (is_line_break c)) (encode s) kept)
    ∙ decode_letters-encode s h
