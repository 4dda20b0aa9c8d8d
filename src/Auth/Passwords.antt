-- ===== src/Auth/Passwords.antt =====
-- internal/auth/password.go: the encoding of password hashes. A text is its code points; argon2 is a third party's,
-- so `id_key` is an argument, and so is the salt that is drawn.
pub mod Hashed
use aiofiles.Prelude.{
  ℕ, ◌+◌, ◌-◌, ◌*◌, ◌^◌, Bool, true, false, not, ◌&&◌, ◌||◌, List, [], ◌∷◌, ◌++◌, ◌==◌,
  if◌then◌else◌, codes, ltb, length, drop, Option, none, some, Result, ok, err,
}
use aiofiles.Prelude.Bytes.{Bytes, same_codes, has_prefix}
use aiofiles.Prelude.Base64.{encode, decode}
use aiofiles.Prelude.Split.{split_at}
use aiofiles.Runner.Numerals.{is_digit}
use aiofiles.Uploads.{is_space}

pub data HashError : Type 0 where
  invalid_hash incompatible_version : HashError

pub record ArgonParams : Type 0 where
  pub memory : ℕ
  pub time : ℕ
  pub threads : ℕ

-- `argonMemory`, `argonTime` and `argonThreads`
abbrev pub argon_params : ArgonParams
argon_params = record { memory = 65536; time = 3; threads = 2 }

abbrev pub argon_key_len : ℕ
argon_key_len = 32

abbrev pub argon_version : ℕ
argon_version = 19

-- `argon2.IDKey`: the password, the salt, the parameters and the length of the key.
abbrev pub IdKey : Type 0
IdKey = Bytes → Bytes → ArgonParams → ℕ → Bytes

-- The white space that `%d` passes over, which does not go over the end of a line.
unfoldable pub skip_spaces : Bytes → Option Bytes
skip_spaces [] = some []
skip_spaces (c ∷ []) = if c == 10 then none else if is_space c then some [] else some (c ∷ [])
skip_spaces (c ∷ d ∷ s) =
    let rest = skip_spaces (d ∷ s) in
    if c == 10 || (c == 13 && d == 10) then none else if is_space c then rest else some (c ∷ d ∷ s)

-- The number that a run of digits goes on, and what follows the run.
unfoldable pub more_digits : ℕ → Bytes → ℕ × Bytes
more_digits n [] = (n, [])
more_digits n (c ∷ s) =
    let rest = more_digits (n * 10 + (c - b'0')) s in if is_digit c then rest else (n, c ∷ s)

abbrev pub some_digits : Bytes → Option (ℕ × Bytes)
unfolding more_digits
some_digits [] = none
some_digits (c ∷ s) = if is_digit c then some (more_digits 0 (c ∷ s)) else none

abbrev pub below : ℕ → Option (ℕ × Bytes) → Option (ℕ × Bytes)
below limit none = none
below limit (some (n, s)) = if ltb n limit then some (n, s) else none

-- `%d` of `fmt.Sscanf` into an unsigned integer below a limit.
abbrev pub scan_from : ℕ → Option Bytes → Option (ℕ × Bytes)
unfolding some_digits
scan_from limit none = none
scan_from limit (some s) = below limit (some_digits s)

unfoldable pub scan_uint : ℕ → Bytes → Option (ℕ × Bytes)
unfolding skip_spaces scan_from
scan_uint limit s = scan_from limit (skip_spaces s)

-- `%d` into an `int`, of which only the value 19 is told from the others: the number without its sign, and the sign.
abbrev pub scan_signed : Option Bytes → Option (Bool × ℕ)
unfolding some_digits
scan_signed none = none
scan_signed (some []) = none
scan_signed (some (c ∷ s)) =
    if c == b'-'
    then elim (below (2 ^ 63 + 1) (some_digits s)) [ none ↦ none | some (n, rest) ↦ some (true, n) ]
    else if c == b'+'
    then elim (below (2 ^ 63) (some_digits s)) [ none ↦ none | some (n, rest) ↦ some (false, n) ]
    else elim (below (2 ^ 63) (some_digits (c ∷ s))) [
      | none ↦ none
      | some (n, rest) ↦ some (false, n)
    ]

unfoldable pub scan_int : Bytes → Option (Bool × ℕ)
unfolding skip_spaces scan_signed
scan_int s = scan_signed (skip_spaces s)

-- A literal part of a format.
abbrev pub literal : Bytes → Bytes → Option Bytes
literal word s = if has_prefix s word then some (drop (length word) s) else none

abbrev pub chain {ℓ} : {A B : Type ℓ} → Option A → (A → Option B) → Option B
chain none f = none
chain (some a) f = f a

-- `fmt.Sscanf(parts[2], "v=%d", &version)`; what follows the number is not looked at.
unfoldable pub scan_version : Bytes → Option (Bool × ℕ)
unfolding scan_int
scan_version s = chain (literal (codes "v=") s) (λ t. scan_int t)

-- `fmt.Sscanf(parts[3], "m=%d,t=%d,p=%d", &p.memory, &p.time, &p.threads)`
unfoldable pub scan_params : Bytes → Option ArgonParams
unfolding scan_uint
scan_params s = chain (literal (codes "m=") s) (λ a. chain (scan_uint (2 ^ 32) a) (λ (m, b).
    chain (literal (codes ",t=") b) (λ c. chain (scan_uint (2 ^ 32) c) (λ (t, d).
      chain (literal (codes ",p=") d) (λ e.
        chain (scan_uint (2 ^ 8) e)
          (λ (p, f). some (record { memory = m; time = t; threads = p })))))))

abbrev pub is_zeroed : ArgonParams → Bool
is_zeroed p = p.memory == 0 || (p.time == 0 || p.threads == 0)

abbrev pub Decoded : Type 0
Decoded = Result HashError (ArgonParams × Bytes × Bytes)

-- Bytes that are there and of which there is at least one.
abbrev pub filled : Option Bytes → Option Bytes
filled none = none
filled (some []) = none
filled (some (b ∷ s)) = some (b ∷ s)

abbrev pub with_key : ArgonParams → Option Bytes → Option Bytes → Decoded
with_key p none key = err invalid_hash
with_key p (some salt) none = err invalid_hash
with_key p (some salt) (some key) = ok (p, salt, key)

abbrev pub with_params : Option ArgonParams → Bytes → Bytes → Decoded
unfolding decode
with_params none salt key = err invalid_hash
with_params (some p) salt key =
    if is_zeroed p
    then err invalid_hash
    else with_key p (filled (decode salt)) (filled (decode key))

abbrev pub with_version : Option (Bool × ℕ) → Bytes → Bytes → Bytes → Decoded
unfolding with_params scan_params
with_version none params salt key = err invalid_hash
with_version (some (negative, n)) params salt key =
    if negative || not (n == argon_version)
    then err incompatible_version
    else with_params (scan_params params) salt key

abbrev pub decode_parts : List Bytes → Decoded
unfolding with_version scan_version
decode_parts (a ∷ b ∷ c ∷ d ∷ e ∷ f ∷ []) =
    if not (same_codes a []) || not (same_codes b (codes "argon2id"))
    then err invalid_hash
    else with_version (scan_version c) d e f
decode_parts _ = err invalid_hash

unfoldable pub decode_hash : Bytes → Decoded
unfolding split_at decode_parts
decode_hash encoded = decode_parts (split_at b'$' encoded)

-- `none` is a salt that could not be drawn. The numbers of the format are constants.
unfoldable pub hash_password : IdKey → Option Bytes → Bytes → Option Bytes
unfolding encode
hash_password id_key none plain = none
hash_password id_key (some salt) plain =
    let key = id_key plain salt argon_params argon_key_len in
    some (codes "$argon2id$v=19$m=65536,t=3,p=2$" ++ (encode salt ++ (b'$' ∷ encode key)))

abbrev pub compare_keys : IdKey → Bytes → Decoded → Result HashError Bool
compare_keys id_key plain (err e) = err e
compare_keys id_key plain (ok (p, salt, want)) =
    ok (same_codes (id_key plain salt p (length want)) want)

unfoldable pub verify_password : IdKey → Bytes → Bytes → Result HashError Bool
unfolding decode_hash
verify_password id_key encoded plain = compare_keys id_key plain (decode_hash encoded)
