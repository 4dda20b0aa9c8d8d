-- ===== src/Uploads/Stored.antt =====
-- That the id of an upload is one that the server takes back, but for two dots.
use aiofiles.Prelude.{
  ℕ, ◌+◌, ◌*◌, ◌≤◌, Bool, true, false, not, ◌&&◌, ◌||◌, ◌≡◌, refl, ap, ◌∙◌, List, [], ◌∷◌, ◌++◌,
  All, length, ◌==◌, ltb, leb, codes, arith,
}
use aiofiles.Prelude.Bytes.{same_codes, same_codes_refl, has_byte, trim_right_by}
use aiofiles.Prelude.Paths.{or_root, path_base, last_element}
use aiofiles.Runner.Names.{has_dots}
use aiofiles.Uploads.{upload_token_bytes, sanitise_filename, stored_name, after_dash, original_name}
use aiofiles.Uploads.Ids.{byte_length, is_abs, bad_id}
use aiofiles.Uploads.Clean.{IsBare, IsBare-append, IsClean, sanitise_filename-IsClean}

-- A token: sixteen lower-case hexadecimal digits.
abbrev is_hex : ℕ → Bool
is_hex c = (leb b'0' c && leb c b'9') || (leb b'a' c && leb c b'f')

abbrev pub IsToken : List ℕ → Type 0
IsToken t = All (λ c. is_hex c ≡ true) t × (length t ≡ upload_token_bytes + upload_token_bytes)

IsBare-hex : (t : List ℕ) → All (λ c. is_hex c ≡ true) t → IsBare t
IsBare-hex [] h = tt
IsBare-hex (c ∷ t) (h, hs) = (ground arith, IsBare-hex t hs)

byte_length-le : (s : List ℕ) → byte_length s ≤ 4 * length s
byte_length-le [] = omega arith
byte_length-le (r ∷ s) = ground (arith, byte_length-le s)

byte_length-hex :
    (t s : List ℕ) → All (λ c. is_hex c ≡ true) t → byte_length (t ++ s) ≡ length t + byte_length s
byte_length-hex [] s h = omega arith
byte_length-hex (c ∷ t) s (h, hs) = ground (arith, byte_length-hex t s hs)

has_dots-hex :
    (t s : List ℕ) → All (λ c. is_hex c ≡ true) t → has_dots (t ++ b'-' ∷ s) ≡ has_dots (b'-' ∷ s)
unfolding has_dots
has_dots-hex [] s h = refl
has_dots-hex (c ∷ []) s (h, hs) = ground arith
has_dots-hex (c ∷ d ∷ t) s (h, hs) = ground (arith, has_dots-hex (d ∷ t) s hs)

has_dots-dash : (s : List ℕ) → has_dots (b'-' ∷ s) ≡ has_dots s
unfolding has_dots
has_dots-dash [] = refl
has_dots-dash (c ∷ s) = refl

bare_bytes :
    (s : List ℕ)
    → IsBare s
    → (has_byte b'/' s ≡ false) × (has_byte b'\\' s ≡ false) × (has_byte 0 s ≡ false)
bare_bytes [] h = (refl, refl, refl)
bare_bytes (c ∷ s) (h, hs) = ground (arith, bare_bytes s hs)

last_element-bare : (s : List ℕ) → IsBare s → last_element s ≡ s
unfolding last_element
last_element-bare [] h = refl
last_element-bare (c ∷ s) (h, hs) = ground (arith, bare_bytes s hs)

trim_right_bare : (s : List ℕ) → IsBare s → trim_right_by (λ d. d == b'/') s ≡ s
unfolding trim_right_by
trim_right_bare [] h = refl
trim_right_bare (c ∷ s) (h, hs) =
    let e : (c == b'/') ≡ false = ground (arith, h) in rw e (ap (λ l. c ∷ l) (trim_right_bare s hs))

path_base-bare : (c : ℕ) (s : List ℕ) → IsBare (c ∷ s) → path_base (c ∷ s) ≡ c ∷ s
unfolding path_base
path_base-bare c s h =
    ap (λ l. or_root (last_element l)) (trim_right_bare (c ∷ s) h)
    ∙ ap or_root (last_element-bare (c ∷ s) h)

-- The disjunction of the tests, if only the one for two dots is open.
refused_for :
    {a b c d e f g h i k : Bool}
    → a ≡ false
    → b ≡ false
    → c ≡ false
    → d ≡ false
    → e ≡ false
    → f ≡ k
    → g ≡ false
    → h ≡ true
    → i ≡ true
    → (a || ((b || c) || (d || (e || (f || (g || (not h || not i))))))) ≡ k
refused_for p q r s t u v w x = rw (p, q, r, s, t, u, v, w, x) (or_false _)
  where
    or_false : (k : Bool) → (k || false) ≡ k
    or_false true = refl
    or_false false = refl

bad_id-token :
    (clean : List ℕ → List ℕ) (t s : List ℕ)
    → ((u : List ℕ) → has_byte b'/' u ≡ false → same_codes u [] ≡ false → clean u ≡ u)
    → IsToken t
    → IsClean s
    → bad_id clean (stored_name t s) ≡ has_dots s
unfolding bad_id
bad_id-token clean [] s lexical (h, l) k = absurd (omega arith)
bad_id-token clean (c ∷ t) s lexical ((h, hs), l) k =
    let id = c ∷ (t ++ b'-' ∷ s) in
    let bare = IsBare-append (c ∷ t) (b'-' ∷ s) (IsBare-hex (c ∷ t) (h, hs)) (refl, k.bare) in
    let (slash, backslash, nul) = bare_bytes id bare in
    let long : ltb 512 (byte_length id) ≡ false =
      ground (arith, byte_length-hex (c ∷ t) (b'-' ∷ s) (h, hs), byte_length-le s, k.short, l) in
    let dot : same_codes id (codes ".") ≡ false = ground (arith, h) in
    let abs : is_abs id ≡ false = ground (arith, h) in
    let same : same_codes (clean id) id ≡ true = rw (lexical id slash refl) (same_codes_refl id) in
    let base : same_codes (path_base id) id ≡ true =
      rw (path_base-bare c (t ++ b'-' ∷ s) bare) (same_codes_refl id) in
    let dots : has_dots id ≡ has_dots s = has_dots-hex (c ∷ t) s (h, hs) ∙ has_dots-dash s in
    refused_for long slash backslash nul dot dots abs same base

-- The id that the server gives out for an upload is refused before the disk is asked exactly if two dots stand
-- side by side in the cleaned-up name: it has no slash, no backslash and no NUL, is never too long, and
-- `filepath.Clean` leaves it alone, as it does all texts without a slash that are not empty.
pub bad_id-stored_name :
    (clean : List ℕ → List ℕ) (token name : List ℕ)
    → ((u : List ℕ) → has_byte b'/' u ≡ false → same_codes u [] ≡ false → clean u ≡ u)
    → IsToken token
    → bad_id clean (stored_name token (sanitise_filename name)) ≡ has_dots (sanitise_filename name)
bad_id-stored_name clean token name lexical t =
    bad_id-token clean token (sanitise_filename name) lexical t (sanitise_filename-IsClean name)

after_dash-hex :
    (t s : List ℕ) → All (λ c. is_hex c ≡ true) t → after_dash (t ++ b'-' ∷ s) ≡ (length t, s)
unfolding after_dash
after_dash-hex [] s h = refl
after_dash-hex (c ∷ t) s (h, hs) =
    let e : (c == b'-') ≡ false = ground (arith, h) in rw (e, after_dash-hex t s hs) refl

has_dash-hex : (t s : List ℕ) → has_byte b'-' (t ++ b'-' ∷ s) ≡ true
has_dash-hex [] s = refl
has_dash-hex (c ∷ t) s = ground (arith, has_dash-hex t s)

-- What `originalName` reads from the name of a stored upload is the name that it was made of, dashes included.
pub original_name-stored_name :
    (token name : List ℕ) → IsToken token → original_name (stored_name token name) ≡ name
unfolding original_name
original_name-stored_name token name (h, l) =
    rw (has_dash-hex token name, after_dash-hex token name h, l, original_name) refl
