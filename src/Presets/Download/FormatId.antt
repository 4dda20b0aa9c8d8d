-- ===== src/Presets/Download/FormatId.antt =====
-- The regular expression formatIDRe of internal/presets/presets.go,
--   ^[A-Za-z0-9][A-Za-z0-9_.\-]*(\+[A-Za-z0-9][A-Za-z0-9_.\-]*)?$
-- as a matcher over bytes, and the language that it stands for.
use aiofiles.Prelude.{
  ℕ, Bool, true, false, ◌&&◌, ◌||◌, List, [], ◌∷◌, ◌++◌, leb, ◌==◌, if◌then◌else◌, ◌≡◌, ap, All,
  Bool-cases, inl, inr, ==_iff, and_left, and_right,
}

-- `[A-Za-z0-9]`
abbrev pub is_alnum : ℕ → Bool
is_alnum c =
    (leb b'A' c && leb c b'Z') || ((leb b'a' c && leb c b'z') || (leb b'0' c && leb c b'9'))

-- `[A-Za-z0-9_.\-]`
abbrev pub is_id_byte : ℕ → Bool
is_id_byte c = is_alnum c || (c == b'_' || (c == b'.' || c == b'-'))

all_id_bytes : List ℕ → Bool
all_id_bytes [] = true
all_id_bytes (c ∷ s) = is_id_byte c && all_id_bytes s

-- One alternative of a merge, up to the end of the text.
is_plain : List ℕ → Bool
unfolding all_id_bytes
is_plain [] = false
is_plain (c ∷ s) = is_alnum c && all_id_bytes s

-- Behind the first byte: the rest of the first alternative, and the second one if there is a `+`.
match_rest : List ℕ → Bool
unfolding is_plain
match_rest [] = true
match_rest (c ∷ s) = if is_id_byte c then match_rest s else c == b'+' && is_plain s

unfoldable pub matches : List ℕ → Bool
unfolding match_rest
matches [] = false
matches (c ∷ s) = is_alnum c && match_rest s

-- An id: an alphanumeric byte, and then bytes of the class.
pub data IsId : List ℕ → Type 0 where
  id : {c : ℕ} {s : List ℕ} → is_alnum c ≡ true → All (λ b. is_id_byte b ≡ true) s → IsId (c ∷ s)

-- One id, or two that a `+` joins.
pub data IsFormatId (s : List ℕ) : Type 0 where
  single : IsId s → IsFormatId s
  merge : (a b : List ℕ) → IsId a → IsId b → s ≡ a ++ b'+' ∷ b → IsFormatId s

all_id_bytes-All : (s : List ℕ) → all_id_bytes s ≡ true → All (λ b. is_id_byte b ≡ true) s
unfolding all_id_bytes
all_id_bytes-All [] h = tt
all_id_bytes-All (c ∷ s) h =
    (and_left (is_id_byte c) _ h, all_id_bytes-All s (and_right (is_id_byte c) _ h))

is_plain-IsId : (s : List ℕ) → is_plain s ≡ true → IsId s
unfolding is_plain
is_plain-IsId [] h = cc
is_plain-IsId (c ∷ s) h =
    id (and_left (is_alnum c) _ h) (all_id_bytes-All s (and_right (is_alnum c) _ h))

-- The rest of a match splits at its `+`, if it has one.
data Rest (s : List ℕ) : Type 0 where
  whole : All (λ b. is_id_byte b ≡ true) s → Rest s
  split : (a b : List ℕ) → All (λ c. is_id_byte c ≡ true) a → IsId b → s ≡ a ++ b'+' ∷ b → Rest s

Rest-cons : (c : ℕ) (s : List ℕ) → is_id_byte c ≡ true → Rest s → Rest (c ∷ s)
Rest-cons c s e (whole a) = whole (e, a)
Rest-cons c s e (split a b p q r) = split (c ∷ a) b (e, p) q (ap (◌∷◌ c) r)

match_rest-Rest : (s : List ℕ) → match_rest s ≡ true → Rest s
unfolding match_rest
match_rest-Rest [] h = whole tt
match_rest-Rest (c ∷ s) h = elim (Bool-cases (is_id_byte c)) [
  | inl e ↦ Rest-cons c s e (match_rest-Rest s (rw (e, match_rest) at h))
  | inr e ↦
      let t = rw (e, match_rest) at h in
      split [] s tt (is_plain-IsId s (and_right (c == b'+') _ t))
        (ap (λ (k : ℕ). k ∷ s) ((==_iff c b'+').0 (and_left (c == b'+') _ t)))
]

Rest-IsFormatId : (c : ℕ) (s : List ℕ) → is_alnum c ≡ true → Rest s → IsFormatId (c ∷ s)
Rest-IsFormatId c s e (whole a) = single (id e a)
Rest-IsFormatId c s e (split a b p q r) = merge (c ∷ a) b (id e p) q (ap (◌∷◌ c) r)

-- A text that the expression matches is one id, or two ids that a plus sign joins.
pub matches-IsFormatId : (s : List ℕ) → matches s ≡ true → IsFormatId s
unfolding matches
matches-IsFormatId [] h = cc
matches-IsFormatId (c ∷ s) h =
    Rest-IsFormatId c s (and_left (is_alnum c) _ h) (match_rest-Rest s (and_right (is_alnum c) _ h))
