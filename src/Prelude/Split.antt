-- ===== src/Prelude/Split.antt =====
-- `strings.Split` and `strings.Join` of Go's standard library at one byte.
use Prim.Native.Nat.{ℕ}
use mathlib.Core.Path.{◌≡◌, refl, ap, ◌∙◌}
use mathlib.Core.Logic.{inl, inr}
use mathlib.Core.Bool.{Bool, true, false, not}
use mathlib.Core.List.{List, [], ◌∷◌, ◌++◌}
use native.Mathlib.Omega.{arith}
use aiofiles.Prelude.Tests.{◌==◌, if◌then◌else◌, Bool-cases}
use aiofiles.Prelude.Lists.{All}
use aiofiles.Prelude.Bytes.{Bytes, has_byte}

abbrev pub split_head : ℕ → ℕ → List Bytes → List Bytes
split_head b c [] = []
split_head b c (l ∷ ls) = if c == b then [] ∷ (l ∷ ls) else (c ∷ l) ∷ ls

-- `strings.Split` at one byte.
unfoldable pub split_at : ℕ → Bytes → List Bytes
split_at b [] = [] ∷ []
split_at b (c ∷ s) = split_head b c (split_at b s)

abbrev pub join_by : ℕ → List Bytes → Bytes
join_by b [] = []
join_by b (l ∷ []) = l
join_by b (l ∷ m ∷ ls) = l ++ b ∷ join_by b (m ∷ ls)

abbrev pub other_than : ℕ → ℕ → Bool
other_than b c = not (c == b)

-- There is always a first part.
split_at-head : (b : ℕ) (s : Bytes) → (l : Bytes) × (ls : List Bytes) × (split_at b s ≡ l ∷ ls)
unfolding split_at
split_at-head b [] = ([], [], refl)
split_at-head b (c ∷ s) =
    let (l, ls, e) = split_at-head b s in
    elim (Bool-cases (c == b)) [
      | inl h ↦ ([], l ∷ ls, ap (split_head b c) e ∙ rw h refl)
      | inr h ↦ (c ∷ l, ls, ap (split_head b c) e ∙ rw h refl)
    ]

pub split_at-run :
    (b : ℕ) (s t : Bytes)
    → All (λ c. other_than b c ≡ true) s
    → split_at b (s ++ b ∷ t) ≡ s ∷ split_at b t
unfolding split_at
split_at-run b [] t h =
    let (l, ls, e) = split_at-head b t in
    let same : (b == b) ≡ true = ground arith in ap (split_head b b) e ∙ rw (same, e) refl
split_at-run b (c ∷ s) t (h, hs) =
    let other : (c == b) ≡ false = ground (arith, h) in
    ap (split_head b c) (split_at-run b s t hs) ∙ rw other refl

pub split_at_whole :
    (b : ℕ) (s : Bytes) → All (λ c. other_than b c ≡ true) s → split_at b s ≡ s ∷ []
unfolding split_at
split_at_whole b [] h = refl
split_at_whole b (c ∷ s) (h, hs) =
    let other : (c == b) ≡ false = ground (arith, h) in
    ap (split_head b c) (split_at_whole b s hs) ∙ rw other refl

pub plain_text : (b : ℕ) (s : Bytes) → has_byte b s ≡ false → All (λ c. other_than b c ≡ true) s
plain_text b [] h = tt
plain_text b (c ∷ s) h = (ground (arith, h), plain_text b s (ground (arith, h)))

abbrev pub Without : ℕ → Bytes → Type 0
Without b s = All (λ c. other_than b c ≡ true) s

split_head-Without :
    (b c : ℕ) (ls : List Bytes) → All (Without b) ls → All (Without b) (split_head b c ls)
split_head-Without b c [] h = tt
split_head-Without b c (l ∷ ls) (h, hs) = elim (Bool-cases (c == b)) [
  | inl e ↦ rw (e, split_head) (tt, (h, hs))
  | inr e ↦ rw (e, split_head) ((rw e refl, h), hs)
]

-- The parts of a text have no separator.
pub split_at-Without : (b : ℕ) (s : Bytes) → All (Without b) (split_at b s)
unfolding split_at
split_at-Without b [] = (tt, tt)
split_at-Without b (c ∷ s) = split_head-Without b c (split_at b s) (split_at-Without b s)

-- What is joined of parts without a separator is split into them again.
pub split_at-join_by :
    (b : ℕ) (l : Bytes) (ls : List Bytes)
    → Without b l
    → All (Without b) ls
    → split_at b (join_by b (l ∷ ls)) ≡ l ∷ ls
split_at-join_by b l [] h hs = split_at_whole b l h
split_at-join_by b l (m ∷ ls) h (k, hs) =
    split_at-run b l (join_by b (m ∷ ls)) h ∙ ap (λ x. l ∷ x) (split_at-join_by b m ls k hs)
