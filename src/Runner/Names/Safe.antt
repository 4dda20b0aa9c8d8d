-- ===== src/Runner/Names/Safe.antt =====
-- What a sanitised name is made of.
use aiofiles.Prelude.{
  ℕ, zero, suc, ◌≤◌, ◌<◌, Bool, true, false, not, ◌&&◌, ◌||◌, ◌≡◌, ◌≢◌, refl, ap, ◌∙◌, sym, [], ◌∷◌,
  ◌==◌, length, take, length-take-le, All, arith, Bool-cases, inl, inr,
}
use mathlib.Core.Path.{subst}
use aiofiles.Prelude.Bytes.{Bytes, trim_by, trim_left_by, trim_right_by}
use aiofiles.Prelude.Trim.{
  first_passes, last_passes, trim_left-All, trim_right-All, length-trim_left-le,
  length-trim_right-le, trim_left-first, trim_right-first, trim_right-last, take-All,
}
use aiofiles.Runner.Names.{
  max_slug_len, is_kept, is_edge, slug, has_dots, halve_dots, squeeze, or_file, sanitize_name,
}

-- `[A-Za-z0-9._-]`
abbrev pub is_name_byte : ℕ → Bool
is_name_byte c = is_kept c || c == b'-'

slug-All : (dash : Bool) (s : Bytes) → All (λ c. is_name_byte c ≡ true) (slug dash s)
unfolding slug
slug-All dash [] = tt
slug-All true (c ∷ s) = elim (Bool-cases (is_kept c)) [
  | inl e ↦ rw e (ground (arith, e), slug-All false s)
  | inr e ↦ rw e (slug-All true s)
]
slug-All false (c ∷ s) = elim (Bool-cases (is_kept c)) [
  | inl e ↦ rw e (ground (arith, e), slug-All false s)
  | inr e ↦ rw e (refl, slug-All true s)
]

halve_dots-cons : (c : ℕ) (s : Bytes) → (r : Bytes) × (halve_dots (c ∷ s) ≡ c ∷ r)
unfolding halve_dots
halve_dots-cons c [] = ([], refl)
halve_dots-cons c (d ∷ s) = elim (Bool-cases (c == b'.' && d == b'.')) [
  | inl e ↦ (halve_dots s, rw e (ground (arith, e)))
  | inr e ↦ (halve_dots (d ∷ s), rw e refl)
]

halve_dots-All :
    (q : ℕ → Bool) (s : Bytes) → All (λ c. q c ≡ true) s → All (λ c. q c ≡ true) (halve_dots s)
unfolding halve_dots
halve_dots-All q [] h = tt
halve_dots-All q (c ∷ []) h = h
halve_dots-All q (c ∷ d ∷ s) (h, (k, hs)) =
    ground (arith, halve_dots-All q s hs, halve_dots-All q (d ∷ s) (k, hs))

length-halve_dots-le : (s : Bytes) → length (halve_dots s) ≤ length s
unfolding halve_dots
length-halve_dots-le [] = omega arith
length-halve_dots-le (c ∷ []) = omega arith
length-halve_dots-le (c ∷ d ∷ s) =
    ground (arith, length-halve_dots-le s, length-halve_dots-le (d ∷ s))

pub length-halve_dots-lt : (s : Bytes) → has_dots s ≡ true → length (halve_dots s) < length s
unfolding halve_dots has_dots
length-halve_dots-lt [] h = cc
length-halve_dots-lt (c ∷ []) h = cc
length-halve_dots-lt (c ∷ d ∷ s) h =
    ground (arith, length-halve_dots-le s, length-halve_dots-lt (d ∷ s))

abbrev no_edge : ℕ → Bool
no_edge c = not (is_edge c)

halve_dots-first :
    (s : Bytes) → first_passes no_edge s ≡ true → first_passes no_edge (halve_dots s) ≡ true
unfolding halve_dots
halve_dots-first [] h = h
halve_dots-first (c ∷ s) h = let (r, e) = halve_dots-cons c s in rw e h

halve_dots-last :
    (s : Bytes) → last_passes is_edge s ≡ true → last_passes is_edge (halve_dots s) ≡ true
unfolding halve_dots
halve_dots-last [] h = h
halve_dots-last (c ∷ []) h = h
halve_dots-last (c ∷ d ∷ []) h = elim (Bool-cases (c == b'.' && d == b'.')) [
  | inl e ↦ absurd (ground (arith, e, h))
  | inr e ↦ rw e h
]
halve_dots-last (c ∷ d ∷ x ∷ s) h = elim (Bool-cases (c == b'.' && d == b'.')) [
  | inl e ↦
      let (r, f) = halve_dots-cons x s in
      rw e (
        ap (λ l. last_passes is_edge (b'.' ∷ l)) f
        ∙ sym (ap (last_passes is_edge) f)
        ∙ halve_dots-last (x ∷ s) h)
  | inr e ↦
      let (r, f) = halve_dots-cons d (x ∷ s) in
      rw e (
        ap (λ l. last_passes is_edge (c ∷ l)) f
        ∙ sym (ap (last_passes is_edge) f)
        ∙ halve_dots-last (d ∷ x ∷ s) h)
]

pub squeeze_more :
    (n : ℕ) (s : Bytes) → has_dots s ≡ true → squeeze (suc n) s ≡ squeeze n (halve_dots s)
unfolding squeeze
squeeze_more n s e = rw (e, squeeze) refl

pub squeeze_done : (n : ℕ) (s : Bytes) → has_dots s ≡ false → squeeze (suc n) s ≡ s
unfolding squeeze
squeeze_done n s e = rw (e, squeeze) refl

-- A property that each round keeps holds at the end of the loop.
squeeze-keeps :
    (P : Bytes → Type 0)
    → ((s : Bytes) → P s → P (halve_dots s))
    → (n : ℕ) (s : Bytes) → P s
    → P (squeeze n s)
squeeze-keeps P keep zero s h = unfold squeeze in h
squeeze-keeps P keep (suc n) s h = elim (Bool-cases (has_dots s)) [
  | inl e ↦ subst P (sym (squeeze_more n s e)) (squeeze-keeps P keep n (halve_dots s) (keep s h))
  | inr e ↦ subst P (sym (squeeze_done n s e)) h
]

-- The fuel is enough: the loop ends because no two dots are left.
has_dots-squeeze : (n : ℕ) (s : Bytes) → length s ≤ n → has_dots (squeeze n s) ≡ false
has_dots-squeeze zero [] h = unfold has_dots squeeze in refl
has_dots-squeeze zero (c ∷ s) h = absurd (omega arith)
has_dots-squeeze (suc n) s h = elim (Bool-cases (has_dots s)) [
  | inl e ↦
      ap has_dots (squeeze_more n s e)
      ∙ has_dots-squeeze n (halve_dots s) (omega (arith, length-halve_dots-lt s e))
  | inr e ↦ ap has_dots (squeeze_done n s e) ∙ e
]

-- A name that is safe in a directory and as an argument: not empty, of at most 80 bytes, each a letter, a
-- digit, a dot, a dash or an underscore; it opens and ends with none of dash and dot, and no
-- two dots stand side by side.
pub record IsSafe (s : Bytes) : Type 0 where
  pub nonempty : s ≢ []
  pub short : length s ≤ max_slug_len
  pub plain : All (λ c. is_name_byte c ≡ true) s
  pub opens : first_passes no_edge s ≡ true
  pub ends : last_passes is_edge s ≡ true
  pub dots : has_dots s ≡ false

or_file-IsSafe :
    (s : Bytes)
    → length s ≤ max_slug_len
    → All (λ c. is_name_byte c ≡ true) s
    → first_passes no_edge s ≡ true
    → last_passes is_edge s ≡ true
    → has_dots s ≡ false
    → IsSafe (or_file s)
or_file-IsSafe [] l a f e d = record {
  nonempty = λ h. cc;
  short = omega arith;
  plain = (refl, (refl, (refl, (refl, tt))));
  opens = refl;
  ends = refl;
  dots = unfold has_dots in refl;
}
or_file-IsSafe (c ∷ s) l a f e d = record {
  nonempty = λ h. cc;
  short = l;
  plain = a;
  opens = f;
  ends = e;
  dots = d;
}

-- Whatever the title of a download or the name of an upload, the name made of it is safe: it cannot leave the
-- directory, hide the file, or be read as an option by a child process.
pub sanitize_name-IsSafe : (s : Bytes) → IsSafe (sanitize_name s)
unfolding sanitize_name trim_by
sanitize_name-IsSafe s =
    let cut = take max_slug_len (slug false s) in
    let left = trim_left_by is_edge cut in
    let out = trim_right_by is_edge left in
    let n = length out in
    or_file-IsSafe (squeeze n out)
      (squeeze-keeps (λ x. length x ≤ max_slug_len) (λ x h. omega (arith, length-halve_dots-le x)) n
        out
        (omega (
          arith,
          length-trim_right-le is_edge left,
          length-trim_left-le is_edge cut,
          length-take-le max_slug_len (slug false s),
        )))
      (squeeze-keeps (All (λ c. is_name_byte c ≡ true)) (halve_dots-All is_name_byte) n out (
        trim_right-All is_edge is_name_byte left (
          trim_left-All is_edge is_name_byte cut
            (take-All is_name_byte max_slug_len (slug false s) (slug-All false s)))))
      (squeeze-keeps (λ x. first_passes no_edge x ≡ true) halve_dots-first n out
        (trim_right-first is_edge left (trim_left-first is_edge cut)))
      (squeeze-keeps (λ x. last_passes is_edge x ≡ true) halve_dots-last n out
        (trim_right-last is_edge left))
      (has_dots-squeeze n out (omega arith))
