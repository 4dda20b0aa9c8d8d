-- ===== src/Runner/Lines/Split.antt =====
-- The lines of a text, and how one is taken off.
use aiofiles.Prelude.{
  ℕ, zero, suc, ◌+◌, ◌<◌, true, false, ◌≡◌, refl, sym, ap, ◌∙◌, List, [], ◌∷◌, ◌++◌, any, length,
  drop, none, some, if◌then◌else◌, arith, some_injective, Bool-cases, Option-cases, inl, inr,
}
use mathlib.Core.Path.{subst}
use mathlib.Core.List.{append_assoc, append-nil}
use aiofiles.Prelude.Slices.{drop-drop, length-drop}
use aiofiles.Prelude.Bytes.{Bytes}
use aiofiles.Runner.Lines.{is_end, leading, before_end}

-- A run that is over, if there is one.
abbrev pub emit : Bytes → List Bytes → List Bytes
emit [] ls = ls
emit (c ∷ l) ls = (c ∷ l) ∷ ls

-- The lines of a text: the longest runs without a terminator, behind the run so far.
unfoldable pub text_lines : Bytes → Bytes → List Bytes
text_lines cur [] = emit cur []
text_lines cur (c ∷ s) =
    if is_end c then emit cur (text_lines [] s) else text_lines (cur ++ c ∷ []) s

abbrev pub NoEnd : Bytes → Type 0
NoEnd s = any is_end s ≡ false

leading_stop : (c : ℕ) (s : Bytes) → is_end c ≡ false → leading (c ∷ s) ≡ 0
unfolding leading
leading_stop c s e = rw (e, leading) refl

-- Terminators in front give no line.
pub text_lines-leading :
    (s t : Bytes) → text_lines [] (s ++ t) ≡ text_lines [] (drop (leading s) s ++ t)
unfolding text_lines leading
text_lines-leading [] t = refl
text_lines-leading (c ∷ s) t = elim (Bool-cases (is_end c)) [
  | inl e ↦ rw (e, leading, text_lines) (text_lines-leading s t)
  | inr e ↦ sym (ap (λ n. text_lines [] (drop n (c ∷ s) ++ t)) (leading_stop c s e))
]

pub text_lines-run : (cur q t : Bytes) → NoEnd q → text_lines cur (q ++ t) ≡ text_lines (cur ++ q) t
unfolding text_lines
text_lines-run cur [] t h = ap (λ l. text_lines l t) (sym (append-nil cur))
text_lines-run cur (c ∷ q) t h =
    let e : is_end c ≡ false = ground (arith, h) in
    let f : NoEnd q = ground (arith, h) in
    rw (e, text_lines) (text_lines-run (cur ++ c ∷ []) q t f)
    ∙ ap (λ l. text_lines l t) (append_assoc cur (c ∷ []) q)

-- A line in front of a terminator.
abbrev Ended : Bytes → Bytes → Type 0
Ended s l = (e : ℕ) × (r : Bytes) × (s ≡ l ++ e ∷ r) × (is_end e ≡ true) × NoEnd l

before_end-some : (s l : Bytes) → before_end s ≡ some l → Ended s l
unfolding before_end
before_end-some [] l h = absurd cc
before_end-some (c ∷ s) l h = elim (Bool-cases (is_end c)) [
  | inl e ↦ subst (Ended (c ∷ s)) (some_injective (rw (e, before_end) at h)) (c, s, refl, e, refl)
  | inr e ↦ elim (Option-cases (before_end s)) [
    | inl f ↦ absurd (cc (rw (e, f, before_end) at h))
    | inr (m, f) ↦
        let (d, r, same, ends, open_) = before_end-some s m f in
        subst (Ended (c ∷ s)) (some_injective (rw (e, f, before_end) at h))
          (d, r, ap (λ x. c ∷ x) same, ends, ground (arith, e, open_))
  ]
]

pub before_end-none : (s : Bytes) → before_end s ≡ none → NoEnd s
unfolding before_end
before_end-none [] h = refl
before_end-none (c ∷ s) h = elim (Bool-cases (is_end c)) [
  | inl e ↦ absurd (cc (rw (e, before_end) at h))
  | inr e ↦ elim (Option-cases (before_end s)) [
    | inl f ↦ ground (arith, e, before_end-none s f)
    | inr (m, f) ↦ absurd (cc (rw (e, f, before_end) at h))
  ]
]

-- What is left behind the terminators in front begins with none.
leading-first : (s : Bytes) (c : ℕ) (r : Bytes) → drop (leading s) s ≡ c ∷ r → is_end c ≡ false
unfolding leading
leading-first [] c r h = absurd cc
leading-first (d ∷ s) c r h = elim (Bool-cases (is_end d)) [
  | inl e ↦ leading-first s c r (rw (e, leading) at h)
  | inr e ↦
      let k : d ∷ s ≡ c ∷ r = rw (e, leading) at h in
      let same : d ≡ c = cc in subst (λ x. is_end x ≡ false) same e
]

drop-line : (l : Bytes) (e : ℕ) (r : Bytes) → drop (length l + 1) (l ++ e ∷ r) ≡ r
drop-line [] e r = refl
drop-line (c ∷ l) e r =
    ap (λ n. drop n (c ∷ (l ++ e ∷ r))) {x = suc (length l) + 1} {y = suc (length l + 1)}
      (omega arith)
    ∙ drop-line l e r

emit_line :
    (s l : Bytes) (e : ℕ) (r : Bytes) (ls : List Bytes)
    → drop (leading s) s ≡ l ++ e ∷ r
    → is_end e ≡ true
    → emit l ls ≡ l ∷ ls
emit_line s [] e r ls h ends = absurd (cc (leading-first s e r h))
emit_line s (c ∷ l) e r ls h ends = refl

-- One line is taken off.
pub text_lines-ended :
    (s l t : Bytes)
    → before_end (drop (leading s) s) ≡ some l
    → text_lines [] (s ++ t) ≡ l ∷ text_lines [] (drop (leading s + length l + 1) s ++ t)
text_lines-ended s l t h =
    let (e, r, same, ends, open_) = before_end-some (drop (leading s) s) l h in
    let left : drop (leading s + length l + 1) s ≡ r =
      ap (λ n. drop n s) {x = leading s + length l + 1} {y = leading s + (length l + 1)}
        (omega arith)
      ∙ sym (drop-drop (length l + 1) (leading s) s)
      ∙ ap (drop (length l + 1)) same
      ∙ drop-line l e r in
    let over : text_lines l (e ∷ (r ++ t)) ≡ emit l (text_lines [] (r ++ t)) =
      unfold text_lines in rw ends refl in
    text_lines-leading s t
    ∙ ap (λ x. text_lines [] (x ++ t)) same
    ∙ ap (text_lines []) (append_assoc l (e ∷ r) t)
    ∙ text_lines-run [] l (e ∷ (r ++ t)) open_
    ∙ over
    ∙ emit_line s l e r (text_lines [] (r ++ t)) same ends
    ∙ ap (λ x. l ∷ text_lines [] (x ++ t)) (sym left)

pub length-drop-lt : (n : ℕ) (s : Bytes) → 0 < n → 0 < length s → length (drop n s) < length s
length-drop-lt n s h k = omega (arith, length-drop n s)

-- A text with a line in it is not empty.
pub before_end-pos : (n : ℕ) (s l : Bytes) → before_end (drop n s) ≡ some l → 0 < length s
unfolding before_end
before_end-pos zero [] l h = absurd cc
before_end-pos (suc n) [] l h = absurd cc
before_end-pos n (c ∷ s) l h = omega arith
