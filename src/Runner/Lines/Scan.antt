-- ===== src/Runner/Lines/Scan.antt =====
-- That the lines do not depend on how the text arrives.
use aiofiles.Prelude.{
  ℕ, zero, suc, ◌+◌, ◌≤◌, ◌<◌, Bool, true, false, ◌≡◌, refl, sym, ap, ◌∙◌, List, [], ◌∷◌, ◌++◌, All,
  concat, length, length-append, drop, none, some, leb, arith, Bool-cases, Option-cases, list_cases,
  inl, inr,
}
use mathlib.Core.Path.{subst}
use mathlib.Core.List.{append_assoc}
use aiofiles.Prelude.Slices.{drop-length}
use aiofiles.Prelude.Bytes.{Bytes}
use aiofiles.Runner.Lines.{
  Step, max_line_bytes, is_end, leading, before_end, split_lines, with_line, pull, scan_lines,
  rest_of, found,
}
use aiofiles.Runner.Lines.Split.{
  emit, text_lines, NoEnd, text_lines-leading, text_lines-run, before_end-none, text_lines-ended,
  length-drop-lt, before_end-pos,
}

split_lines-some :
    (at_eof : Bool) (s l : Bytes)
    → before_end (drop (leading s) s) ≡ some l
    → split_lines s at_eof ≡ (leading s + length l + 1, some l)
unfolding split_lines
split_lines-some at_eof s l e = ap (found at_eof (leading s) s) e

split_lines-none :
    (at_eof : Bool) (s : Bytes)
    → before_end (drop (leading s) s) ≡ none
    → split_lines s at_eof ≡ rest_of at_eof (leading s) s (drop (leading s) s)
unfolding split_lines
split_lines-none at_eof s e = ap (found at_eof (leading s) s) e

pull-none :
    (at_eof : Bool) (fuel n : ℕ) (s : Bytes)
    → split_lines s at_eof ≡ (n, none)
    → pull at_eof (suc fuel) s ≡ ([], drop n s)
unfolding pull
pull-none at_eof fuel n s h =
    ap
      (λ (r : Step). elim r.1 [
        | none ↦ ([], drop r.0 s)
        | some l ↦ with_line l (pull at_eof fuel (drop r.0 s))
      ])
      h

pull-some :
    (at_eof : Bool) (fuel n : ℕ) (s l : Bytes)
    → split_lines s at_eof ≡ (n, some l)
    → pull at_eof (suc fuel) s ≡ with_line l (pull at_eof fuel (drop n s))
unfolding pull
pull-some at_eof fuel n s l h =
    ap
      (λ (r : Step). elim r.1 [
        | none ↦ ([], drop r.0 s)
        | some l ↦ with_line l (pull at_eof fuel (drop r.0 s))
      ])
      h

-- The text shrinks with each line.
shrinks :
    (fuel : ℕ) (s l : Bytes)
    → before_end (drop (leading s) s) ≡ some l
    → length s < suc fuel
    → length (drop (leading s + length l + 1) s) < fuel
shrinks fuel s l e h = omega (
  arith,
  length-drop-lt (leading s + length l + 1) s (omega arith) (before_end-pos (leading s) s l e),
)

-- Between two reads the lines that are there are found, and what stays has no terminator.
pull-text_lines :
    (fuel : ℕ) (s t : Bytes)
    → length s < fuel
    → (text_lines [] (s ++ t) ≡ (pull false fuel s).0 ++ text_lines [] ((pull false fuel s).1 ++ t))
      × NoEnd (pull false fuel s).1
pull-text_lines zero s t h = absurd (omega arith)
pull-text_lines (suc fuel) s t h = elim (Option-cases (before_end (drop (leading s) s))) [
  | inl e ↦
      rw (pull-none false fuel (leading s) s (split_lines-none false s e))
        (text_lines-leading s t, before_end-none (drop (leading s) s) e)
  | inr (l, e) ↦
      let n = leading s + length l + 1 in
      let (same, open_) = pull-text_lines fuel (drop n s) t (shrinks fuel s l e h) in
      rw (pull-some false fuel n s l (split_lines-some false s l e))
        (text_lines-ended s l t e ∙ ap (λ x. l ∷ x) same, open_)
]

-- What is left at the end, if there is anything, is a line.
text_lines-last : (s : Bytes) → NoEnd s → text_lines [] (s ++ []) ≡ emit s []
unfolding text_lines
text_lines-last s h = text_lines-run [] s [] h

pull_nil : (fuel : ℕ) → (pull true fuel []).0 ≡ []
unfolding pull
pull_nil zero = refl
pull_nil (suc fuel) = unfold split_lines leading before_end in refl

-- At the end of the text all lines are found.
pull_all : (fuel : ℕ) (s : Bytes) → length s < fuel → (pull true fuel s).0 ≡ text_lines [] (s ++ [])
pull_all zero s h = absurd (omega arith)
pull_all (suc fuel) s h = elim (Option-cases (before_end (drop (leading s) s))) [
  | inl e ↦
      let open_ = before_end-none (drop (leading s) s) e in
      elim (list_cases (drop (leading s) s)) [
        | inl f ↦
            let g : split_lines s true ≡ (length s, none) =
              split_lines-none true s e ∙ ap (rest_of true (leading s) s) f in
            ap (λ r. r.0) (pull-none true fuel (length s) s g)
            ∙ sym (
                text_lines-leading s []
                ∙ ap (λ x. text_lines [] (x ++ [])) f
                ∙ (unfold text_lines in refl))
        | inr (c, m, f) ↦
            let g : split_lines s true ≡ (length s, some (c ∷ m)) =
              split_lines-none true s e ∙ ap (rest_of true (leading s) s) f in
            ap (λ r. r.0) (pull-some true fuel (length s) s (c ∷ m) g)
            ∙ ap (λ x. (c ∷ m) ∷ x) (ap (λ x. (pull true fuel x).0) (drop-length s) ∙ pull_nil fuel)
            ∙ sym (
                text_lines-leading s []
                ∙ ap (λ x. text_lines [] (x ++ [])) f
                ∙ text_lines-last (c ∷ m) (subst NoEnd f open_))
      ]
  | inr (l, e) ↦
      let n = leading s + length l + 1 in
      rw (pull-some true fuel n s l (split_lines-some true s l e)) (
        ap (λ x. l ∷ x) (pull_all fuel (drop n s) (shrinks fuel s l e h))
        ∙ sym (text_lines-ended s l [] e))
]

-- A run that is not over is a part of the first line.
first_line :
    (n : ℕ) (cur t : Bytes) (k : ℕ)
    → k ≤ length cur
    → 0 < k
    → All (λ (l : Bytes). length l < n) (text_lines cur t)
    → k < n
unfolding text_lines
first_line n [] t k h pos h' = absurd (omega arith)
first_line n (c ∷ cur) [] k h pos (a, _) = omega arith
first_line n (c ∷ cur) (d ∷ t) k h pos all = elim (Bool-cases (is_end d)) [
  | inl e ↦ let (a, _) = rw (e, text_lines) at all in omega arith
  | inr e ↦
      first_line n (c ∷ (cur ++ d ∷ [])) t k (omega (arith, length-append cur (d ∷ []))) pos
        (rw (e, text_lines) at all)
]

module _ {A : Type 0} (P : A → Type 0) where
  All-behind : (l m : List A) → All P (l ++ m) → All P m
  All-behind [] m h = h
  All-behind (x ∷ l) m (_, h) = All-behind l m h

-- What stays in the buffer does not fill it.
fits :
    (q t : Bytes)
    → NoEnd q
    → All (λ (l : Bytes). length l < max_line_bytes) (text_lines [] (q ++ t))
    → length q < max_line_bytes
fits [] t open_ h = omega arith
fits (c ∷ q) t open_ h =
    first_line max_line_bytes (c ∷ q) t (length (c ∷ q)) (omega arith) (omega arith)
      (subst (All (λ (l : Bytes). length l < max_line_bytes)) (text_lines-run [] (c ∷ q) t open_) h)

-- However the reads cut what a process writes, the lines that are reported are the longest runs of it without
-- a line feed or a carriage return, in their order, if each of them is shorter than the buffer.
pub scan_lines-text_lines :
    (s : Bytes) (chunks : List Bytes)
    → All (λ (l : Bytes). length l < max_line_bytes) (text_lines [] (s ++ concat chunks))
    → scan_lines s chunks ≡ text_lines [] (s ++ concat chunks)
unfolding scan_lines
scan_lines-text_lines s [] h = pull_all (suc (length s)) s (omega arith)
scan_lines-text_lines s (chunk ∷ chunks) h =
    let p = s ++ chunk in
    let rest = concat chunks in
    let whole : text_lines [] (s ++ (chunk ++ rest)) ≡ text_lines [] (p ++ rest) =
      ap (text_lines []) (sym (append_assoc s chunk rest)) in
    let (same, open_) = pull-text_lines (suc (length p)) p rest (omega arith) in
    let q = (pull false (suc (length p)) p).1 in
    let all =
      All-behind (λ (l : Bytes). length l < max_line_bytes) ((pull false (suc (length p)) p).0)
        (text_lines [] (q ++ rest))
        (subst (All (λ (l : Bytes). length l < max_line_bytes)) (whole ∙ same) h) in
    let room : leb max_line_bytes (length q) ≡ false = ground (arith, fits q rest open_ all) in
    rw room
      (ap (λ ls. (pull false (suc (length p)) p).0 ++ ls) (scan_lines-text_lines q chunks all))
    ∙ sym (whole ∙ same)
