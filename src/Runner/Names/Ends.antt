-- ===== src/Runner/Names/Ends.antt =====
-- That the loop that squeezes dots comes to an end, whatever the text.
use aiofiles.Prelude.{
  ℕ, zero, suc, ◌≤◌, true, false, ◌≡◌, refl, sym, inl, inr, [], ◌∷◌, length, arith, Bool-cases,
}
use mathlib.Core.Path.{subst}
use aiofiles.Prelude.Bytes.{Bytes}
use aiofiles.Runner.Names.{has_dots, halve_dots, squeeze}
use aiofiles.Runner.Names.Safe.{squeeze_more, squeeze_done, length-halve_dots-lt}

-- A run of `for strings.Contains(out, "..") { out = strings.ReplaceAll(out, "..", ".") }`: from a text, in so many
-- rounds, to another.
pub data Loop : ℕ → Bytes → Bytes → Type 0 where
  over : {s : Bytes} → has_dots s ≡ false → Loop 0 s s
  again : {n : ℕ} {s t : Bytes} → has_dots s ≡ true → Loop n (halve_dots s) t → Loop (suc n) s t

empty_over : Loop 0 [] (squeeze 0 [])
unfolding squeeze has_dots
empty_over = over refl

-- From every text the loop ends, after at most as many rounds as the text has bytes, and what it ends with is what the
-- function on fuel gives for any fuel that is at least the length.
pub squeeze-Loop :
    (fuel : ℕ) (s : Bytes) → length s ≤ fuel → (n : ℕ) × (n ≤ length s) × Loop n s (squeeze fuel s)
squeeze-Loop zero [] h = (0, omega arith, empty_over)
squeeze-Loop zero (c ∷ s) h = absurd (omega arith)
squeeze-Loop (suc fuel) s h = elim (Bool-cases (has_dots s)) [
  | inl e ↦
      let shorter = length-halve_dots-lt s e in
      let (n, le, loop) = squeeze-Loop fuel (halve_dots s) (omega (arith, shorter)) in
      (
        suc n,
        omega (arith, shorter, le),
        subst (Loop (suc n) s) (sym (squeeze_more fuel s e)) (again e loop),
      )
  | inr e ↦ (0, omega arith, subst (Loop 0 s) (sym (squeeze_done fuel s e)) (over e))
]
