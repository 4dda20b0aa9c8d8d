-- ===== src/Runner/Arguments.antt =====
-- What an argument of a child process may be, whichever program internal/runner starts.
use aiofiles.Prelude.{
  Bool, true, false, not, ◌||◌, ◌≡◌, refl, List, [], ◌∷◌, ◌++◌, All, any, String, str_eq,
  str_eq_iff, codes, Bool-cases, inl, inr,
}
use mathlib.Core.Path.{subst}
use aiofiles.Prelude.Bytes.{Bytes, same_codes}
use aiofiles.Presets.Tables.{Choice}
use aiofiles.Presets.Checks.{is_one_of}
use aiofiles.Runner.Numerals.{starts_dash}

module _ (options : List Bytes) where
  -- An argument is one of the given options, or does not begin as an option does.
  abbrev pub vetted : Bytes → Bool
  vetted a = not (starts_dash a) || any (same_codes a) options

  abbrev pub AllVetted : List Bytes → Type 0
  AllVetted args = All (λ a. vetted a ≡ true) args

  pub plain : (a : Bytes) → starts_dash a ≡ false → vetted a ≡ true
  plain a h = rw h refl

  pub AllVetted-append : (l m : List Bytes) → AllVetted l → AllVetted m → AllVetted (l ++ m)
  AllVetted-append [] m h k = k
  AllVetted-append (a ∷ l) m (h, hs) k = (h, AllVetted-append l m hs k)

-- Each value of an option set.
pub one_of_plain :
    (v : String) (opts : List Choice)
    → All (λ (o : Choice). starts_dash (codes o.value) ≡ false) opts
    → is_one_of v opts ≡ true
    → starts_dash (codes v) ≡ false
unfolding is_one_of
one_of_plain v [] h e = cc
one_of_plain v (o ∷ opts) (h, hs) e = elim (Bool-cases (str_eq o.value v)) [
  | inl same ↦ subst (λ s. starts_dash (codes s) ≡ false) ((str_eq_iff o.value v).0 same) h
  | inr other ↦ one_of_plain v opts hs (rw (other, is_one_of) at e)
]
