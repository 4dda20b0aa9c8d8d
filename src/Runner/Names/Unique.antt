-- ===== src/Runner/Names/Unique.antt =====
-- That an output takes a name that no other file has.
use aiofiles.Prelude.{ℕ, zero, suc, Bool, true, false, ◌≡◌, ◌⊎◌, inl, inr, arith, Bool-cases}
use aiofiles.Prelude.Bytes.{Bytes}
use aiofiles.Runner.Names.{
  max_name_attempts, no_tag, output_name, pick_name, unique_output_name, sanitize_name, clean_ext,
  short_id,
}

module _ (taken : Bytes → Bool) (draw : ℕ → Bytes) (slug ext : Bytes) where
  -- With so many attempts left, the names of this attempt and of all later ones but the last are taken.
  abbrev pub AllTaken : ℕ → Bytes → Type 0
  AllTaken zero tag = Unit
  AllTaken (suc left) tag = (taken (output_name slug ext tag) ≡ true) × AllTaken left (draw left)

  pick_name-IsFree :
      (left : ℕ) (tag : Bytes)
      → no_tag tag ≡ false
      → ((n : ℕ) → no_tag (draw n) ≡ false)
      → (taken (pick_name left taken draw slug ext tag) ≡ false) ⊎ AllTaken left tag
  unfolding pick_name
  pick_name-IsFree zero tag h hs = inr tt
  pick_name-IsFree (suc left) tag h hs = elim (Bool-cases (taken (output_name slug ext tag))) [
    | inl e ↦ elim (pick_name-IsFree left (draw left) (hs left) hs) [
      | inl free ↦ inl (ground (arith, h, e, free))
      | inr all ↦ inr (e, all)
    ]
    | inr e ↦ inl (ground (arith, h, e))
  ]

-- An output never takes the name of a file that is there, unless the names of the job's own tag and of the
-- first fifteen drawn ones are all taken. The job's id gives a tag, and so does each drawing.
pub unique_output_name-IsFree :
    (taken : Bytes → Bool) (draw : ℕ → Bytes) (base ext id : Bytes)
    → no_tag (sanitize_name (short_id id)) ≡ false
    → ((n : ℕ) → no_tag (draw n) ≡ false)
    → (taken (unique_output_name taken draw base ext id) ≡ false)
      ⊎ AllTaken taken draw
          (sanitize_name base)
          (clean_ext ext)
          max_name_attempts
          (sanitize_name (short_id id))
unfolding unique_output_name
unique_output_name-IsFree taken draw base ext id h hs =
    pick_name-IsFree taken draw (sanitize_name base) (clean_ext ext) max_name_attempts
      (sanitize_name (short_id id)) h hs
