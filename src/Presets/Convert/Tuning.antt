-- ===== src/Presets/Convert/Tuning.antt =====
-- The speed and the quality that an accepted convert job is encoded with.
use aiofiles.Prelude.{
  ℕ, String, true, false, ◌≡◌, refl, sym, ◌⊎◌, inl, inr, Option, none, some, str_eq, str_eq_iff, ok,
  arith, Bool-cases, Option-cases, >>-ok,
}
use aiofiles.Prelude.Int.{ℤ, pos, ◌≤ℤ◌}
use mathlib.Core.Path.{subst}
use aiofiles.Presets.Tables.{
  entry, entry_of, or_empty, crf_bounds, encode_preset_crf, encode_preset_speed, encode_speeds,
}
use aiofiles.Presets.Checks.{is_one_of, one_of, one_of_sound}
use aiofiles.Presets.Convert.{
  ConvertParams, check_range, check_custom, check_tuned, check_preset, resolved,
}

-- A quality that lies between the bounds of its codec.
abbrev pub InRange : Option (ℕ × ℕ) → ℤ → Type 0
InRange none crf = ⊥
InRange (some (lo, hi)) crf = (pos lo ≤ℤ crf) × (crf ≤ℤ pos hi)

-- Every entry of the presets' table lies inside its codec's bounds.
preset_InRange :
    (preset codec : String) (n : ℕ)
    → entry_of encode_preset_crf preset codec ≡ some n
    → InRange (entry crf_bounds codec) (pos n)
unfolding entry_of
preset_InRange preset codec n h = ground arith

preset_known :
    (preset codec : String) (n : ℕ)
    → entry_of encode_preset_crf preset codec ≡ some n
    → ("quality" ≡ preset) ⊎ (("balanced" ≡ preset) ⊎ (("speed" ≡ preset) ⊎ ("size" ≡ preset)))
unfolding entry_of
preset_known preset codec n h = ground (
  arith,
  str_eq_iff "quality" preset,
  str_eq_iff "balanced" preset,
  str_eq_iff "speed" preset,
  str_eq_iff "size" preset,
)

abbrev IsSpeed : String → Type 0
IsSpeed preset = is_one_of (or_empty (entry encode_preset_speed preset)) encode_speeds ≡ true

IsSpeed-allowed :
    (preset codec : String) (n : ℕ)
    → entry_of encode_preset_crf preset codec ≡ some n
    → IsSpeed preset
unfolding entry is_one_of
IsSpeed-allowed preset codec n h = elim (preset_known preset codec n h) [
  | inl e ↦ subst IsSpeed e refl
  | inr (inl e) ↦ subst IsSpeed e refl
  | inr (inr (inl e)) ↦ subst IsSpeed e refl
  | inr (inr (inr e)) ↦ subst IsSpeed e refl
]

check_range_sound :
    (codec : String) (crf : ℤ) (b : Option (ℕ × ℕ))
    → check_range codec crf b ≡ ok tt
    → InRange b crf
unfolding check_range
check_range_sound codec crf none h = cc
check_range_sound codec crf (some (lo, hi)) h = ground arith

custom_untuned :
    (preset codec : String)
    → str_eq preset "custom" ≡ true
    → entry_of encode_preset_crf preset codec ≡ none
unfolding entry_of
custom_untuned preset codec e =
    subst (λ s. entry_of encode_preset_crf s codec ≡ none) (sym ((str_eq_iff preset "custom").0 e))
      refl

-- What the checks promise of the speed and the quality that a re-encode uses.
abbrev pub Encodes : String → String × ℤ → Type 0
Encodes codec (speed, crf) =
    InRange (entry crf_bounds codec) crf × (is_one_of speed encode_speeds ≡ true)

resolved_tuned :
    (p : ConvertParams) (n : ℕ)
    → entry_of encode_preset_crf p.preset p.video_codec ≡ some n
    → Encodes p.video_codec (resolved p)
unfolding resolved
resolved_tuned p n e =
    rw (e, resolved)
      (preset_InRange p.preset p.video_codec n e, IsSpeed-allowed p.preset p.video_codec n e)

check_custom_sound :
    (p : ConvertParams)
    → check_custom p ≡ ok tt
    → str_eq p.video_codec "copy" ≡ false
    → Encodes p.video_codec (p.speed, p.crf)
unfolding check_custom
check_custom_sound p h apart =
    let (a, b) = >>-ok (one_of "speed" p.speed encode_speeds) _ h in
    (
      check_range_sound p.video_codec p.crf (entry crf_bounds p.video_codec) (rw apart at b),
      one_of_sound "speed" p.speed encode_speeds a,
    )

check_tuned_sound :
    (preset codec : String)
    → check_tuned preset codec ≡ ok tt
    → (n : ℕ) × (entry_of encode_preset_crf preset codec ≡ some n)
unfolding check_tuned
check_tuned_sound preset codec h = elim (Option-cases (entry_of encode_preset_crf preset codec)) [
  | inl e ↦ absurd (ground arith)
  | inr f ↦ f
]

pub resolved_custom :
    (p : ConvertParams) → str_eq p.preset "custom" ≡ true → resolved p ≡ (p.speed, p.crf)
unfolding resolved
resolved_custom p e = rw (custom_untuned p.preset p.video_codec e, resolved)

pub resolved_sound :
    (p : ConvertParams)
    → check_preset p ≡ ok tt
    → str_eq p.video_codec "copy" ≡ false
    → Encodes p.video_codec (resolved p)
unfolding check_preset
resolved_sound p h apart = elim (Bool-cases (str_eq p.preset "custom")) [
  | inl e ↦ rw (resolved_custom p e) (check_custom_sound p (rw (e, check_preset) at h) apart)
  | inr e ↦
      let (n, f) = check_tuned_sound p.preset p.video_codec (rw (e, check_preset) at h) in
      resolved_tuned p n f
]
