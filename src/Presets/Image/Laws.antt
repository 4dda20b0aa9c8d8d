-- ===== src/Presets/Image/Laws.antt =====
-- What the accepted parameters of an image job satisfy.
use aiofiles.Prelude.{
  ℕ, String, true, false, ◌≡◌, refl, inl, inr, some, List, str_eq, ok, arith, Bool-cases,
  Option-cases, >>-ok, >>=-ok, ok-injective, refuse_if,
}
use mathlib.Core.Path.{subst}
use aiofiles.Prelude.Int.{ℤ, pos, ◌≤ℤ◌}
use aiofiles.Presets.Tables.{entry, entry-All, image_formats, image_format_by_ext, trace_targets}
use aiofiles.Presets.Checks.{
  ValidationError, says, between, check_retention, is_one_of, one_of, one_of_sound, Decoder, decode,
}
use aiofiles.Presets.Image.{
  ImageParams, image_defaults, check_image, parse_image, resolve_format, max_dim, outside, error_at,
}

-- An output format: one of the formats on offer that is not "same as the input".
abbrev pub IsOutput : String → Type 0
IsOutput f = (is_one_of f image_formats ≡ true) × (str_eq f "source" ≡ false)

known-IsOutput : (ext f : String) → entry image_format_by_ext ext ≡ some f → IsOutput f
unfolding is_one_of
known-IsOutput ext f h =
    entry-All IsOutput image_format_by_ext ext
      (
        (refl, refl),
        (
          (refl, refl),
          (
            (refl, refl),
            (
              (refl, refl),
              ((refl, refl), ((refl, refl), ((refl, refl), ((refl, refl), ((refl, refl), tt))))),
            ),
          ),
        ),
      )
      h

pub record ImageOk (p : ImageParams) : Type 0 where
  pub format : is_one_of p.format image_formats ≡ true
  pub quality : (pos 0 ≤ℤ p.quality) × (p.quality ≤ℤ pos 100)
  pub width : (pos 0 ≤ℤ p.width) × (p.width ≤ℤ pos max_dim)
  pub height : (pos 0 ≤ℤ p.height) × (p.height ≤ℤ pos max_dim)

in_range :
    (v : ℤ) (high : ℕ) (e : ValidationError)
    → refuse_if (outside v high) e ≡ ok tt
    → (pos 0 ≤ℤ v) × (v ≤ℤ pos high)
in_range v high e h = ground arith

check_image-ImageOk : (p : ImageParams) {q : ImageParams} → check_image p ≡ ok q → ImageOk q
unfolding check_image
check_image-ImageOk p h =
    let (a, h) = >>-ok (one_of "format" p.format image_formats) _ h in
    let (_, h) = >>-ok (one_of "trace" p.trace trace_targets) _ h in
    let (b, h) =
      >>-ok
        (refuse_if (outside p.quality 100) (error_at "quality" (says "must be between 0 and 100")))
        _ h in
    let (c, h) =
      >>-ok (refuse_if (outside p.width max_dim) (error_at "width" (between 0 max_dim ""))) _ h in
    let (d, h) =
      >>-ok (refuse_if (outside p.height max_dim) (error_at "height" (between 0 max_dim ""))) _ h in
    let (_, h) = >>-ok (check_retention p.retention_days) _ h in
    subst ImageOk (ok-injective h) (record {
      format = one_of_sound "format" p.format image_formats a;
      quality = in_range p.quality 100 _ b;
      width = in_range p.width max_dim _ c;
      height = in_range p.height max_dim _ d;
    })

resolved-IsOutput :
    (ext : String) (p : ImageParams) (f : String)
    → is_one_of p.format image_formats ≡ true
    → resolve_format ext p ≡ ok f
    → IsOutput f
unfolding resolve_format
resolved-IsOutput ext p f known r = elim (Bool-cases (str_eq p.format "source")) [
  | inl e ↦ elim (Option-cases (entry image_format_by_ext ext)) [
    | inl none_found ↦ absurd (ground arith)
    | inr (g, found) ↦ known-IsOutput ext f (ground arith)
  ]
  | inr e ↦ subst IsOutput (ok-injective (rw (e, resolve_format) at r)) (known, e)
]

-- An accepted image job has a format on offer, a quality of at most 100, and a width and a height of
-- at most 20000, none of them negative; and whatever the extension of its input, the format that
-- it resolves to is one that can be written, never "same as the input".
pub parse_image-IsOutput :
    (json : Decoder ImageParams) (raw : List ℕ) (retention : ℤ) (ext : String) {p : ImageParams}
    {f : String}
    → parse_image json raw retention ≡ ok p
    → resolve_format ext p ≡ ok f
    → ImageOk p × IsOutput f
unfolding parse_image resolve_format
parse_image-IsOutput json raw retention ext {p} {f} h r =
    let (d, _, e) = >>=-ok (decode json raw (image_defaults retention)) check_image h in
    let v = check_image-ImageOk d e in (v, resolved-IsOutput ext p f v.format r)
