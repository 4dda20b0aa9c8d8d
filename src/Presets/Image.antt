-- ===== src/Presets/Image.antt =====
-- internal/presets/presets.go: the parameters of an image job.
pub mod Laws
use aiofiles.Prelude.{
  ℕ, String, Bool, true, false, not, ◌||◌, Option, none, some, List, str_eq, if◌then◌else◌, ok, err,
  ◌>>=◌, ◌>>◌, refuse_if,
}
use aiofiles.Prelude.Int.{ℤ, pos, ltb_ℤ}
use aiofiles.Presets.Tables.{entry, image_formats, trace_targets, image_format_by_ext}
use aiofiles.Presets.Checks.{
  Checked, ValidationError, Reason, invalid, says, between, not_writable, one_of, check_retention,
  Decoder, decode,
}

pub record ImageParams : Type 0 where
  pub format : String
  pub trace : String
  pub quality : ℤ
  pub width : ℤ
  pub height : ℤ
  pub strip_metadata : Bool
  pub retention_days : ℤ

abbrev pub image_defaults : ℤ → ImageParams
image_defaults retention = record {
  format = "webp";
  trace = "dark";
  quality = pos 82;
  width = pos 0;
  height = pos 0;
  strip_metadata = true;
  retention_days = retention;
}

abbrev pub max_dim : ℕ
max_dim = 20000

abbrev outside : ℤ → ℕ → Bool
outside v high = ltb_ℤ v (pos 0) || ltb_ℤ (pos high) v

abbrev pub error_at : String → Reason → ValidationError
error_at f r = record { field = f; reason = r }

unfoldable pub check_image : ImageParams → Checked ImageParams
check_image p = do
  one_of "format" p.format image_formats
  one_of "trace" p.trace trace_targets
  refuse_if (outside p.quality 100) (error_at "quality" (says "must be between 0 and 100"))
  refuse_if (outside p.width max_dim) (error_at "width" (between 0 max_dim ""))
  refuse_if (outside p.height max_dim) (error_at "height" (between 0 max_dim ""))
  check_retention p.retention_days
  ok p

unfoldable pub parse_image : Decoder ImageParams → List ℕ → ℤ → Checked ImageParams
unfolding check_image
parse_image json raw retention = do p ← decode json raw (image_defaults retention); check_image p

-- `ext` is the extension of the input path, in lower case and without its dot.
unfoldable pub resolve_format : String → ImageParams → Checked String
resolve_format ext p =
    if not (str_eq p.format "source")
    then ok p.format
    else if str_eq ext ""
    then invalid "format"
        (says "this file has no extension, so its format cannot be kept - choose an output format")
    else elim (entry image_format_by_ext ext) [
      | none ↦ invalid "format" (not_writable ext)
      | some f ↦ ok f
    ]
