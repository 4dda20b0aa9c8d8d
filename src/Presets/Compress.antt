-- ===== src/Presets/Compress.antt =====
-- internal/presets/presets.go: the parameters of a compress job.
pub mod Laws
use aiofiles.Prelude.{
  ℕ, String, Bool, true, false, not, ◌||◌, Option, none, some, List, str_eq, if◌then◌else◌, ok, err,
  ◌>>=◌, ◌>>◌, refuse_if,
}
use aiofiles.Prelude.Int.{ℤ, pos, negsuc, ltb_ℤ, is_zero}
use aiofiles.Presets.Tables.{
  entry, entry_of, or_zero, video_containers, compress_targets, encode_speeds, resolutions,
  audio_bitrates, crf_bounds, compress_crf,
}
use aiofiles.Presets.Checks.{
  Checked, invalid, passes, says, between, one_of, check_retention, check_container_codec,
  default_audio_codec, Decoder, decode,
}

pub record CompressParams : Type 0 where
  pub target : String
  pub target_size_mb : ℤ
  pub container : String
  pub video_codec : String
  pub speed : String
  pub resolution : String
  pub audio_bitrate : String
  pub strip_metadata : Bool
  pub retention_days : ℤ

abbrev pub compress_defaults : ℤ → CompressParams
compress_defaults retention = record {
  target = "balanced";
  target_size_mb = pos 0;
  container = "mp4";
  video_codec = "h264";
  speed = "medium";
  resolution = "source";
  audio_bitrate = "128";
  strip_metadata = false;
  retention_days = retention;
}

abbrev pub target_size_min_mb : ℕ
target_size_min_mb = 1

abbrev pub target_size_max_mb : ℕ
target_size_max_mb = 65536

abbrev pub is_size_target : CompressParams → Bool
is_size_target p = str_eq p.target "target_size"

-- Zero for a size target, which is no key of the table.
unfoldable pub compress_crf_for : CompressParams → ℕ
compress_crf_for p = or_zero (entry_of compress_crf p.target p.video_codec)

check_quality_target : CompressParams → Checked (Unit {0})
check_quality_target p =
    if not (is_zero p.target_size_mb)
    then invalid "target_size_mb" (says "is only accepted when target is target_size")
    else elim (entry_of compress_crf p.target p.video_codec) [
      | none ↦ invalid "video_codec" (says "not supported for compression")
      | some n ↦ passes
    ]

check_megabytes : ℤ → Checked (Unit {0})
check_megabytes mb =
    if is_zero mb
    then invalid "target_size_mb" (says "is required when target is target_size")
    else if ltb_ℤ mb (pos target_size_min_mb) || ltb_ℤ (pos target_size_max_mb) mb
    then invalid "target_size_mb" (between target_size_min_mb target_size_max_mb "MB")
    else passes

check_budget : CompressParams → Checked (Unit {0})
unfolding check_megabytes
check_budget p =
    if str_eq p.video_codec "copy"
    then invalid "video_codec" (
        says
          "a copied stream keeps its original bitrate, so it cannot hit a size target - pick a codec to re-encode with")
    else elim (entry crf_bounds p.video_codec) [
      | none ↦ invalid "video_codec" (says "not supported for compression")
      | some b ↦ check_megabytes p.target_size_mb
    ]

unfoldable pub check_target_size : CompressParams → Checked (Unit {0})
unfolding check_quality_target check_budget
check_target_size p = if not (is_size_target p) then check_quality_target p else check_budget p

unfoldable pub check_compress : CompressParams → Checked CompressParams
check_compress p = do
  one_of "target" p.target compress_targets
  one_of "container" p.container video_containers
  one_of "speed" p.speed encode_speeds
  one_of "resolution" p.resolution resolutions
  one_of "audio_bitrate" p.audio_bitrate audio_bitrates
  check_target_size p
  check_container_codec p.container p.video_codec (default_audio_codec p.container)
  check_retention p.retention_days
  ok p

unfoldable pub parse_compress : Decoder CompressParams → List ℕ → ℤ → Checked CompressParams
unfolding check_compress
parse_compress json raw retention = do
  p ← decode json raw (compress_defaults retention)
  check_compress p
