-- ===== src/Presets/Convert.antt =====
-- internal/presets/presets.go: the parameters of a convert job.
pub mod Tuning
pub mod Laws
use aiofiles.Prelude.{
  ℕ, String, Bool, true, false, not, ◌&&◌, ◌||◌, Option, none, some, List, [], ◌∷◌, str_eq,
  if◌then◌else◌, Result, ok, err, ◌>>=◌, ◌>>◌, refuse_if,
}
use aiofiles.Prelude.Int.{ℤ, pos, ltb_ℤ}
use aiofiles.Presets.Tables.{
  entry, entry_of, or_empty, video_containers, video_codecs, encode_presets, encode_speeds,
  resolutions, frame_rates, audio_codecs, audio_bitrates, crf_bounds, encode_preset_crf,
  encode_preset_speed,
}
use aiofiles.Presets.Checks.{
  Checked, invalid, passes, says, between, no_settings, one_of, check_retention,
  check_container_codec, Decoder, decode,
}

pub record ConvertParams : Type 0 where
  pub preset : String
  pub container : String
  pub video_codec : String
  pub speed : String
  pub crf : ℤ
  pub resolution : String
  pub frame_rate : String
  pub audio_codec : String
  pub audio_bitrate : String
  pub strip_metadata : Bool
  pub retention_days : ℤ

abbrev pub convert_defaults : ℤ → ConvertParams
convert_defaults retention = record {
  preset = "custom";
  container = "mp4";
  video_codec = "h264";
  speed = "medium";
  crf = pos 23;
  resolution = "source";
  frame_rate = "source";
  audio_codec = "aac";
  audio_bitrate = "192";
  strip_metadata = false;
  retention_days = retention;
}

check_range : String → ℤ → Option (ℕ × ℕ) → Checked (Unit {0})
check_range codec crf none = invalid "video_codec" (says "no quality range defined")
check_range codec crf (some (lo, hi)) =
    if ltb_ℤ crf (pos lo) || ltb_ℤ (pos hi) crf then invalid "crf" (between lo hi codec) else passes

check_custom : ConvertParams → Checked (Unit {0})
unfolding check_range
check_custom p = do
  one_of "speed" p.speed encode_speeds
  if str_eq p.video_codec "copy"
      then passes
      else check_range p.video_codec p.crf (entry crf_bounds p.video_codec)

check_tuned : String → String → Checked (Unit {0})
check_tuned preset codec =
    if str_eq codec "copy"
    then invalid "preset"
        (says "there is nothing to tune when copying the video stream - choose the custom preset")
    else elim (entry_of encode_preset_crf preset codec) [
      | none ↦ invalid "preset" (no_settings codec)
      | some n ↦ passes
    ]

unfoldable pub check_preset : ConvertParams → Checked (Unit {0})
unfolding check_custom check_tuned
check_preset p =
    if not (str_eq p.preset "custom") then check_tuned p.preset p.video_codec else check_custom p

unfoldable pub resolved : ConvertParams → String × ℤ
resolved p = elim (entry_of encode_preset_crf p.preset p.video_codec) [
  | none ↦ (p.speed, p.crf)
  | some n ↦ (or_empty (entry encode_preset_speed p.preset), pos n)
]

-- `p.Speed, p.CRF = p.Resolved()`
unfoldable pub fold_preset : ConvertParams → ConvertParams
unfolding resolved
fold_preset p = record p { speed = (resolved p).0; crf = (resolved p).1 }

unfoldable pub check_bitrate : ConvertParams → Checked (Unit {0})
check_bitrate p =
    if not (str_eq p.audio_codec "none")
      && (not (str_eq p.audio_codec "copy") && not (str_eq p.audio_codec "flac"))
    then one_of "audio_bitrate" p.audio_bitrate audio_bitrates
    else passes

-- The checks behind the decoding, in their order.
unfoldable pub check_convert : ConvertParams → Checked ConvertParams
unfolding check_bitrate
check_convert p = do
  one_of "container" p.container video_containers
  one_of "video_codec" p.video_codec video_codecs
  one_of "preset" p.preset encode_presets
  check_preset p
  one_of "resolution" p.resolution resolutions
  one_of "frame_rate" p.frame_rate frame_rates
  one_of "audio_codec" p.audio_codec audio_codecs
  check_bitrate p
  check_container_codec p.container p.video_codec p.audio_codec
  check_retention p.retention_days
  ok (fold_preset p)

unfoldable pub parse_convert : Decoder ConvertParams → List ℕ → ℤ → Checked ConvertParams
unfolding check_convert
parse_convert json raw retention = do
  p ← decode json raw (convert_defaults retention)
  check_convert p
