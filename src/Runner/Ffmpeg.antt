-- ===== src/Runner/Ffmpeg.antt =====
-- internal/runner/ffmpeg.go: what an encode is made of, its tables, and the budget of a size target. A
-- duration is in microseconds, the unit ffprobe writes it in, and the arithmetic on it is exact.
pub mod Command
pub mod Budget
pub mod Vetted
pub mod Accepted
pub mod Meter
pub mod Edit
pub mod Run
use aiofiles.Prelude.{
  ℕ, zero, suc, ◌+◌, ◌-◌, ◌*◌, ◌/◌, ◌%◌, min, String, Bool, true, false, not, ◌&&◌, ◌||◌, List, [],
  ◌∷◌, ◌++◌, ◌==◌, ltb, leb, if◌then◌else◌, str_eq, codes, Option, none, some, Result, ok, err,
  ◌>>=◌,
}
use aiofiles.Prelude.Bytes.{Bytes}
use aiofiles.Prelude.Int.{ℤ, pos, negsuc}
use aiofiles.Jobs.Types.{JobType, convert, compress}
use aiofiles.Presets.Checks.{ValidationError, Decoder, default_audio_codec}
use aiofiles.Presets.Convert.{ConvertParams, parse_convert, resolved}
use aiofiles.Presets.Compress.{CompressParams, parse_compress, compress_crf_for}
use aiofiles.Runner.Numerals.{atoi, itoa}

pub record EncodeSpec : Type 0 where
  pub container : String
  pub video_codec : String
  pub speed : String
  pub crf : ℤ
  pub resolution : String
  pub frame_rate : String
  pub audio_codec : String
  pub audio_bitrate : String
  pub strip_metadata : Bool
  pub stage : String
  pub target_mb : ℤ
  pub video_kbps : ℕ
  pub pass : ℕ
  pub pass_log : Bytes

abbrev pub min_video_kbps : ℕ
min_video_kbps = 100

abbrev pub max_video_kbps : ℕ
max_video_kbps = 500000

abbrev pub video_encoders : List (String × String)
video_encoders =
    ("h264", "libx264")
    ∷ ("h265", "libx265")
    ∷ ("vp9", "libvpx-vp9")
    ∷ ("av1", "libsvtav1")
    ∷ ("copy", "copy")
    ∷ []

abbrev pub vp9_cpu_used : List (String × ℕ)
vp9_cpu_used =
    ("veryslow", 0)
    ∷ ("slow", 1)
    ∷ ("medium", 2)
    ∷ ("fast", 3)
    ∷ ("faster", 4)
    ∷ ("veryfast", 5)
    ∷ []

abbrev pub svt_av1_preset : List (String × ℕ)
svt_av1_preset =
    ("veryslow", 2)
    ∷ ("slow", 4)
    ∷ ("medium", 6)
    ∷ ("fast", 8)
    ∷ ("faster", 9)
    ∷ ("veryfast", 10)
    ∷ []

-- A running time in a message, rounded to seconds, half of one upwards.
human_seconds : ℕ → Bytes
human_seconds sec =
    if leb 3600 sec
    then itoa (pos (sec / 3600))
      ++ (codes " hours " ++ (itoa (pos (sec % 3600 / 60)) ++ codes " minutes"))
    else if leb 60 sec
    then itoa (pos (sec / 60)) ++ (codes " minutes " ++ (itoa (pos (sec % 60)) ++ codes " seconds"))
    else itoa (pos sec) ++ codes " seconds"

unfoldable pub human_duration : ℕ → Bytes
unfolding human_seconds
human_duration us = human_seconds ((us + 500000) / 1000000)

-- The errors of a run before ffmpeg starts; `too_small` is a size target with the running time and the
-- audio bitrate that its message shows.
pub data RunError : Type 0 where
  bad_params : ValidationError → RunError
  unsupported_type : JobType → RunError
  unknown_length : RunError
  too_small : ℕ → Bytes → ℤ → RunError

unfoldable pub audio_kbps : EncodeSpec → ℤ
unfolding atoi
audio_kbps s = if str_eq s.audio_codec "none" then pos 0 else (atoi (codes s.audio_bitrate)).0

-- `int(totalKbps) - audioKbps`
abbrev less : ℕ → ℤ → ℤ
less total (pos a) = if leb a total then pos (total - a) else negsuc (a - total - 1)
less total (negsuc a) = pos (total + suc a)

-- What is left for the video, once it is known.
abbrev fit_video : RunError → ℤ → Result RunError ℕ
fit_video e (negsuc v) = err e
fit_video e (pos v) = if ltb v min_video_kbps then err e else ok (min v max_video_kbps)

-- `targetMB * 1e6 * 8 / 1000 / durationSec * 0.98`, rounded down.
abbrev total_kbps : ℕ → ℕ → ℕ
total_kbps mb us = mb * 7840000000 / us

unfoldable pub target_video_kbps : ℕ → ℕ → ℤ → Result RunError ℕ
unfolding human_duration
target_video_kbps mb zero audio = err unknown_length
target_video_kbps mb (suc us) audio =
    fit_video (too_small mb (human_duration (suc us)) audio) (less (total_kbps mb (suc us)) audio)

unfoldable pub convert_spec : ConvertParams → EncodeSpec
convert_spec p = record {
  container = p.container;
  video_codec = p.video_codec;
  speed = (resolved p).0;
  crf = (resolved p).1;
  resolution = p.resolution;
  frame_rate = p.frame_rate;
  audio_codec = p.audio_codec;
  audio_bitrate = p.audio_bitrate;
  strip_metadata = p.strip_metadata;
  stage = "converting";
  target_mb = pos 0;
  video_kbps = 0;
  pass = 0;
  pass_log = [];
}

unfoldable pub compress_spec : CompressParams → EncodeSpec
compress_spec p = record {
  container = p.container;
  video_codec = p.video_codec;
  speed = p.speed;
  crf = pos (compress_crf_for p);
  resolution = p.resolution;
  frame_rate = "source";
  audio_codec = default_audio_codec p.container;
  audio_bitrate = p.audio_bitrate;
  strip_metadata = p.strip_metadata;
  stage = "encoding";
  target_mb = p.target_size_mb;
  video_kbps = 0;
  pass = 0;
  pass_log = [];
}

-- The error of a parse, as the run returns it.
abbrev pub lift_invalid {ℓ} : {A : Type ℓ} → Result ValidationError A → Result RunError A
lift_invalid (ok a) = ok a
lift_invalid (err e) = err (bad_params e)

-- `retention` is the default that the runners pass; no run reads it.
unfoldable pub spec_for :
    Decoder ConvertParams
    → Decoder CompressParams
    → ℤ
    → JobType
    → List ℕ
    → Result RunError EncodeSpec
unfolding convert_spec compress_spec
spec_for jv jc retention convert params = do
  p ← lift_invalid (parse_convert jv params retention)
  ok (convert_spec p)
spec_for jv jc retention compress params = do
  p ← lift_invalid (parse_compress jc params retention)
  ok (compress_spec p)
spec_for jv jc retention kind params = err (unsupported_type kind)
