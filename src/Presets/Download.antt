-- ===== src/Presets/Download.antt =====
-- internal/presets/presets.go: the parameters of a download job. A format id is its bytes.
pub mod FormatId
pub mod Laws
use aiofiles.Prelude.{
  ℕ, String, Bool, true, false, not, ◌&&◌, ◌||◌, List, [], ◌∷◌, str_eq, ltb, length, if◌then◌else◌,
  ok, err, ◌>>=◌, ◌>>◌, refuse_if,
}
use aiofiles.Prelude.Int.{ℤ}
use aiofiles.Presets.Tables.{audio_formats, audio_bitrates, video_containers}
use aiofiles.Presets.Checks.{
  Checked, invalid, passes, says, one_of, check_retention, Decoder, decode,
}
use FormatId.{matches}

pub record DownloadParams : Type 0 where
  pub mode : String
  pub format_id : List ℕ
  pub audio_format : String
  pub audio_bitrate : String
  pub container : String
  pub embed_subs : Bool
  pub embed_thumb : Bool
  pub embed_metadata : Bool
  pub retention_days : ℤ

abbrev pub download_defaults : ℤ → DownloadParams
download_defaults retention = record {
  mode = "video";
  format_id = [];
  audio_format = "";
  audio_bitrate = "";
  container = "";
  embed_subs = false;
  embed_thumb = false;
  embed_metadata = false;
  retention_days = retention;
}

abbrev is_empty : List ℕ → Bool
is_empty [] = true
is_empty (b ∷ s) = false

check_mode : String → Checked (Unit {0})
check_mode mode =
    if not (str_eq mode "video") && not (str_eq mode "audio")
    then invalid "mode" (says "must be video or audio")
    else passes

unfoldable pub check_format_id : List ℕ → Checked (Unit {0})
check_format_id id =
    if not (is_empty id) && not (matches id)
    then invalid "format_id" (says "contains disallowed characters")
    else if ltb 64 (length id)
    then invalid "format_id" (says "too long")
    else passes

unfoldable pub check_audio : DownloadParams → Checked (Unit {0})
check_audio p = do
  one_of "audio_format" p.audio_format audio_formats
  if str_eq p.audio_bitrate ""
      then passes
      else one_of "audio_bitrate" p.audio_bitrate audio_bitrates

unfoldable pub check_streams : DownloadParams → Checked (Unit {0})
unfolding check_audio
check_streams p =
    if str_eq p.mode "audio"
    then check_audio p
    else if str_eq p.container ""
    then passes
    else one_of "container" p.container video_containers

unfoldable pub check_download : DownloadParams → Checked DownloadParams
unfolding check_mode check_streams
check_download p = do
  check_mode p.mode
  check_format_id p.format_id
  check_streams p
  check_retention p.retention_days
  ok p

unfoldable pub parse_download : Decoder DownloadParams → List ℕ → ℤ → Checked DownloadParams
unfolding check_download
parse_download json raw retention = do
  p ← decode json raw (download_defaults retention)
  check_download p
