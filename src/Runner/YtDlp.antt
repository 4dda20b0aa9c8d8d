-- ===== src/Runner/YtDlp.antt =====
-- internal/runner/ytdlp.go: the arguments of yt-dlp, and the stages it announces.
pub mod Vetted
pub mod Formats
pub mod Media
pub mod Probe
pub mod Run
pub mod Collect
pub mod Progress
use aiofiles.Prelude.{
  ℕ, String, Bool, true, false, ◌||◌, List, [], ◌∷◌, ◌++◌, ◌==◌, if◌then◌else◌, str_eq, codes,
  Option, none, some,
}
use aiofiles.Prelude.Bytes.{Bytes, has_byte, has_prefix}
use aiofiles.Presets.Download.{DownloadParams}

abbrev pub Args : Type 0
Args = List Bytes

-- A video stream that is chosen alone is merged with the best sound.
unfoldable pub video_format_selector : Bytes → Bytes
video_format_selector [] = codes "bv*+ba/b"
video_format_selector (c ∷ id) =
    if has_byte b'+' (c ∷ id) then c ∷ id else (c ∷ id) ++ (codes "+ba/" ++ (c ∷ id))

abbrev pub audio_mode : DownloadParams → Args
audio_mode p =
    (codes "-x" ∷ codes "--audio-format" ∷ codes p.audio_format ∷ [])
    ++ (if str_eq p.audio_bitrate ""
        then []
        else codes "--audio-quality" ∷ (codes p.audio_bitrate ++ codes "K") ∷ [])

unfoldable pub video_mode : DownloadParams → Args
unfolding video_format_selector
video_mode p =
    (codes "-f" ∷ video_format_selector p.format_id ∷ [])
    ++ (if str_eq p.container ""
        then []
        else codes "--merge-output-format" ∷ codes p.container ∷ [])

abbrev pub when_set : Bool → String → Args
when_set b option = if b then codes option ∷ [] else []

abbrev pub embeds : DownloadParams → Args
embeds p =
    when_set p.embed_subs "--embed-subs"
    ++ (when_set p.embed_thumb "--embed-thumbnail" ++ when_set p.embed_metadata "--embed-metadata")

-- What stands in front of the end of the options.
unfoldable pub front_args : DownloadParams → Bytes → Args
unfolding video_mode
front_args p tmpl =
    (codes "--no-playlist"
      ∷ codes "--no-warnings"
      ∷ codes "--newline"
      ∷ codes "--progress"
      ∷ codes "--no-part"
      ∷ codes "--restrict-filenames"
      ∷ codes "--write-info-json"
      ∷ codes "-o"
      ∷ tmpl
      ∷ [])
    ++ ((if str_eq p.mode "audio" then audio_mode p else video_mode p) ++ embeds p)

unfoldable pub yt_dlp_args : DownloadParams → Bytes → Bytes → Args
unfolding front_args
yt_dlp_args p tmpl url = front_args p tmpl ++ (codes "--" ∷ url ∷ [])

-- The banner of a stage, if the line is one.
unfoldable pub yt_dlp_stage : Bytes → Option String
yt_dlp_stage line =
    if has_prefix line (codes "[Merger]")
    then some "merging"
    else if has_prefix line (codes "[ExtractAudio]")
        || (has_prefix line (codes "[EmbedThumbnail]")
            || (has_prefix line (codes "[Metadata]")
                || (has_prefix line (codes "[EmbedSubtitle]")
                    || (has_prefix line (codes "[VideoConvertor]")
                        || has_prefix line (codes "[VideoRemuxer]")))))
    then some "converting"
    else if has_prefix line (codes "[download] Destination:")
    then some "downloading"
    else none
