-- ===== src/Examples/Process.antt =====
-- The runners' names, lines, commands and percentages at concrete inputs.
use aiofiles.Prelude.{
  ℕ, suc, Bool, false, ◌≡◌, refl, List, [], ◌∷◌, ◌++◌, All, concat, codes, some, none, ok, Option,
  arith,
}
use aiofiles.Prelude.Int.{pos}
use aiofiles.Prelude.Bytes.{Bytes, trim_by}
use aiofiles.Jobs.Types.{convert}
use aiofiles.Presets.Tables.{entry, entry_of}
use aiofiles.Presets.Checks.{
  Decoder, decode, one_of, is_one_of, check_retention, check_container_codec,
}
use aiofiles.Presets.Convert.{
  ConvertParams, convert_defaults, parse_convert, check_convert, check_preset, check_bitrate,
  fold_preset, resolved,
}
use aiofiles.Presets.Compress.{CompressParams}
use aiofiles.Presets.Download.{
  DownloadParams, download_defaults, parse_download, check_download, check_format_id, check_streams,
}
use aiofiles.Presets.Download.FormatId.{matches}
use aiofiles.Runner.YtDlp.{yt_dlp_args}
use aiofiles.Runner.YtDlp.Vetted.{EndsWith, yt_dlp_args-EndsWith}
use aiofiles.Runner.Names.{sanitize_name}
use aiofiles.Runner.Names.Safe.{IsSafe, sanitize_name-IsSafe}
use aiofiles.Runner.Lines.{scan_lines}
use aiofiles.Runner.Lines.Split.{text_lines}
use aiofiles.Runner.Lines.Scan.{scan_lines-text_lines}
use aiofiles.Runner.Ffmpeg.{EncodeSpec, target_video_kbps, spec_for, convert_spec}
use aiofiles.Runner.Ffmpeg.Budget.{Outcome, target_video_kbps-Outcome}
use aiofiles.Runner.Ffmpeg.Command.{Args, ffmpeg_args, commands, budgeted}
use aiofiles.Runner.Ffmpeg.Vetted.{Vetted}
use aiofiles.Runner.Ffmpeg.Accepted.{commands-Vetted}
use aiofiles.Runner.Ffmpeg.Meter.{cut, Update, start_meter, updates}
use aiofiles.Runner.Ffmpeg.Meter.Bounds.{written_time, Within, updates-Halves}

sanitize_name-IsSafe_example : IsSafe (sanitize_name (codes "../My clip...mp4"))
sanitize_name-IsSafe_example = sanitize_name-IsSafe (codes "../My clip...mp4")

abbrev absent : Bytes → Bool
absent name = false

abbrev drawn : ℕ → Bytes
drawn n = codes "0f"

abbrev as_is : Bytes → Bytes
as_is s = s

abbrev messages : List Bytes
messages = codes "one" ∷ codes "  " ∷ codes "two " ∷ codes "three" ∷ []

abbrev reads : List Bytes
reads = codes "fra" ∷ codes "me=1\r\nspeed" ∷ codes "=2x" ∷ []

scan_lines-text_lines_example : scan_lines [] reads ≡ text_lines [] ([] ++ concat reads)
unfolding text_lines
scan_lines-text_lines_example = scan_lines-text_lines [] reads (omega arith, (omega arith, tt))

target_video_kbps-Outcome_example :
    Outcome 25 (suc 59999999) 128 (target_video_kbps 25 (suc 59999999) (pos 128))
target_video_kbps-Outcome_example = target_video_kbps-Outcome 25 59999999 128

abbrev as_convert : Decoder ConvertParams
as_convert raw start = ok start

abbrev as_compress : Decoder CompressParams
as_compress raw start = ok start

abbrev spec : EncodeSpec
spec = convert_spec (convert_defaults (pos 7))

abbrev runs : List Args
runs = ffmpeg_args (codes "/u/in.mov") (codes "/t/out.mp4") spec ∷ []

commands-Vetted_example : All Vetted runs
unfolding spec_for parse_convert decode check_convert one_of is_one_of check_preset check_bitrate
    fold_preset resolved check_retention check_container_codec entry entry_of commands budgeted
    convert_spec
commands-Vetted_example =
    commands-Vetted as_convert as_compress (pos 7) convert (codes "{}") none (codes "/u/in.mov")
      (codes "/t/out.mp4") (codes "/t/log") {s = spec} {runs = runs} refl refl refl refl refl

abbrev at_one : Bytes → Option ℕ
at_one s = some 1

updates-Halves_example :
    All
      (λ (u : Update). Within 0 50000 u.percent)
      (updates at_one
        (start_meter 4 "analyzing" 0 50)
        (codes "out_time_us=1" ∷ codes "progress=continue" ∷ []))
    × All
        (λ (u : Update). Within 50000 100000 u.percent)
        (updates at_one (start_meter 4 "encoding" 50 50) (codes "progress=end" ∷ []))
unfolding written_time cut trim_by
updates-Halves_example =
    updates-Halves at_one 4 (codes "out_time_us=1" ∷ codes "progress=continue" ∷ [])
      (codes "progress=end" ∷ []) (ground arith) (ground arith)

abbrev fetch : DownloadParams
fetch = record (download_defaults (pos 7)) { format_id = codes "137"; container = "mp4" }

abbrev as_fetch : Decoder DownloadParams
as_fetch raw start = ok fetch

yt_dlp_args-EndsWith_example :
    EndsWith (codes "https://a.b/c") (yt_dlp_args fetch (codes "/t/%(id)s") (codes "https://a.b/c"))
unfolding parse_download decode check_download check_format_id check_streams one_of is_one_of
    check_retention matches
yt_dlp_args-EndsWith_example =
    yt_dlp_args-EndsWith as_fetch (codes "{}") (pos 7) (codes "/t/%(id)s") (codes "https://a.b/c")
      {p = fetch} refl refl
