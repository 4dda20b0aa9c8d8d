-- ===== src/Runner/Ffmpeg/Command.antt =====
-- internal/runner/ffmpeg.go: the arguments of ffmpeg, and which commands a run makes.
use aiofiles.Prelude.{
  ℕ, suc, String, Bool, true, not, ◌&&◌, ◌||◌, List, [], ◌∷◌, ◌++◌, ◌==◌, ltb, if◌then◌else◌,
  str_eq, codes, Option, none, some, Result, ok, err, ◌>>=◌,
}
use aiofiles.Prelude.Bytes.{Bytes}
use aiofiles.Prelude.Int.{ℤ, pos, ltb_ℤ, pos_part}
use aiofiles.Presets.Tables.{entry, or_empty, or_zero}
use aiofiles.Runner.Numerals.{atoi, itoa}
use aiofiles.Runner.Ffmpeg.{
  EncodeSpec, video_encoders, vp9_cpu_used, svt_av1_preset, RunError, unknown_length, audio_kbps,
  target_video_kbps,
}

abbrev pub Args : Type 0
Args = List Bytes

-- The name of a codec's encoder; a codec that is not in the table has the empty name, which stands for H.264.
unfoldable pub encoder_of : String → String
unfolding entry
encoder_of codec =
    let enc = or_empty (entry video_encoders codec) in if str_eq enc "" then "libx264" else enc

-- A size target is a bitrate in two passes, anything else a quality.
unfoldable pub rate_control : String → EncodeSpec → Args
unfolding itoa
rate_control enc s =
    if ltb 0 s.pass
    then codes "-b:v"
      ∷ (itoa (pos s.video_kbps) ++ codes "k")
      ∷ codes "-pass"
      ∷ itoa (pos s.pass)
      ∷ codes "-passlogfile"
      ∷ s.pass_log
      ∷ []
    else if str_eq enc "libvpx-vp9"
    then codes "-crf" ∷ itoa s.crf ∷ codes "-b:v" ∷ codes "0" ∷ []
    else codes "-crf" ∷ itoa s.crf ∷ []

unfoldable pub speed_args : String → String → Args
unfolding itoa entry
speed_args enc speed =
    if str_eq enc "libvpx-vp9"
    then codes "-cpu-used"
      ∷ itoa (pos (or_zero (entry vp9_cpu_used speed)))
      ∷ codes "-row-mt"
      ∷ codes "1"
      ∷ []
    else if str_eq enc "libsvtav1"
    then codes "-preset" ∷ itoa (pos (or_zero (entry svt_av1_preset speed))) ∷ []
    else codes "-preset" ∷ codes speed ∷ []

-- A number from an option set, if the text is a positive one.
abbrev pub positive_number : ℤ × Bool → Option ℕ
positive_number (pos (suc n), true) = some (suc n)
positive_number _ = none

abbrev pub given : String → Bool
given v = not (str_eq v "") && not (str_eq v "source")

abbrev pub scaled : Option ℕ → Args
scaled none = []
scaled (some h) = codes "-vf" ∷ (codes "scale=-2:" ++ itoa (pos h)) ∷ []

abbrev pub rated : Option ℕ → Args
rated none = []
rated (some fps) = codes "-r" ∷ itoa (pos fps) ∷ []

unfoldable pub filter_args : String → Args
unfolding itoa atoi
filter_args resolution =
    if given resolution then scaled (positive_number (atoi (codes resolution))) else []

unfoldable pub frame_args : String → Args
unfolding itoa atoi
frame_args rate = if given rate then rated (positive_number (atoi (codes rate))) else []

-- Filters and frame rates belong to a stream that is encoded anew.
unfoldable pub encode_args : String → EncodeSpec → Args
unfolding speed_args rate_control filter_args frame_args
encode_args enc s =
    if str_eq enc "copy"
    then []
    else speed_args enc s.speed
      ++ (rate_control enc s ++ (filter_args s.resolution ++ frame_args s.frame_rate))

unfoldable pub audio_args : String → String → Args
audio_args codec bitrate =
    if str_eq codec "none"
    then codes "-an" ∷ []
    else if str_eq codec "copy"
    then codes "-c:a" ∷ codes "copy" ∷ []
    else if str_eq codec "flac"
    then codes "-c:a" ∷ codes "flac" ∷ []
    else if str_eq codec "aac"
    then codes "-c:a" ∷ codes "aac" ∷ codes "-b:a" ∷ (codes bitrate ++ codes "k") ∷ []
    else if str_eq codec "opus"
    then codes "-c:a" ∷ codes "libopus" ∷ codes "-b:a" ∷ (codes bitrate ++ codes "k") ∷ []
    else if str_eq codec "mp3"
    then codes "-c:a" ∷ codes "libmp3lame" ∷ codes "-b:a" ∷ (codes bitrate ++ codes "k") ∷ []
    else []

unfoldable pub muxer_args : EncodeSpec → Args
muxer_args s =
    (if s.strip_metadata then codes "-map_metadata" ∷ codes "-1" ∷ [] else [])
    ++ (if str_eq s.container "mp4" || str_eq s.container "mov"
        then codes "-movflags" ∷ codes "+faststart" ∷ []
        else [])

-- What stands behind the video's arguments; the first pass writes no audio and no file.
unfoldable pub tail_args : Bytes → EncodeSpec → Args
unfolding audio_args muxer_args
tail_args output s =
    if s.pass == 1
    then codes "-an" ∷ codes "-f" ∷ codes "null" ∷ output ∷ []
    else audio_args s.audio_codec s.audio_bitrate ++ (muxer_args s ++ output ∷ [])

abbrev pub head_args : Bytes → String → Args
head_args input enc =
    codes "-hide_banner"
    ∷ codes "-nostdin"
    ∷ codes "-y"
    ∷ codes "-i"
    ∷ input
    ∷ codes "-progress"
    ∷ codes "pipe:1"
    ∷ codes "-nostats"
    ∷ codes "-c:v"
    ∷ codes enc
    ∷ []

unfoldable pub ffmpeg_args : Bytes → Bytes → EncodeSpec → Args
unfolding encoder_of encode_args tail_args
ffmpeg_args input output s =
    let enc = encoder_of s.video_codec in
    head_args input enc ++ (encode_args enc s ++ tail_args output s)

-- The commands of `runTwoPass`, if each of them succeeds.
unfoldable pub two_pass : Bytes → Bytes → Bytes → EncodeSpec → List Args
unfolding ffmpeg_args
two_pass input output log s =
    let logged = record s { pass_log = log } in
    ffmpeg_args input (codes "/dev/null") (record logged { pass = 1 })
    ∷ ffmpeg_args input output (record logged { pass = 2 })
    ∷ []

-- The spec with its budget. `length` is what ffprobe tells, or nothing; a run without a size
-- target goes on without it.
unfoldable pub budgeted : Option ℕ → EncodeSpec → Result RunError EncodeSpec
unfolding target_video_kbps audio_kbps
budgeted length s =
    if ltb_ℤ (pos 0) s.target_mb
    then elim length [
      | none ↦ err unknown_length
      | some us ↦ do
        kbps ← target_video_kbps (pos_part s.target_mb) us (audio_kbps s)
        ok (record s { video_kbps = kbps })
    ]
    else ok s

-- The commands of `Run` behind the probe, if each of them succeeds: a failed one is the last.
unfoldable pub commands :
    Option ℕ → Bytes → Bytes → Bytes → EncodeSpec → Result RunError (List Args)
unfolding budgeted two_pass ffmpeg_args
commands length input output log s = do
  s ← budgeted length s
  ok (if ltb 0 s.video_kbps then two_pass input output log s else ffmpeg_args input output s ∷ [])
