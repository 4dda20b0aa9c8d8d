-- ===== src/Runner/Ffmpeg/Edit.antt =====
-- internal/runner/ffmpeg.go: the container and the arguments of an edit.
pub mod Plan
use aiofiles.Prelude.{
  ℕ, String, Bool, true, false, not, ◌&&◌, ◌||◌, List, [], ◌∷◌, ◌++◌, any, length, ltb,
  if◌then◌else◌, codes,
}
use aiofiles.Prelude.Bytes.{Bytes, same_codes, has_suffix}
use aiofiles.Prelude.Paths.{path_ext}
use aiofiles.Presets.Edit.{Seconds, EditParams, Crop, has_crop, span}
use aiofiles.Runner.Numerals.{itoa}
use aiofiles.Runner.Names.{sanitize_name, trim_dot}
use aiofiles.Runner.Ffmpeg.Command.{Args}

abbrev pub audio_only_ext : List Bytes
audio_only_ext =
    codes "mp3"
    ∷ codes "m4a"
    ∷ codes "aac"
    ∷ codes "flac"
    ∷ codes "wav"
    ∷ codes "ogg"
    ∷ codes "oga"
    ∷ codes "opus"
    ∷ codes "wma"
    ∷ []

-- The plan for a name that `sanitizeName` left.
plan_for : Bytes → Bytes × Bool
plan_for ext =
    if any (same_codes ext) audio_only_ext
    then (ext, true)
    else if same_codes ext (codes "mp4")
        || (same_codes ext (codes "mov") || same_codes ext (codes "m4v"))
    then (codes "mp4", false)
    else (codes "mkv", false)

abbrev is_empty : Bytes → Bool
is_empty [] = true
is_empty (c ∷ s) = false

-- `lower` is `strings.ToLower`.
unfoldable pub edit_plan : (Bytes → Bytes) → Bytes → Bytes × Bool
unfolding path_ext plan_for sanitize_name
edit_plan lower input =
    let ext = lower (trim_dot (path_ext input)) in
    if is_empty ext || ltb 5 (length ext)
    then (codes "mp4", false)
    else plan_for (sanitize_name ext)

crop_filter : Crop → Bytes
unfolding itoa
crop_filter c =
    codes "crop="
    ++ (itoa c.crop_w
        ++ (codes ":"
            ++ (itoa c.crop_h ++ (codes ":" ++ (itoa c.crop_x ++ (codes ":" ++ itoa c.crop_y))))))

abbrev copied_streams : Args
copied_streams = codes "-c" ∷ codes "copy" ∷ codes "-avoid_negative_ts" ∷ codes "make_zero" ∷ []

encoded_streams : Crop → Args
unfolding has_crop crop_filter
encoded_streams c =
    (if has_crop c then codes "-vf" ∷ crop_filter c ∷ [] else [])
    ++ (codes "-c:v"
        ∷ codes "libx264"
        ∷ codes "-preset"
        ∷ codes "veryfast"
        ∷ codes "-crf"
        ∷ codes "18"
        ∷ codes "-pix_fmt"
        ∷ codes "yuv420p"
        ∷ codes "-c:a"
        ∷ codes "copy"
        ∷ [])

module _ (F : Seconds) where
  open F use {Time, before, zero_time}

  -- `seconds` is the number with three digits behind its point.
  unfoldable pub edit_args : (Time → Bytes) → Bytes → Bytes → EditParams F → Bool → Args
  unfolding encoded_streams span has_suffix
  edit_args seconds input output p copy_only =
      (codes "-hide_banner" ∷ codes "-nostdin" ∷ codes "-y" ∷ [])
      ++ ((if before zero_time p.start then codes "-ss" ∷ seconds p.start ∷ [] else [])
          ++ ((codes "-i" ∷ input ∷ codes "-progress" ∷ codes "pipe:1" ∷ codes "-nostats" ∷ [])
              ++ ((if before zero_time (span F p) then codes "-t" ∷ seconds (span F p) ∷ [] else [])
                  ++ ((if copy_only then copied_streams else encoded_streams p.crop)
                      ++ ((if has_suffix output (codes ".mp4") || has_suffix output (codes ".mov")
                            then codes "-movflags" ∷ codes "+faststart" ∷ []
                            else [])
                          ++ output ∷ [])))))
