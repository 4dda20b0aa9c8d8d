-- ===== src/Presets/Tables.antt =====
-- internal/presets/presets.go: the option sets and the tables behind the presets. A Go map is a list
-- of its entries.
use aiofiles.Prelude.{
  ℕ, String, Option, none, some, List, [], ◌∷◌, str_eq, if◌then◌else◌, All, ◌≡◌, some_injective,
  inl, inr, Bool-cases,
}
use mathlib.Core.Path.{subst}

-- The struct `Option`: what is sent, and what is shown.
pub record Choice : Type 0 where
  pub value : String
  pub label : String

abbrev choice : String → String → Choice
choice v l = record { value = v; label = l }

-- `v, ok := m[key]`
unfoldable pub entry {ℓ} : {A : Type ℓ} → List (String × A) → String → Option A
entry [] k = none
entry ((j, a) ∷ m) k = if str_eq j k then some a else entry m k

-- What holds of all values of a table holds of each that is found.
pub entry-All {ℓ} :
    {A : Type ℓ} (P : A → Type 0) (m : List (String × A)) (k : String) {v : A}
    → All (λ (e : String × A). P e.1) m
    → entry m k ≡ some v
    → P v
unfolding entry
entry-All P [] k a h = cc
entry-All P ((j, b) ∷ m) k a h = elim (Bool-cases (str_eq j k)) [
  | inl e ↦ subst P (some_injective (rw (e, entry) at h)) a.0
  | inr e ↦ entry-All P m k a.1 (rw (e, entry) at h)
]

abbrev pub video_containers : List Choice
video_containers =
    choice "mp4" "MP4" ∷ choice "mkv" "MKV" ∷ choice "webm" "WebM" ∷ choice "mov" "MOV" ∷ []

abbrev pub video_codecs : List Choice
video_codecs =
    choice "h264" "H.264 (widest support)"
    ∷ choice "h265" "H.265 / HEVC (smaller)"
    ∷ choice "vp9" "VP9"
    ∷ choice "av1" "AV1 (slowest, smallest)"
    ∷ choice "copy" "Copy (no re-encode)"
    ∷ []

abbrev pub encode_speeds : List Choice
encode_speeds =
    choice "veryfast" "Quickest - biggest file"
    ∷ choice "faster" "Quicker - bigger file"
    ∷ choice "fast" "Quick"
    ∷ choice "medium" "Normal (recommended)"
    ∷ choice "slow" "Slower - smaller file"
    ∷ choice "veryslow" "Slowest - smallest file"
    ∷ []

abbrev pub resolutions : List Choice
resolutions =
    choice "source" "Source"
    ∷ choice "2160" "4K (2160p)"
    ∷ choice "1440" "1440p"
    ∷ choice "1080" "1080p"
    ∷ choice "720" "720p"
    ∷ choice "480" "480p"
    ∷ choice "360" "360p"
    ∷ []

abbrev pub frame_rates : List Choice
frame_rates =
    choice "source" "Source"
    ∷ choice "60" "60 fps"
    ∷ choice "30" "30 fps"
    ∷ choice "24" "24 fps"
    ∷ []

abbrev pub audio_codecs : List Choice
audio_codecs =
    choice "aac" "AAC"
    ∷ choice "opus" "Opus"
    ∷ choice "mp3" "MP3"
    ∷ choice "flac" "FLAC (lossless)"
    ∷ choice "copy" "Copy"
    ∷ choice "none" "Remove audio"
    ∷ []

abbrev pub audio_bitrates : List Choice
audio_bitrates =
    choice "64" "64 kbps"
    ∷ choice "96" "96 kbps"
    ∷ choice "128" "128 kbps"
    ∷ choice "192" "192 kbps"
    ∷ choice "256" "256 kbps"
    ∷ choice "320" "320 kbps"
    ∷ []

abbrev pub audio_formats : List Choice
audio_formats =
    choice "mp3" "MP3"
    ∷ choice "m4a" "M4A / AAC"
    ∷ choice "opus" "Opus"
    ∷ choice "flac" "FLAC"
    ∷ choice "wav" "WAV"
    ∷ []

abbrev pub image_formats : List Choice
image_formats =
    choice "source" "Same as the input"
    ∷ choice "jpg" "JPEG"
    ∷ choice "png" "PNG"
    ∷ choice "webp" "WebP"
    ∷ choice "avif" "AVIF"
    ∷ choice "gif" "GIF"
    ∷ choice "tiff" "TIFF"
    ∷ choice "svg" "SVG (embeds the picture)"
    ∷ choice "svg_trace" "SVG (traced outlines, black and white)"
    ∷ []

abbrev pub encode_presets : List Choice
encode_presets =
    choice "quality" "Best quality - bigger file, slower"
    ∷ choice "balanced" "Balanced - good quality, reasonable size"
    ∷ choice "speed" "Fastest encode - larger file"
    ∷ choice "size" "Smallest file - slower"
    ∷ choice "custom" "Custom - set everything myself"
    ∷ []

abbrev pub compress_targets : List Choice
compress_targets =
    choice "light" "Light - near-original quality"
    ∷ choice "balanced" "Balanced - good quality, much smaller"
    ∷ choice "aggressive" "Aggressive - smallest file"
    ∷ choice "target_size" "Target file size - I'll pick the megabytes"
    ∷ []

abbrev pub image_quality_presets : List Choice
image_quality_presets =
    choice "original" "Original - no re-encode"
    ∷ choice "high" "High - near-original quality"
    ∷ choice "balanced" "Balanced - good quality, smaller file"
    ∷ choice "small" "Small - smaller file, visible loss"
    ∷ choice "custom" "Custom - set the quality myself"
    ∷ []

abbrev pub trace_targets : List Choice
trace_targets = choice "dark" "The dark areas" ∷ choice "light" "The light areas" ∷ []

abbrev pub retention_choices : List Choice
retention_choices =
    choice "1" "1 day" ∷ choice "7" "7 days" ∷ choice "30" "30 days" ∷ choice "0" "Forever" ∷ []

-- The least and the greatest accepted quality of each codec; a lower one is better.
abbrev pub crf_bounds : List (String × (ℕ × ℕ))
crf_bounds = ("h264", (14, 34)) ∷ ("h265", (18, 38)) ∷ ("vp9", (20, 45)) ∷ ("av1", (20, 50)) ∷ []

abbrev per_codec : ℕ → ℕ → ℕ → ℕ → List (String × ℕ)
per_codec h264 h265 vp9 av1 = ("h264", h264) ∷ ("h265", h265) ∷ ("vp9", vp9) ∷ ("av1", av1) ∷ []

abbrev pub compress_crf : List (String × List (String × ℕ))
compress_crf =
    ("light", per_codec 20 24 28 30)
    ∷ ("balanced", per_codec 24 28 33 36)
    ∷ ("aggressive", per_codec 30 34 40 44)
    ∷ []

abbrev pub encode_preset_speed : List (String × String)
encode_preset_speed =
    ("quality", "slow") ∷ ("balanced", "medium") ∷ ("speed", "veryfast") ∷ ("size", "slow") ∷ []

abbrev pub encode_preset_crf : List (String × List (String × ℕ))
encode_preset_crf =
    ("quality", per_codec 18 22 24 26)
    ∷ ("balanced", per_codec 23 27 31 34)
    ∷ ("speed", per_codec 25 29 33 36)
    ∷ ("size", per_codec 30 34 40 45)
    ∷ []

-- `m[a][b]` of a map of maps: a missing key gives the empty map.
unfoldable pub entry_of : List (String × List (String × ℕ)) → String → String → Option ℕ
unfolding entry
entry_of m a b = elim (entry m a) [ none ↦ none | some n ↦ entry n b ]

-- The zero value where the key is missing.
abbrev pub or_zero : Option ℕ → ℕ
or_zero none = 0
or_zero (some n) = n

abbrev pub or_empty : Option String → String
or_empty none = ""
or_empty (some s) = s

abbrev pub image_format_by_ext : List (String × String)
image_format_by_ext =
    ("jpg", "jpg")
    ∷ ("jpeg", "jpg")
    ∷ ("png", "png")
    ∷ ("webp", "webp")
    ∷ ("avif", "avif")
    ∷ ("gif", "gif")
    ∷ ("tif", "tiff")
    ∷ ("tiff", "tiff")
    ∷ ("svg", "svg")
    ∷ []
