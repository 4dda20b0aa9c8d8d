-- ===== src/Runner/Ffmpeg/Vetted.antt =====
-- That no parameter of a job reads as an option of ffmpeg.
use aiofiles.Prelude.{
  ℕ, String, true, false, ◌||◌, ◌≡◌, refl, sym, List, [], ◌∷◌, ◌++◌, ◌⊎◌, inl, inr, str_eq,
  str_eq_iff, codes, Option, none, some, arith, Bool-cases, Option-cases, ◌==◌,
}
use mathlib.Core.Path.{subst}
use aiofiles.Prelude.Bytes.{Bytes}
use aiofiles.Prelude.Int.{pos}
use aiofiles.Presets.Tables.{entry, entry-All, or_zero, audio_bitrates}
use aiofiles.Presets.Checks.{is_one_of}
use aiofiles.Runner.Numerals.{itoa, atoi, starts_dash, itoa_undashed}
use aiofiles.Runner.Arguments.{vetted, AllVetted, plain, AllVetted-append, one_of_plain}
use aiofiles.Runner.Ffmpeg.{EncodeSpec, video_encoders, vp9_cpu_used, svt_av1_preset}
use aiofiles.Runner.Ffmpeg.Command.{
  Args, encoder_of, rate_control, speed_args, positive_number, scaled, rated, given, filter_args,
  frame_args, encode_args, audio_args, muxer_args, tail_args, head_args, ffmpeg_args,
}

-- The options that the program gives ffmpeg.
abbrev options : List Bytes
options =
    codes "-hide_banner"
    ∷ codes "-nostdin"
    ∷ codes "-y"
    ∷ codes "-i"
    ∷ codes "-progress"
    ∷ codes "-nostats"
    ∷ codes "-c:v"
    ∷ codes "-b:v"
    ∷ codes "-pass"
    ∷ codes "-passlogfile"
    ∷ codes "-crf"
    ∷ codes "-cpu-used"
    ∷ codes "-row-mt"
    ∷ codes "-preset"
    ∷ codes "-vf"
    ∷ codes "-r"
    ∷ codes "-an"
    ∷ codes "-f"
    ∷ codes "-c:a"
    ∷ codes "-b:a"
    ∷ codes "-map_metadata"
    ∷ codes "-1"
    ∷ codes "-movflags"
    ∷ []

abbrev pub Vetted : Args → Type 0
Vetted args = AllVetted options args

-- What the checks of a job leave of the parts of a spec that come from its parameters. A stream that is copied
-- has no quality, and a sound track that is left out, copied or lossless has no bitrate.
pub record IsPlain (s : EncodeSpec) : Type 0 where
  pub quality :
      (str_eq s.video_codec "copy" ≡ true)
      ⊎ ((starts_dash (codes s.speed) ≡ false) × ((n : ℕ) × (s.crf ≡ pos n)))
  pub bitrate : Vetted (audio_args s.audio_codec s.audio_bitrate)
  pub log : starts_dash s.pass_log ≡ false

starts_dash-k : (l : Bytes) → starts_dash l ≡ false → starts_dash (l ++ codes "k") ≡ false
starts_dash-k [] h = refl
starts_dash-k (c ∷ l) h = h

pub Vetted-audio_args :
    (codec bitrate : String)
    → (str_eq codec "none" || (str_eq codec "copy" || str_eq codec "flac") ≡ true)
      ⊎ (is_one_of bitrate audio_bitrates ≡ true)
    → Vetted (audio_args codec bitrate)
unfolding audio_args is_one_of
Vetted-audio_args codec bitrate (inl h) = ground arith
Vetted-audio_args codec bitrate (inr h) =
    let k : vetted options (codes bitrate ++ codes "k") ≡ true =
      plain options (codes bitrate ++ codes "k") (
        starts_dash-k (codes bitrate) (
          one_of_plain bitrate audio_bitrates (refl, (refl, (refl, (refl, (refl, (refl, tt))))))
            h)) in
    ground (arith, k)

Vetted-rate_control :
    (enc : String) (s : EncodeSpec) (n : ℕ)
    → s.crf ≡ pos n
    → starts_dash s.pass_log ≡ false
    → Vetted (rate_control enc s)
unfolding rate_control
Vetted-rate_control enc s n e log =
    let a : vetted options (itoa (pos s.video_kbps) ++ codes "k") ≡ true =
      plain options (itoa (pos s.video_kbps) ++ codes "k")
        (starts_dash-k (itoa (pos s.video_kbps)) (itoa_undashed s.video_kbps)) in
    let b = plain options (itoa (pos s.pass)) (itoa_undashed s.pass) in
    let c = plain options s.pass_log log in
    let d : vetted options (itoa s.crf) ≡ true =
      rw e (plain options (itoa (pos n)) (itoa_undashed n)) in
    ground (arith, a, b, c, d)

Vetted-speed_args :
    (enc speed : String) → starts_dash (codes speed) ≡ false → Vetted (speed_args enc speed)
unfolding speed_args
Vetted-speed_args enc speed h =
    let a =
      plain options (itoa (pos (or_zero (entry vp9_cpu_used speed))))
        (itoa_undashed (or_zero (entry vp9_cpu_used speed))) in
    let b =
      plain options (itoa (pos (or_zero (entry svt_av1_preset speed))))
        (itoa_undashed (or_zero (entry svt_av1_preset speed))) in
    let c = plain options (codes speed) h in ground (arith, a, b, c)

Vetted-scaled : (o : Option ℕ) → Vetted (scaled o)
Vetted-scaled none = tt
Vetted-scaled (some h) = (refl, (refl, tt))

Vetted-rated : (o : Option ℕ) → Vetted (rated o)
Vetted-rated none = tt
Vetted-rated (some fps) = (refl, (plain options (itoa (pos fps)) (itoa_undashed fps), tt))

Vetted-filter_args : (resolution : String) → Vetted (filter_args resolution)
unfolding filter_args
Vetted-filter_args v = elim (Bool-cases (given v)) [
  | inl e ↦ rw (e, filter_args) (Vetted-scaled (positive_number (atoi (codes v))))
  | inr e ↦ rw (e, filter_args) tt
]

Vetted-frame_args : (rate : String) → Vetted (frame_args rate)
unfolding frame_args
Vetted-frame_args v = elim (Bool-cases (given v)) [
  | inl e ↦ rw (e, frame_args) (Vetted-rated (positive_number (atoi (codes v))))
  | inr e ↦ rw (e, frame_args) tt
]

Vetted-muxer_args : (s : EncodeSpec) → Vetted (muxer_args s)
unfolding muxer_args
Vetted-muxer_args s = ground arith

-- A table's value, or the default.
encoder_undashed : (codec : String) → starts_dash (codes (encoder_of codec)) ≡ false
unfolding encoder_of
encoder_undashed codec = elim (Option-cases (entry video_encoders codec)) [
  | inl e ↦ rw (e, encoder_of) refl
  | inr (v, e) ↦
      let h =
        entry-All (λ w. starts_dash (codes w) ≡ false) video_encoders codec
          (refl, (refl, (refl, (refl, (refl, tt))))) e in
      elim (Bool-cases (str_eq v "")) [
        | inl f ↦ rw (e, f, encoder_of) refl
        | inr f ↦ rw (e, f, encoder_of) h
      ]
]

encode_args_copy :
    (codec : String) (s : EncodeSpec)
    → str_eq codec "copy" ≡ true
    → encode_args (encoder_of codec) s ≡ []
unfolding encode_args encoder_of entry
encode_args_copy codec s h =
    subst (λ c. encode_args (encoder_of c) s ≡ []) (sym ((str_eq_iff codec "copy").0 h)) refl

Vetted-encode_args :
    (s : EncodeSpec) → IsPlain s → Vetted (encode_args (encoder_of s.video_codec) s)
unfolding encode_args
Vetted-encode_args s v = elim v.quality [
  | inl same ↦ rw (encode_args_copy s.video_codec s same) tt
  | inr (speed, (n, crf)) ↦
      let enc = encoder_of s.video_codec in
      let all =
        AllVetted-append options (speed_args enc s.speed) _ (Vetted-speed_args enc s.speed speed) (
          AllVetted-append options (rate_control enc s) _ (Vetted-rate_control enc s n crf v.log) (
            AllVetted-append options (filter_args s.resolution) (frame_args s.frame_rate)
              (Vetted-filter_args s.resolution) (Vetted-frame_args s.frame_rate))) in
      elim (Bool-cases (str_eq enc "copy")) [
        | inl e ↦ rw (e, encode_args) tt
        | inr e ↦ rw (e, encode_args) all
      ]
]

Vetted-tail_args :
    (output : Bytes) (s : EncodeSpec)
    → starts_dash output ≡ false
    → IsPlain s
    → Vetted (tail_args output s)
unfolding tail_args
Vetted-tail_args output s h v =
    let o = plain options output h in
    let all =
      AllVetted-append options (audio_args s.audio_codec s.audio_bitrate) _ v.bitrate
        (AllVetted-append options (muxer_args s) (output ∷ []) (Vetted-muxer_args s) (o, tt)) in
    elim (Bool-cases (s.pass == 1)) [
      | inl e ↦ rw (e, tail_args) (refl, (refl, (refl, (o, tt))))
      | inr e ↦ rw (e, tail_args) all
    ]

pub Vetted-ffmpeg_args :
    (input output : Bytes) (s : EncodeSpec)
    → starts_dash input ≡ false
    → starts_dash output ≡ false
    → IsPlain s
    → Vetted (ffmpeg_args input output s)
unfolding ffmpeg_args
Vetted-ffmpeg_args input output s i o v =
    let enc = encoder_of s.video_codec in
    AllVetted-append options (head_args input enc) _
      (ground
        (arith, plain options input i, plain options (codes enc) (encoder_undashed s.video_codec)))
      (AllVetted-append options (encode_args enc s) (tail_args output s) (Vetted-encode_args s v)
        (Vetted-tail_args output s o v))
