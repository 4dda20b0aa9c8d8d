-- ===== src/Runner/Ffmpeg/Accepted.antt =====
-- The commands of an accepted job.
use aiofiles.Prelude.{
  ℕ, String, true, false, ◌||◌, ◌≡◌, refl, ap, ◌∙◌, List, ◌⊎◌, inl, inr, All, str_eq, codes, Option,
  none, some, Result, ok, err, ltb, arith, Bool-cases, >>=-ok, ◌>>=◌, Option-cases, ok-injective,
}
use mathlib.Core.Path.{subst}
use aiofiles.Prelude.Bytes.{Bytes}
use aiofiles.Prelude.Int.{ℤ, pos, negsuc, ltb_ℤ, pos_part}
use aiofiles.Jobs.Types.{JobType, convert, compress}
use aiofiles.Presets.Tables.{entry, crf_bounds, encode_speeds, audio_bitrates}
use aiofiles.Presets.Checks.{ValidationError, Decoder, is_one_of, one_of_sound, default_audio_codec}
use aiofiles.Presets.Convert.{ConvertParams, parse_convert, check_bitrate}
use aiofiles.Presets.Convert.Tuning.{InRange}
use aiofiles.Presets.Convert.Laws.{parse_convert-Passed, parse_convert-Encodes}
use aiofiles.Presets.Compress.{CompressParams, parse_compress}
use aiofiles.Presets.Compress.Laws.{parse_compress-Accepted}
use aiofiles.Runner.Numerals.{starts_dash}
use aiofiles.Runner.Ffmpeg.{
  EncodeSpec, lift_invalid, convert_spec, compress_spec, spec_for, target_video_kbps, audio_kbps,
}
use aiofiles.Runner.Arguments.{one_of_plain}
use aiofiles.Runner.Ffmpeg.Command.{Args, two_pass, budgeted, commands}
use aiofiles.Runner.Ffmpeg.Vetted.{Vetted, IsPlain, Vetted-audio_args, Vetted-ffmpeg_args}

InRange-pos : (b : Option (ℕ × ℕ)) (crf : ℤ) → InRange b crf → (n : ℕ) × (crf ≡ pos n)
InRange-pos none crf h = absurd h
InRange-pos (some (lo, hi)) (pos n) h = (n, refl)
InRange-pos (some (lo, hi)) (negsuc n) h = absurd (ground arith)

speed_plain : (v : String) → is_one_of v encode_speeds ≡ true → starts_dash (codes v) ≡ false
speed_plain v h = one_of_plain v encode_speeds (refl, (refl, (refl, (refl, (refl, (refl, tt)))))) h

check_bitrate_sound :
    (p : ConvertParams)
    → check_bitrate p ≡ ok tt
    → (str_eq p.audio_codec "none" || (str_eq p.audio_codec "copy" || str_eq p.audio_codec "flac")
        ≡ true)
      ⊎ (is_one_of p.audio_bitrate audio_bitrates ≡ true)
unfolding check_bitrate
check_bitrate_sound p h =
    elim (Bool-cases (
      str_eq p.audio_codec "none"
      || (str_eq p.audio_codec "copy" || str_eq p.audio_codec "flac"))) [
        | inl e ↦ inl e
        | inr e ↦ inr (one_of_sound "audio_bitrate" p.audio_bitrate audio_bitrates (ground arith))
      ]

convert_spec-IsPlain :
    (json : Decoder ConvertParams) (raw : List ℕ) (retention : ℤ) {q : ConvertParams}
    → parse_convert json raw retention ≡ ok q
    → IsPlain (convert_spec q)
unfolding convert_spec
convert_spec-IsPlain json raw retention {q} h =
    let (c, same) = parse_convert-Passed json raw retention h in
    record {
      quality = elim (Bool-cases (str_eq q.video_codec "copy")) [
        | inl e ↦ inl e
        | inr e ↦
            let (range, speed) = parse_convert-Encodes json raw retention h e in
            let (n, crf) = InRange-pos (entry crf_bounds q.video_codec) q.crf range in
            inr (rw same (speed_plain q.speed speed), (n, ap (λ (r : String × ℤ). r.1) same ∙ crf))
      ];
      bitrate = Vetted-audio_args q.audio_codec q.audio_bitrate (check_bitrate_sound q c.bitrate);
      log = refl;
    }

compress_spec-IsPlain :
    (json : Decoder CompressParams) (raw : List ℕ) (retention : ℤ) {q : CompressParams}
    → parse_compress json raw retention ≡ ok q
    → IsPlain (compress_spec q)
unfolding compress_spec
compress_spec-IsPlain json raw retention {q} h =
    let c = parse_compress-Accepted json raw retention h in
    record {
      quality =
          inr (speed_plain q.speed (one_of_sound "speed" q.speed encode_speeds c.speed), (_, refl));
      bitrate =
          Vetted-audio_args (default_audio_codec q.container) q.audio_bitrate
            (inr (one_of_sound "audio_bitrate" q.audio_bitrate audio_bitrates c.bitrate));
      log = refl;
    }

lift_invalid-ok :
    {A B : Type 0} (r : Result ValidationError A) (f : A → B) {b : B}
    → (lift_invalid r >>= (λ a. ok (f a))) ≡ ok b
    → (a : A) × (r ≡ ok a) × (f a ≡ b)
lift_invalid-ok (ok a) f h = (a, refl, ok-injective h)
lift_invalid-ok (err e) f h = absurd cc

pub spec_for-IsPlain :
    (jv : Decoder ConvertParams) (jc : Decoder CompressParams) (retention : ℤ) (kind : JobType)
    (params : List ℕ) {s : EncodeSpec}
    → spec_for jv jc retention kind params ≡ ok s
    → IsPlain s
unfolding spec_for
spec_for-IsPlain jv jc retention convert params h =
    let (q, e, same) = lift_invalid-ok (parse_convert jv params retention) convert_spec h in
    subst IsPlain same (convert_spec-IsPlain jv params retention e)
spec_for-IsPlain jv jc retention compress params h =
    let (q, e, same) = lift_invalid-ok (parse_compress jc params retention) compress_spec h in
    subst IsPlain same (compress_spec-IsPlain jc params retention e)
spec_for-IsPlain jv jc retention _ params h = absurd cc

-- A spec whose rate and log are set by the run.
abbrev run_with : EncodeSpec → ℕ → ℕ → Bytes → EncodeSpec
run_with s kbps pass log = record s { video_kbps = kbps; pass = pass; pass_log = log }

IsPlain-run_with :
    (s : EncodeSpec) (kbps pass : ℕ) (log : Bytes)
    → IsPlain s
    → starts_dash log ≡ false
    → IsPlain (run_with s kbps pass log)
IsPlain-run_with s kbps pass log v h = record { quality = v.quality; bitrate = v.bitrate; log = h }

IsPlain-budgeted :
    (length : Option ℕ) (s : EncodeSpec) {t : EncodeSpec}
    → IsPlain s
    → budgeted length s ≡ ok t
    → IsPlain t
unfolding budgeted
IsPlain-budgeted length s v h = elim (Bool-cases (ltb_ℤ (pos 0) s.target_mb)) [
  | inl e ↦ elim (Option-cases length) [
    | inl f ↦ absurd (cc (rw (e, f, budgeted) at h))
    | inr (us, f) ↦
        let (kbps, _, rest) =
          >>=-ok (target_video_kbps (pos_part s.target_mb) us (audio_kbps s)) _
            (rw (e, f, budgeted) at h) in
        subst IsPlain (ok-injective rest) (IsPlain-run_with s kbps s.pass s.pass_log v v.log)
  ]
  | inr e ↦ subst IsPlain (ok-injective (rw (e, budgeted) at h)) v
]

module _ (input output log : Bytes) (i : starts_dash input ≡ false) (o : starts_dash output ≡ false)
    (l : starts_dash log ≡ false) where
  Vetted-passes : (s : EncodeSpec) → IsPlain s → All Vetted (two_pass input output log s)
  unfolding two_pass
  Vetted-passes s v = (
    Vetted-ffmpeg_args input (codes "/dev/null") (run_with s s.video_kbps 1 log) i refl
        (IsPlain-run_with s s.video_kbps 1 log v l),
    (
      Vetted-ffmpeg_args input output (run_with s s.video_kbps 2 log) i o
          (IsPlain-run_with s s.video_kbps 2 log v l),
      tt,
    ),
  )

  Vetted-commands :
      (length : Option ℕ) (s : EncodeSpec) {runs : List Args}
      → IsPlain s
      → commands length input output log s ≡ ok runs
      → All Vetted runs
  unfolding commands
  Vetted-commands length s v h =
      let (t, e, rest) = >>=-ok (budgeted length s) _ h in
      let w = IsPlain-budgeted length s v e in
      subst (All Vetted) (ok-injective rest) (elim (Bool-cases (ltb 0 t.video_kbps)) [
        | inl two ↦ rw two (Vetted-passes t w)
        | inr one ↦ rw one (Vetted-ffmpeg_args input output t i o w, tt)
      ])

-- Of the commands that a convert or a compress job leads to, every argument is one of the program's own
-- options or does not begin with a dash, whatever parameters were sent, if the paths that the server itself
-- makes begin with no dash.
pub commands-Vetted :
    (jv : Decoder ConvertParams) (jc : Decoder CompressParams) (retention : ℤ) (kind : JobType)
    (params : List ℕ) (length : Option ℕ) (input output log : Bytes) {s : EncodeSpec}
    {runs : List Args}
    → starts_dash input ≡ false
    → starts_dash output ≡ false
    → starts_dash log ≡ false
    → spec_for jv jc retention kind params ≡ ok s
    → commands length input output log s ≡ ok runs
    → All Vetted runs
commands-Vetted jv jc retention kind params length input output log {s} i o l h k =
    Vetted-commands input output log i o l length s (spec_for-IsPlain jv jc retention kind params h)
      k
