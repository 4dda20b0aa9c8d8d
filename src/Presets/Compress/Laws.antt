-- ===== src/Presets/Compress/Laws.antt =====
-- What the accepted parameters of a compress job satisfy.
use aiofiles.Prelude.{
  ℕ, String, true, false, ◌≡◌, some, List, str_eq, ok, arith, Bool-cases, Option-cases, inl, inr,
  >>-ok, >>=-ok, ok-injective, ◌⊎◌,
}
use mathlib.Core.Path.{subst}
use aiofiles.Prelude.Int.{ℤ, pos, ◌≤ℤ◌}
use aiofiles.Presets.Tables.{
  entry, entry_of, crf_bounds, compress_crf, compress_targets, video_containers, encode_speeds,
  resolutions, audio_bitrates,
}
use aiofiles.Presets.Checks.{
  one_of, check_retention, check_container_codec, default_audio_codec, Decoder, decode,
}
use aiofiles.Presets.Compress.{
  CompressParams, compress_defaults, is_size_target, compress_crf_for, check_quality_target,
  check_budget, check_target_size, check_compress, parse_compress,
}
use aiofiles.Presets.Convert.Tuning.{InRange}

-- Every entry of the table of compress targets lies inside its codec's bounds.
target_InRange :
    (target codec : String) (n : ℕ)
    → entry_of compress_crf target codec ≡ some n
    → InRange (entry crf_bounds codec) (pos n)
unfolding entry_of
target_InRange target codec n h = ground arith

-- Either a quality target, with a quality within its codec's bounds and no megabytes, or a size
-- target for a codec that encodes.
abbrev pub Targets : CompressParams → Type 0
Targets p =
    ((is_size_target p ≡ false)
      × (p.target_size_mb ≡ pos 0)
      × InRange (entry crf_bounds p.video_codec) (pos (compress_crf_for p)))
    ⊎ ((is_size_target p ≡ true)
        × (str_eq p.video_codec "copy" ≡ false)
        × (pos 1 ≤ℤ p.target_size_mb)
        × (p.target_size_mb ≤ℤ pos 65536))

quality_Targets :
    (p : CompressParams)
    → check_quality_target p ≡ ok tt
    → (p.target_size_mb ≡ pos 0)
      × InRange (entry crf_bounds p.video_codec) (pos (compress_crf_for p))
unfolding check_quality_target compress_crf_for
quality_Targets p h = elim (Option-cases (entry_of compress_crf p.target p.video_codec)) [
  | inl e ↦ absurd (ground arith)
  | inr (n, e) ↦
      (ground arith, rw (e, compress_crf_for) (target_InRange p.target p.video_codec n e))
]

budget_Targets :
    (p : CompressParams)
    → check_budget p ≡ ok tt
    → (str_eq p.video_codec "copy" ≡ false)
      × (pos 1 ≤ℤ p.target_size_mb)
      × (p.target_size_mb ≤ℤ pos 65536)
unfolding check_budget
budget_Targets p h = ground arith

check_target_size-Targets : (p : CompressParams) → check_target_size p ≡ ok tt → Targets p
unfolding check_target_size
check_target_size-Targets p h = elim (Bool-cases (is_size_target p)) [
  | inl e ↦ let (a, b, c) = budget_Targets p (rw (e, check_target_size) at h) in inr (e, a, b, c)
  | inr e ↦ let (a, b) = quality_Targets p (rw (e, check_target_size) at h) in inl (e, a, b)
]

-- What an accepted job has passed: its target, and the option sets that name its speed and its bitrate.
pub record Accepted (p : CompressParams) : Type 0 where
  pub aims : Targets p
  pub speed : one_of "speed" p.speed encode_speeds ≡ ok tt
  pub bitrate : one_of "audio_bitrate" p.audio_bitrate audio_bitrates ≡ ok tt

check_compress-Accepted :
    (p : CompressParams) {q : CompressParams} → check_compress p ≡ ok q → Accepted q
unfolding check_compress
check_compress-Accepted p h =
    let (_, h) = >>-ok (one_of "target" p.target compress_targets) _ h in
    let (_, h) = >>-ok (one_of "container" p.container video_containers) _ h in
    let (b, h) = >>-ok (one_of "speed" p.speed encode_speeds) _ h in
    let (_, h) = >>-ok (one_of "resolution" p.resolution resolutions) _ h in
    let (c, h) = >>-ok (one_of "audio_bitrate" p.audio_bitrate audio_bitrates) _ h in
    let (a, h) = >>-ok (check_target_size p) _ h in
    let (_, h) =
      >>-ok (check_container_codec p.container p.video_codec (default_audio_codec p.container)) _
        h in
    let (_, h) = >>-ok (check_retention p.retention_days) _ h in
    subst Accepted (ok-injective h)
      (record { aims = check_target_size-Targets p a; speed = b; bitrate = c })

pub parse_compress-Accepted :
    (json : Decoder CompressParams) (raw : List ℕ) (retention : ℤ) {q : CompressParams}
    → parse_compress json raw retention ≡ ok q
    → Accepted q
unfolding parse_compress
parse_compress-Accepted json raw retention h =
    let (p, _, e) = >>=-ok (decode json raw (compress_defaults retention)) check_compress h in
    check_compress-Accepted p e

-- An accepted compress job aims either at a quality that lies within the bounds of its codec, with
-- no size given, or at a size of 1 to 65536 megabytes with a video that is encoded anew.
pub parse_compress-Targets :
    (json : Decoder CompressParams) (raw : List ℕ) (retention : ℤ) {q : CompressParams}
    → parse_compress json raw retention ≡ ok q
    → Targets q
parse_compress-Targets json raw retention h = (parse_compress-Accepted json raw retention h).aims
