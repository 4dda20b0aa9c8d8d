-- ===== src/Presets/Convert/Laws.antt =====
-- What the accepted parameters of a convert job satisfy.
use aiofiles.Prelude.{
  ℕ, String, false, ◌≡◌, sym, ap, ◌∙◌, inl, inr, none, List, str_eq, ok, Bool-cases, Option-cases,
  >>-ok, >>=-ok, ok-injective,
}
use aiofiles.Prelude.Int.{ℤ}
use mathlib.Core.Path.{subst}
use aiofiles.Presets.Tables.{
  entry_of, encode_preset_crf, video_containers, video_codecs, encode_presets, resolutions,
  frame_rates, audio_codecs,
}
use aiofiles.Presets.Checks.{one_of, check_container_codec, check_retention, Decoder, decode}
use aiofiles.Presets.Convert.{
  ConvertParams, convert_defaults, check_preset, resolved, fold_preset, check_bitrate,
  check_convert, parse_convert,
}
use aiofiles.Presets.Convert.Tuning.{Encodes, resolved_sound, resolved_custom}

-- What `check_convert` has checked of the parameters that it folds.
pub record Passed (p : ConvertParams) : Type 0 where
  pub container : one_of "container" p.container video_containers ≡ ok tt
  pub codec : one_of "video_codec" p.video_codec video_codecs ≡ ok tt
  pub preset : one_of "preset" p.preset encode_presets ≡ ok tt
  pub tuning : check_preset p ≡ ok tt
  pub resolution : one_of "resolution" p.resolution resolutions ≡ ok tt
  pub frame_rate : one_of "frame_rate" p.frame_rate frame_rates ≡ ok tt
  pub audio_codec : one_of "audio_codec" p.audio_codec audio_codecs ≡ ok tt
  pub bitrate : check_bitrate p ≡ ok tt
  pub muxing : check_container_codec p.container p.video_codec p.audio_codec ≡ ok tt
  pub retention : check_retention p.retention_days ≡ ok tt

check_convert-Passed :
    (p : ConvertParams) {q : ConvertParams}
    → check_convert p ≡ ok q
    → Passed p × (fold_preset p ≡ q)
unfolding check_convert
check_convert-Passed p h =
    let (a, h) = >>-ok _ _ h in
    let (b, h) = >>-ok _ _ h in
    let (c, h) = >>-ok _ _ h in
    let (d, h) = >>-ok _ _ h in
    let (e, h) = >>-ok _ _ h in
    let (f, h) = >>-ok _ _ h in
    let (g, h) = >>-ok _ _ h in
    let (i, h) = >>-ok _ _ h in
    let (j, h) = >>-ok _ _ h in
    let (k, h) = >>-ok _ _ h in
    (
      record {
        container = a;
        codec = b;
        preset = c;
        tuning = d;
        resolution = e;
        frame_rate = f;
        audio_codec = g;
        bitrate = i;
        muxing = j;
        retention = k;
      },
      ok-injective h,
    )

pass_convert : (p : ConvertParams) → Passed p → check_convert p ≡ ok (fold_preset p)
unfolding check_convert
pass_convert p c = rw (
  c.container, c.codec, c.preset, c.tuning, c.resolution, c.frame_rate, c.audio_codec, c.bitrate,
  c.muxing, c.retention,
)

fold_untuned : (p : ConvertParams) → resolved p ≡ (p.speed, p.crf) → fold_preset p ≡ p
unfolding fold_preset
fold_untuned p h = ap (λ (r : String × ℤ). record p { speed = r.0; crf = r.1 }) h

resolved_missing :
    (p : ConvertParams)
    → entry_of encode_preset_crf p.preset p.video_codec ≡ none
    → resolved p ≡ (p.speed, p.crf)
unfolding resolved
resolved_missing p e = rw (e, resolved)

resolved-fold_preset : (p : ConvertParams) → resolved (fold_preset p) ≡ resolved p
unfolding fold_preset resolved
resolved-fold_preset p = elim (Option-cases (entry_of encode_preset_crf p.preset p.video_codec)) [
  | inl e ↦ ap resolved (fold_untuned p (resolved_missing p e))
  | inr (n, e) ↦ rw (e, fold_preset, resolved)
]

fold_preset_idem : (p : ConvertParams) → fold_preset (fold_preset p) ≡ fold_preset p
unfolding fold_preset
fold_preset_idem p =
    ap (λ (r : String × ℤ). record p { speed = r.0; crf = r.1 }) (resolved-fold_preset p)

check_preset-fold_preset :
    (p : ConvertParams) → check_preset p ≡ ok tt → check_preset (fold_preset p) ≡ ok tt
unfolding check_preset fold_preset
check_preset-fold_preset p h = elim (Bool-cases (str_eq p.preset "custom")) [
  | inl e ↦ rw (resolved_custom p e, fold_preset) h
  | inr e ↦ rw (e, check_preset) (rw (e, check_preset) at h)
]

fold_preset-Passed : (p : ConvertParams) → Passed p → Passed (fold_preset p)
unfolding fold_preset check_bitrate
fold_preset-Passed p c = record {
  container = c.container;
  codec = c.codec;
  preset = c.preset;
  tuning = check_preset-fold_preset p c.tuning;
  resolution = c.resolution;
  frame_rate = c.frame_rate;
  audio_codec = c.audio_codec;
  bitrate = c.bitrate;
  muxing = c.muxing;
  retention = c.retention;
}

-- An accepted job has passed all checks with what its preset folds to, and folding changes it no more.
pub parse_convert-Passed :
    (json : Decoder ConvertParams) (raw : List ℕ) (retention : ℤ) {q : ConvertParams}
    → parse_convert json raw retention ≡ ok q
    → Passed q × (resolved q ≡ (q.speed, q.crf))
unfolding parse_convert fold_preset
parse_convert-Passed json raw retention h =
    let (p, _, e) = >>=-ok (decode json raw (convert_defaults retention)) check_convert h in
    let (c, f) = check_convert-Passed p e in
    subst (λ r. Passed r × (resolved r ≡ (r.speed, r.crf))) f
      (fold_preset-Passed p c, resolved-fold_preset p)

-- A convert job that is accepted and does not copy its video has a quality within the bounds of its
-- codec and one of the encoder's speeds, whichever preset it was sent with.
pub parse_convert-Encodes :
    (json : Decoder ConvertParams) (raw : List ℕ) (retention : ℤ) {q : ConvertParams}
    → parse_convert json raw retention ≡ ok q
    → str_eq q.video_codec "copy" ≡ false
    → Encodes q.video_codec (q.speed, q.crf)
unfolding parse_convert fold_preset
parse_convert-Encodes json raw retention {q} h apart =
    let (p, _, e) = >>=-ok (decode json raw (convert_defaults retention)) check_convert h in
    let (c, f) = check_convert-Passed p e in
    subst (λ r. Encodes r.video_codec (r.speed, r.crf)) f
      (resolved_sound p c.tuning (subst (λ r. str_eq r.video_codec "copy" ≡ false) (sym f) apart))

-- The runner reads the stored parameters of an accepted convert job again: if the decoder reads back
-- what was stored, the second reading accepts it and gives the same parameters, whatever default
-- the runner passes.
pub parse_convert_again :
    (json : Decoder ConvertParams) (raw stored : List ℕ) (retention default : ℤ) {q : ConvertParams}
    → parse_convert json raw retention ≡ ok q
    → decode json stored (convert_defaults default) ≡ ok q
    → parse_convert json stored default ≡ ok q
unfolding parse_convert
parse_convert_again json raw stored retention default {q} h reads =
    let (p, _, e) = >>=-ok (decode json raw (convert_defaults retention)) check_convert h in
    let (c, f) = check_convert-Passed p e in
    rw reads (
      subst (λ r. check_convert r ≡ ok r) f
        (pass_convert (fold_preset p) (fold_preset-Passed p c) ∙ ap ok (fold_preset_idem p)))
