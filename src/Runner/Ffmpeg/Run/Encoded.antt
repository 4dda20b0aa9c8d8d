-- ===== src/Runner/Ffmpeg/Run/Encoded.antt =====
-- What an encode that succeeds leaves behind.
use aiofiles.Prelude.{
  Bool, true, false, not, ◌≡◌, refl, sym, ap, ◌∙◌, inl, inr, [], ◌∷◌, ◌++◌, if◌then◌else◌, Option,
  none, some, Result, ok, err, ok-injective, Bool-cases,
}
use aiofiles.Prelude.Bytes.{Bytes, same_codes}
use aiofiles.Runner.Texts.{is_empty, trim_space}
use aiofiles.Runner.Moves.{Files, System, Moved, move_file, has_content}
use aiofiles.Runner.Moves.Removed.{same_codes-false, all_removed, kept}
use aiofiles.Runner.Moves.Outcome.{IsMove, move_file-IsMove}
use aiofiles.Runner.Ffmpeg.{EncodeSpec, RunError}
use aiofiles.Runner.Ffmpeg.Run.{
  Request, Machine, Out, tmp_out, encode_spec, output_path, placed, finish, cleaned, run_spec,
  planned, run_stat, run, no_tmp, no_input, no_output,
}

-- The commands of the spec ended well, and the output is, whole, the file that they wrote; that file is not empty and
-- not left at its temporary place.
abbrev pub IsEncoded : Machine → Request → Files → Out Bytes → Type 0
IsEncoded m q files (err e, after) = Unit
IsEncoded m q files (ok dst, after) =
    (s : EncodeSpec) × (content : Bytes) × (made : Files) × (planned m q ≡ ok s)
    × (encode_spec m q s files ≡ (ok tt, made))
    × (made (tmp_out q s) ≡ some content)
    × (is_empty content ≡ false)
    × (dst ≡ output_path m q s)
    × (after dst ≡ some content)
    × (after (tmp_out q s) ≡ none)

content-some :
    (o : Option Bytes) → has_content o ≡ true → (c : Bytes) × (o ≡ some c) × (is_empty c ≡ false)
content-some none h = absurd cc
content-some (some []) h = absurd cc
content-some (some (b ∷ c)) h = (b ∷ c, refl, refl)

placed-ok :
    (sys : System) (src dst content : Bytes) (before : Files) (mv : Moved) (out : Bytes)
    (after : Files)
    → IsMove sys src dst content before mv
    → placed dst mv ≡ (ok out, after)
    → (out ≡ dst) × (after out ≡ some content)
placed-ok sys src dst content before (err e, now) out after h k = absurd cc
placed-ok sys src dst content before (ok u, now) out after (at, _, _) k =
    let same : dst ≡ out = ok-injective (ap (λ (r : Out Bytes). r.0) k) in
    let files : now ≡ after = ap (λ (r : Out Bytes). r.1) k in
    (sym same, ap (λ (f : Files). f out) (sym files) ∙ ap now (sym same) ∙ at)

module _ (m : Machine) (q : Request) (files : Files)
    (apart : (s t : Bytes)
      → same_codes (q.download_dir ++ b'/' ∷ s) (q.tmp_dir ++ b'/' ∷ t) ≡ false) where
  output-apart : (s : EncodeSpec) → same_codes (output_path m q s) (tmp_out q s) ≡ false
  unfolding output_path tmp_out
  output-apart s = apart _ _

  finish-ok :
      (s : EncodeSpec) (o : Out (Unit {0})) (dst : Bytes) (after : Files)
      → finish m q s o ≡ (ok dst, after)
      → (made : Files) × (content : Bytes) × (o ≡ (ok tt, made))
        × (made (tmp_out q s) ≡ some content)
        × (is_empty content ≡ false)
        × (dst ≡ output_path m q s)
        × (after dst ≡ some content)
  unfolding finish
  finish-ok s (err e, made) dst after h = absurd cc
  finish-ok s (ok u, made) dst after h =
      let src = tmp_out q s in
      let out = output_path m q s in
      elim (Bool-cases (has_content (made src))) [
        | inr e ↦ absurd (
            cc (
              sym (
                ap
                  (λ b.
                    if b
                    then placed out (move_file m.moving src out made)
                    else (err no_output, made))
                  e)
              ∙ h))
        | inl e ↦
            let (content, there, full) = content-some (made src) e in
            let mv =
              move_file-IsMove m.moving src out content made
                (same_codes-false out src (output-apart s)) (output-apart s) there in
            let moved =
              sym (
                ap
                  (λ b.
                    if b
                    then placed out (move_file m.moving src out made)
                    else (err no_output, made))
                  e)
              ∙ h in
            let (same, at) = placed-ok m.moving src out content made _ dst after mv moved in
            (made, content, refl, there, full, same, at)
      ]

  cleaned-IsEncoded :
      (s : EncodeSpec) (r : Out Bytes)
      → planned m q ≡ ok s
      → finish m q s (encode_spec m q s files) ≡ r
      → IsEncoded m q files (cleaned (tmp_out q s ∷ []) r)
  cleaned-IsEncoded s (err e, after) h k = tt
  cleaned-IsEncoded s (ok dst, after) h k =
      let (made, content, a, b, c, same, at) = finish-ok s (encode_spec m q s files) dst after k in
      let tmp = tmp_out q s in
      let away : same_codes dst tmp ≡ false = ap (λ x. same_codes x tmp) same ∙ output-apart s in
      let (gone, _) = all_removed (tmp ∷ []) after in
      (s, content, made, h, a, b, c, same, kept dst after (tmp ∷ []) (away, tt) ∙ at, gone)

  spec-IsEncoded :
      (c : Result RunError EncodeSpec)
      → planned m q ≡ c
      → IsEncoded m q files (run_spec m q files c)
  unfolding run_spec
  spec-IsEncoded (err e) h = tt
  spec-IsEncoded (ok s) h = tmp_made m.tmp_ok
    where
      tmp_made :
          (b : Bool)
          → IsEncoded m q files (
              if not b
              then (err no_tmp, files)
              else cleaned (tmp_out q s ∷ []) (finish m q s (encode_spec m q s files)))
      tmp_made true = cleaned-IsEncoded s (finish m q s (encode_spec m q s files)) h refl
      tmp_made false = tt

  stat-IsEncoded : (o : Option Bool) → IsEncoded m q files (run_stat m q files o)
  unfolding run_stat
  stat-IsEncoded none = tt
  stat-IsEncoded (some true) = tt
  stat-IsEncoded (some false) = spec-IsEncoded (planned m q) refl

  -- If no path below the directory of outputs is one below the temporary directory, an encode that succeeds has put the
  -- file that its commands wrote, which is not empty, whole at the path it answers with, and not left it at its
  -- temporary place.
  pub run-IsEncoded : IsEncoded m q files (run m q files)
  unfolding run
  run-IsEncoded = with_input (is_empty (trim_space q.input))
    where
      with_input :
          (b : Bool)
          → IsEncoded m q files
              (if b then (err no_input, files) else run_stat m q files (m.stat q.input))
      with_input true = tt
      with_input false = stat-IsEncoded (m.stat q.input)
