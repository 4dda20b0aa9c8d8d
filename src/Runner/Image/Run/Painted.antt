-- ===== src/Runner/Image/Run/Painted.antt =====
-- What an image job that succeeds leaves behind.
use aiofiles.Prelude.{
  Bool, true, false, not, ◌≡◌, refl, sym, ap, ◌∙◌, ◌⊎◌, inl, inr, [], ◌∷◌, ◌++◌, All, if◌then◌else◌,
  String, codes, Option, none, some, ok, err, ok-injective, str_eq, Option-cases,
}
use mathlib.Core.Path.{subst}
use mathlib.Core.List.{append_assoc}
use aiofiles.Prelude.Bytes.{Bytes, same_codes}
use aiofiles.Presets.Checks.{Checked}
use aiofiles.Presets.Image.{ImageParams}
use aiofiles.Runner.Texts.{is_empty, trim_space}
use aiofiles.Runner.Moves.{Files, System, Moved, has_content, remove_all}
use aiofiles.Runner.Moves.Removed.{same_codes-false, all_removed, kept}
use aiofiles.Runner.Moves.Outcome.{IsMove, move_file-IsMove, move_file_absent}
use aiofiles.Runner.Image.{is_svg_path}
use aiofiles.Runner.Image.Run.Filled.{vectorize-has_content}
use aiofiles.Runner.Image.Run.{
  Request, Machine, Out, then_do, base_path, tmp_out, rasterized, render_path, rasterize, render,
  vectorize, output_path, placed, paint, temporary, cleaned, planned, run_planned, run_stat, run,
  no_tmp, no_input, is_vector,
}

-- Each step of the run ended well, and the output is, whole, what the last of them wrote, which is not empty, unless it
-- was traced.
abbrev pub Drawn : Machine → Request → ImageParams → String → Files → Bytes → Files → Type 0
Drawn m q p format files dst after =
    (input content : Bytes) × (made rendered drawn : Files) × (rasterize m q p files
      ≡ (ok input, made))
    × (render m q p format input made ≡ (ok tt, rendered))
    × (vectorize m q format rendered ≡ (ok tt, drawn))
    × (drawn (tmp_out q format) ≡ some content)
    × (dst ≡ output_path m q format input)
    × (after dst ≡ some content)
    × ((str_eq format "svg_trace" ≡ true) ⊎ (is_empty content ≡ false))

abbrev pub IsPainted : Machine → Request → Files → Out Bytes → Type 0
IsPainted m q files (err e, after) = Unit
IsPainted m q files (ok dst, after) =
    (p : ImageParams) × (format : String) × (planned m q ≡ ok (p, format))
    × Drawn m q p format files dst after
    × (after (tmp_out q format) ≡ none)
    × ((is_svg_path m.fold q.input ≡ false) ⊎ (after (rasterized q) ≡ none))
    × ((is_vector format ≡ false) ⊎ (after (render_path q format) ≡ none))

-- What the list of the deferred removals holds.
each_gone :
    (b c : Bool) (x y z : Bytes) (after : Files)
    → All
        (λ path. after path ≡ none)
        (x ∷ ((if b then y ∷ [] else []) ++ (if c then z ∷ [] else [])))
    → (after x ≡ none) × ((b ≡ false) ⊎ (after y ≡ none)) × ((c ≡ false) ⊎ (after z ≡ none))
each_gone true true x y z after (g, (h, (i, _))) = (g, inr h, inr i)
each_gone true false x y z after (g, (h, _)) = (g, inr h, inl refl)
each_gone false true x y z after (g, (i, _)) = (g, inl refl, inr i)
each_gone false false x y z after (g, _) = (g, inl refl, inl refl)

then_do-ok :
    {A B : Type 0} (r : Out A) (next : A → Files → Out B) (b : B) (after : Files)
    → then_do r next ≡ (ok b, after)
    → (a : A) × (files : Files) × (r ≡ (ok a, files)) × (next a files ≡ (ok b, after))
then_do-ok (ok a, files) next b after h = (a, files, refl, h)
then_do-ok (err e, files) next b after h = absurd cc

placed-ok :
    (sys : System) (src dst content : Bytes) (before : Files) (mv : Moved) (out : Bytes)
    (after : Files)
    → IsMove sys src dst content before mv
    → placed dst mv ≡ (ok out, after)
    → (out ≡ dst) × (after out ≡ some content)
placed-ok sys src dst content before (err e, now) out after h k = absurd cc
placed-ok sys src dst content before (ok u, now) out after (at, _, _) k =
    let same : dst ≡ out = ok-injective (ap (λ (r : Out Bytes). r.0) k) in
    let files : now ≡ after = ap (λ (r : Out Bytes). r.1) k in
    (sym same, ap (λ (f : Files). f out) (sym files) ∙ ap now (sym same) ∙ at)

content_filled :
    {o : Option Bytes} {content : Bytes} (format : String)
    → o ≡ some content
    → (str_eq format "svg_trace" ≡ true) ⊎ (has_content o ≡ true)
    → (str_eq format "svg_trace" ≡ true) ⊎ (is_empty content ≡ false)
content_filled format e (inl t) = inl t
content_filled {o} {content} format e (inr f) =
    inr (empty_or (is_empty content) (sym (ap has_content e) ∙ f))
  where
    empty_or : (b : Bool) → not b ≡ true → b ≡ false
    empty_or true h = cc
    empty_or false h = refl

module _ (m : Machine) (q : Request) (files : Files)
    (apart : (s t : Bytes)
      → same_codes (q.download_dir ++ b'/' ∷ s) (q.tmp_dir ++ b'/' ∷ t) ≡ false) where
  -- A path below the temporary directory, and one below the directory of outputs.
  InTmp : Bytes → Type 0
  InTmp path = (t : Bytes) × (path ≡ q.tmp_dir ++ b'/' ∷ t)

  InOut : Bytes → Type 0
  InOut path = (s : Bytes) × (path ≡ q.download_dir ++ b'/' ∷ s)

  differ : (dst path : Bytes) → InOut dst → InTmp path → same_codes dst path ≡ false
  unfolding InTmp InOut
  differ dst path (s, e) (t, f) = rw (e, f) (apart s t)

  base-InTmp : (r : Bytes) → InTmp (base_path q ++ r)
  unfolding InTmp base_path
  base-InTmp r = (_, append_assoc q.tmp_dir _ r)

  tmp_out-InTmp : (format : String) → InTmp (tmp_out q format)
  unfolding tmp_out
  tmp_out-InTmp format = base-InTmp _

  output_path-InOut : (format : String) (input : Bytes) → InOut (output_path m q format input)
  unfolding InOut output_path
  output_path-InOut format input = (_, refl)

  render_path-InTmp : (format : String) → InTmp (render_path q format)
  unfolding render_path
  render_path-InTmp format = any_of (str_eq format "svg") (str_eq format "svg_trace")
    where
      any_of :
          (b c : Bool)
          → InTmp (
              if b
              then base_path q ++ codes ".png"
              else if c
              then base_path q ++ codes ".pbm"
              else tmp_out q format)
      any_of true c = base-InTmp (codes ".png")
      any_of false true = base-InTmp (codes ".pbm")
      any_of false false = tmp_out-InTmp format

  rasterized-InTmp : InTmp (rasterized q)
  unfolding rasterized
  rasterized-InTmp = base-InTmp _

  -- The move is the last step, so its source is what the steps in front of it have made.
  paint-Drawn :
      (p : ImageParams) (format : String) (dst : Bytes) (after : Files)
      → paint m q p format files ≡ (ok dst, after)
      → Drawn m q p format files dst after
  unfolding paint
  paint-Drawn p format dst after h =
      let (input, made, a, h) = then_do-ok (rasterize m q p files) _ dst after h in
      let (u, rendered, b, h) = then_do-ok (render m q p format input made) _ dst after h in
      let (v, drawn, c, h) = then_do-ok (vectorize m q format rendered) _ dst after h in
      let src = tmp_out q format in
      let out = output_path m q format input in
      elim (Option-cases (drawn src)) [
        | inl e ↦
            let (f, stays) = move_file_absent m.moving src out drawn e in
            absurd (cc (sym (ap (placed out) stays) ∙ h))
        | inr (content, e) ↦
            let other = differ out src (output_path-InOut format input) (tmp_out-InTmp format) in
            let mv =
              move_file-IsMove m.moving src out content drawn (same_codes-false out src other) other
                e in
            let (same, at) = placed-ok m.moving src out content drawn _ dst after mv h in
            let filled = vectorize-has_content m q p format input made rendered drawn b c in
            (
              input,
              content,
              made,
              rendered,
              drawn,
              a,
              b,
              c,
              e,
              same,
              at,
              content_filled format e filled,
            )
      ]

  apart_from :
      (dst : Bytes) (b c : Bool) (x y z : Bytes)
      → InOut dst
      → InTmp x
      → InTmp y
      → InTmp z
      → All
          (λ p. same_codes dst p ≡ false)
          (x ∷ ((if b then y ∷ [] else []) ++ (if c then z ∷ [] else [])))
  apart_from dst true true x y z o i j k =
      (differ dst x o i, (differ dst y o j, (differ dst z o k, tt)))
  apart_from dst true false x y z o i j k = (differ dst x o i, (differ dst y o j, tt))
  apart_from dst false true x y z o i j k = (differ dst x o i, (differ dst z o k, tt))
  apart_from dst false false x y z o i j k = (differ dst x o i, tt)

  cleaned-IsPainted :
      (p : ImageParams) (format : String) (r : Out Bytes)
      → planned m q ≡ ok (p, format)
      → paint m q p format files ≡ r
      → IsPainted m q files (cleaned (temporary m q format) r)
  unfolding temporary
  cleaned-IsPainted p format (err e, after) h k = tt
  cleaned-IsPainted p format (ok dst, after) h k =
      let (input, content, made, rendered, drawn, a, b, c, e, same, at, filled) =
        paint-Drawn p format dst after k in
      let ps = temporary m q format in
      let (g1, g2, g3) =
        each_gone (is_svg_path m.fold q.input) (is_vector format) (tmp_out q format) (rasterized q)
          (render_path q format) (remove_all ps after) (all_removed ps after) in
      let o = subst InOut (sym same) (output_path-InOut format input) in
      let away =
        apart_from dst (is_svg_path m.fold q.input) (is_vector format) (tmp_out q format)
          (rasterized q) (render_path q format) o (tmp_out-InTmp format) rasterized-InTmp
          (render_path-InTmp format) in
      (
        p,
        format,
        h,
        (
          input,
          content,
          made,
          rendered,
          drawn,
          a,
          b,
          c,
          e,
          same,
          kept dst after ps away ∙ at,
          filled,
        ),
        g1,
        g2,
        g3,
      )

  planned-IsPainted :
      (c : Checked (ImageParams × String))
      → planned m q ≡ c
      → IsPainted m q files (run_planned m q files c)
  unfolding run_planned
  planned-IsPainted (err e) h = tt
  planned-IsPainted (ok (p, format)) h = tmp_made m.tmp_ok
    where
      tmp_made :
          (b : Bool)
          → IsPainted m q files (
              if not b
              then (err no_tmp, files)
              else cleaned (temporary m q format) (paint m q p format files))
      tmp_made true = cleaned-IsPainted p format (paint m q p format files) h refl
      tmp_made false = tt

  stat-IsPainted : (o : Option Bool) → IsPainted m q files (run_stat m q files o)
  unfolding run_stat
  stat-IsPainted none = tt
  stat-IsPainted (some true) = tt
  stat-IsPainted (some false) = planned-IsPainted (planned m q) refl

  -- If no path below the directory of outputs is one below the temporary directory, an image job that succeeds has
  -- put what its programs have drawn, whole and, unless it was traced, not empty, at the path it answers with, and
  -- leaves neither the temporary output, nor a rasterised source, nor the picture that an SVG is made of.
  pub run-IsPainted : IsPainted m q files (run m q files)
  unfolding run
  run-IsPainted = with_input (is_empty (trim_space q.input))
    where
      with_input :
          (b : Bool)
          → IsPainted m q files
              (if b then (err no_input, files) else run_stat m q files (m.stat q.input))
      with_input true = tt
      with_input false = stat-IsPainted (m.stat q.input)
