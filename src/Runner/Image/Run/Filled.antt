-- ===== src/Runner/Image/Run/Filled.antt =====
-- That the picture of an image job is not empty, unless it was traced.
use aiofiles.Prelude.{
  true, false, ◌≡◌, refl, sym, ap, ◌∙◌, ◌⊎◌, inl, inr, String, str_eq, Option, none, some, ok, err,
  Bool-cases, if◌then◌else◌, ℕ, ◌++◌, codes,
}
use mathlib.Core.Path.{subst}
use aiofiles.Prelude.Bytes.{Bytes, same_codes_refl}
use aiofiles.Presets.Image.{ImageParams}
use aiofiles.Runner.Moves.{Files, has_content, put_file}
use aiofiles.Runner.Image.{magick_args}
use aiofiles.Runner.Image.Run.{
  Request, Machine, Out, Tool, Failure, no_output, no_wrap, magick, then_do, started, check_output,
  is_vector, base_path, tmp_out, render_path, render_format, render, svg_text, wrapped, vectorize,
}

check_output-ok :
    (e : Failure) (path : Bytes) (made after : Files)
    → check_output e path made ≡ (ok tt, after)
    → has_content (after path) ≡ true
check_output-ok e path made after h = elim (Bool-cases (has_content (made path))) [
  | inl b ↦
      subst (λ (f : Files). has_content (f path) ≡ true)
        (ap (λ (r : Out (Unit {0})). r.1)
          (sym (ap (λ x. if x then (ok tt, made) else (err e, made)) b) ∙ h))
        b
  | inr b ↦ absurd (cc (sym (ap (λ x. if x then (ok tt, made) else (err e, made)) b) ∙ h))
]

started-ok :
    (t : Tool) (files : Files) (o : Option Files) (next : Files → Out (Unit {0})) (after : Files)
    → then_do (started t files o) (λ _ made. next made) ≡ (ok tt, after)
    → (made : Files) × (next made ≡ (ok tt, after))
started-ok t files none next after h = absurd cc
started-ok t files (some made) next after h = (made, h)

render-has_content :
    (m : Machine) (q : Request) (p : ImageParams) (format : String) (input : Bytes)
    (made rendered : Files)
    → render m q p format input made ≡ (ok tt, rendered)
    → has_content (rendered (render_path q format)) ≡ true
unfolding render
render-has_content m q p format input made rendered h =
    let path = render_path q format in
    let args = magick_args input path (render_format format) p (is_vector format) in
    let (now, k) =
      started-ok magick made (m.start magick args made) (check_output no_output path) rendered h in
    check_output-ok no_output path now rendered k

sized-ok :
    (dst picture : Bytes) (o : Option (ℕ × ℕ)) (files drawn : Files)
    → ◌≡◌ {A = Out (Unit {0})}
        (elim o as (λ _. Out (Unit {0})) [
          | none ↦ (err no_wrap, files)
          | some size ↦ (ok tt, put_file dst (svg_text size picture) files)
        ])
        (ok tt, drawn)
    → (size : ℕ × ℕ) × (put_file dst (svg_text size picture) files ≡ drawn)
sized-ok dst picture none files drawn h = absurd cc
sized-ok dst picture (some size) files drawn h = (size, ap (λ (r : Out (Unit {0})). r.1) h)

wrapped-ok :
    (m : Machine) (src dst : Bytes) (o : Option Bytes) (files drawn : Files)
    → wrapped m src dst o files ≡ (ok tt, drawn)
    → (size : ℕ × ℕ) × (picture : Bytes) × (put_file dst (svg_text size picture) files ≡ drawn)
unfolding wrapped
wrapped-ok m src dst none files drawn h = absurd cc
wrapped-ok m src dst (some picture) files drawn h =
    let (size, same) = sized-ok dst picture (m.png_size picture) files drawn h in
    (size, picture, same)

svg-has_content :
    (dst : Bytes) (size : ℕ × ℕ) (picture : Bytes) (files : Files)
    → has_content (put_file dst (svg_text size picture) files dst) ≡ true
unfolding svg_text
svg-has_content dst size picture files = rw (same_codes_refl dst) refl

same_path :
    (q : Request) (format : String)
    → str_eq format "svg" ≡ false
    → str_eq format "svg_trace" ≡ false
    → render_path q format ≡ tmp_out q format
unfolding render_path
same_path q format a b = rw (a, b) refl

-- What a job has drawn has content, if it is not a traced one.
pub vectorize-has_content :
    (m : Machine) (q : Request) (p : ImageParams) (format : String) (input : Bytes)
    (made rendered drawn : Files)
    → render m q p format input made ≡ (ok tt, rendered)
    → vectorize m q format rendered ≡ (ok tt, drawn)
    → (str_eq format "svg_trace" ≡ true) ⊎ (has_content (drawn (tmp_out q format)) ≡ true)
unfolding vectorize
vectorize-has_content m q p format input made rendered drawn h k =
    elim (Bool-cases (str_eq format "svg")) [
      | inl a ↦
          let src = base_path q ++ codes ".png" in
          let (size, picture, same) =
            wrapped-ok m src (tmp_out q format) (rendered src) rendered drawn (rw a at k) in
          inr (
            subst (λ (f : Files). has_content (f (tmp_out q format)) ≡ true) same
              (svg-has_content (tmp_out q format) size picture rendered))
      | inr a ↦ elim (Bool-cases (str_eq format "svg_trace")) [
        | inl b ↦ inl b
        | inr b ↦
            let full = render-has_content m q p format input made rendered h in
            inr (
              subst (λ (f : Files). has_content (f (tmp_out q format)) ≡ true)
                (ap (λ (r : Out (Unit {0})). r.1) (rw (a, b) at k))
                (subst (λ path. has_content (rendered path) ≡ true) (same_path q format a b) full))
      ]
    ]
