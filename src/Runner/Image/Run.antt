-- ===== src/Runner/Image/Run.antt =====
-- internal/runner/image.go: the steps of an image job. What a program does to the files is an argument; the input's
-- path is absolute, and the deferred removals succeed.
pub mod Filled
pub mod Painted
use aiofiles.Prelude.{
  ℕ, String, Bool, true, false, not, ◌||◌, List, [], ◌∷◌, ◌++◌, if◌then◌else◌, str_eq, codes,
  Option, none, some, Result, ok, err, ◌>>=◌,
}
use aiofiles.Prelude.Int.{ℤ, pos}
use aiofiles.Prelude.Bytes.{Bytes, same_codes}
use aiofiles.Prelude.Paths.{path_ext}
use aiofiles.Prelude.Base64.{encode_padded}
use aiofiles.Runner.Numerals.{itoa}
use aiofiles.Presets.Checks.{ValidationError, Checked, Decoder}
use aiofiles.Presets.Image.{ImageParams, parse_image, resolve_format}
use aiofiles.Runner.Texts.{is_empty, trim_space, first_non_empty, base_without_ext}
use aiofiles.Runner.Names.{sanitize_name, short_id, unique_output_name}
use aiofiles.Runner.Moves.{
  Files, System, MoveError, Moved, move_file, has_content, put_file, remove_all,
}
use aiofiles.Runner.Image.{Args, magick_args, output_ext, is_svg_path, rsvg_args}

pub record Request : Type 0 where
  pub id : Bytes
  pub params : List ℕ
  pub input : Bytes
  pub source : Bytes
  pub title : Bytes
  pub tmp_dir : Bytes
  pub download_dir : Bytes

pub data Tool : Type 0 where
  rsvg magick potrace : Tool

-- What the system answers. `stat` says of the input whether it is a directory; `start` is what a program does to the
-- files when it ends well; `png_size` is what `png.DecodeConfig`
-- reads of a picture; `source_ext` is the extension of
-- a path as a text, in lower case and without its dot.
pub record Machine : Type 0 where
  pub decoder : Decoder ImageParams
  pub fold : Bytes → Bytes
  pub source_ext : Bytes → String
  pub stat : Bytes → Option Bool
  pub tmp_ok : Bool
  pub start : Tool → Args → Files → Option Files
  pub png_size : Bytes → Option (ℕ × ℕ)
  pub taken : Bytes → Bool
  pub draw : ℕ → Bytes
  pub moving : System

pub data Failure : Type 0 where
  no_input bad_input is_directory no_tmp no_render no_output no_wrap : Failure
  refused : ValidationError → Failure
  failed : Tool → Failure
  unmoved : MoveError → Failure

-- A result, and the files.
abbrev pub Out : Type 0 → Type 0
Out A = Result Failure A × Files

abbrev pub then_do : {A B : Type 0} → Out A → (A → Files → Out B) → Out B
then_do (ok a, files) next = next a files
then_do (err e, files) next = (err e, files)

abbrev pub started : Tool → Files → Option Files → Out (Unit {0})
started t files none = (err (failed t), files)
started t files (some after) = (ok tt, after)

abbrev pub check_output : Failure → Bytes → Files → Out (Unit {0})
check_output e path files = if has_content (files path) then (ok tt, files) else (err e, files)

-- The paths of a run: what its temporary names begin with, and the temporary files.
unfoldable pub base_path : Request → Bytes
unfolding sanitize_name
base_path q = q.tmp_dir ++ (b'/' ∷ (codes "img-" ++ sanitize_name (short_id q.id)))

unfoldable pub tmp_out : Request → String → Bytes
unfolding base_path sanitize_name
tmp_out q format = base_path q ++ (b'.' ∷ sanitize_name (codes (output_ext format)))

unfoldable pub rasterized : Request → Bytes
unfolding base_path
rasterized q = base_path q ++ codes "-src.png"

-- What is rendered, and where: an SVG is made of a picture, or traced from one.
unfoldable pub render_format : String → String
render_format format =
    if str_eq format "svg" then "png" else if str_eq format "svg_trace" then "pbm" else format

unfoldable pub render_path : Request → String → Bytes
unfolding base_path tmp_out
render_path q format =
    if str_eq format "svg"
    then base_path q ++ codes ".png"
    else if str_eq format "svg_trace"
    then base_path q ++ codes ".pbm"
    else tmp_out q format

-- An SVG is rendered first; the answer is the path to go on with.
unfoldable pub rasterize : Machine → Request → ImageParams → Files → Out Bytes
unfolding rasterized is_svg_path rsvg_args
rasterize m q p files =
    if not (is_svg_path m.fold q.input)
    then (ok q.input, files)
    else then_do (started rsvg files (m.start rsvg (rsvg_args q.input (rasterized q) p) files))
        (λ _ made.
          then_do (check_output no_render (rasterized q) made)
            (λ _ same. (ok (rasterized q), same)))

abbrev pub is_vector : String → Bool
is_vector format = str_eq format "svg" || str_eq format "svg_trace"

unfoldable pub render : Machine → Request → ImageParams → String → Bytes → Files → Out (Unit {0})
unfolding render_path render_format magick_args
render m q p format input files =
    let path = render_path q format in
    then_do
      (started magick files
        (m.start magick (magick_args input path (render_format format) p (is_vector format)) files))
      (λ _ made. check_output no_output path made)

-- The text that `wrapPNGInSVG` writes around the encoded picture.
unfoldable pub svg_text : ℕ × ℕ → Bytes → Bytes
unfolding itoa encode_padded
svg_text (w, h) picture =
    codes
      "<svg xmlns=\"http://www.w3.org/2000/svg\" xmlns:xlink=\"http://www.w3.org/1999/xlink\" viewBox=\"0 0 "
    ++ (itoa (pos w)
        ++ (codes " "
            ++ (itoa (pos h)
                ++ (codes "\"><image width=\""
                    ++ (itoa (pos w)
                        ++ (codes "\" height=\""
                            ++ (itoa (pos h)
                                ++ (codes "\" href=\"data:image/png;base64,"
                                    ++ (encode_padded picture ++ codes "\"/></svg>\n")))))))))

-- The writes are taken to succeed.
abbrev pub wrapped : Machine → Bytes → Bytes → Option Bytes → Files → Out (Unit {0})
unfolding svg_text
wrapped m src dst none files = (err no_wrap, files)
wrapped m src dst (some picture) files = elim (m.png_size picture) [
  | none ↦ (err no_wrap, files)
  | some size ↦ (ok tt, put_file dst (svg_text size picture) files)
]

abbrev pub trace_args : Bytes → Bytes → Args
trace_args out path = codes "--svg" ∷ codes "--output" ∷ out ∷ codes "--" ∷ path ∷ []

unfoldable pub vectorize : Machine → Request → String → Files → Out (Unit {0})
unfolding tmp_out render_path wrapped
vectorize m q format files =
    if str_eq format "svg"
    then wrapped m (render_path q format) (tmp_out q format) (files (render_path q format)) files
    else if str_eq format "svg_trace"
    then started potrace files
        (m.start potrace (trace_args (tmp_out q format) (render_path q format)) files)
    else (ok tt, files)

unfoldable pub output_path : Machine → Request → String → Bytes → Bytes
unfolding unique_output_name first_non_empty base_without_ext
output_path m q format input =
    let base = first_non_empty (
      base_without_ext q.title
      ∷ base_without_ext q.source
      ∷ base_without_ext input
      ∷ codes "image"
      ∷ []) in
    q.download_dir
    ++ (b'/' ∷ unique_output_name m.taken m.draw base (codes (output_ext format)) q.id)

abbrev pub placed : Bytes → Moved → Out Bytes
placed dst (ok _, files) = (ok dst, files)
placed dst (err e, files) = (err (unmoved e), files)

-- The steps between the temporary directory and the removals.
unfoldable pub paint : Machine → Request → ImageParams → String → Files → Out Bytes
unfolding rasterize render vectorize output_path move_file
paint m q p format files = then_do (rasterize m q p files) (λ input made.
    then_do (render m q p format input made) (λ _ rendered.
      then_do (vectorize m q format rendered) (λ _ drawn.
        let dst = output_path m q format input in
        placed dst (move_file m.moving (tmp_out q format) dst drawn))))

-- The deferred removals. A file that the run did not make is not there to be removed.
abbrev pub temporary : Machine → Request → String → List Bytes
unfolding tmp_out rasterized render_path
temporary m q format =
    tmp_out q format
    ∷ ((if is_svg_path m.fold q.input then rasterized q ∷ [] else [])
        ++ (if is_vector format then render_path q format ∷ [] else []))

abbrev pub cleaned : List Bytes → Out Bytes → Out Bytes
cleaned ps (r, files) = (r, remove_all ps files)

unfoldable pub planned : Machine → Request → Checked (ImageParams × String)
planned m q = do
  p ← parse_image m.decoder q.params (pos 7)
  format ← resolve_format (m.source_ext q.input) p
  ok (p, format)

abbrev pub run_planned : Machine → Request → Files → Checked (ImageParams × String) → Out Bytes
unfolding paint temporary
run_planned m q files (err e) = (err (refused e), files)
run_planned m q files (ok (p, format)) =
    if not m.tmp_ok
    then (err no_tmp, files)
    else cleaned (temporary m q format) (paint m q p format files)

abbrev pub run_stat : Machine → Request → Files → Option Bool → Out Bytes
unfolding run_planned planned
run_stat m q files none = (err bad_input, files)
run_stat m q files (some true) = (err is_directory, files)
run_stat m q files (some false) = run_planned m q files (planned m q)

unfoldable pub run : Machine → Request → Files → Out Bytes
unfolding run_stat
run m q files =
    if is_empty (trim_space q.input)
    then (err no_input, files)
    else run_stat m q files (m.stat q.input)
