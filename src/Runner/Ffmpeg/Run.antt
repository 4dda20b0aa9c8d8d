-- ===== src/Runner/Ffmpeg/Run.antt =====
-- internal/runner/ffmpeg.go: the steps of an encode around its commands. What ffmpeg does to the files
-- is an argument; the input's path is absolute, and the deferred removals succeed.
pub mod Encoded
use aiofiles.Prelude.{
  ℕ, Bool, true, false, not, ◌&&◌, List, [], ◌∷◌, ◌++◌, if◌then◌else◌, codes, ltb, length, drop,
  Option, none, some, Result, ok, err,
}
use aiofiles.Prelude.Int.{ℤ, pos}
use aiofiles.Prelude.Bytes.{Bytes, has_prefix, has_byte}
use aiofiles.Jobs.Types.{JobType}
use aiofiles.Presets.Checks.{Decoder}
use aiofiles.Presets.Convert.{ConvertParams}
use aiofiles.Presets.Compress.{CompressParams}
use aiofiles.Runner.Texts.{is_empty, trim_space, first_non_empty, base_without_ext}
use aiofiles.Runner.Names.{sanitize_name, short_id, unique_output_name}
use aiofiles.Runner.Moves.{Files, System, MoveError, Moved, move_file, has_content, remove_all}
use aiofiles.Runner.Ffmpeg.{EncodeSpec, RunError, spec_for}
use aiofiles.Runner.Ffmpeg.Command.{Args, ffmpeg_args, two_pass, budgeted}

pub record Request : Type 0 where
  pub id : Bytes
  pub kind : JobType
  pub params : List ℕ
  pub input : Bytes
  pub source : Bytes
  pub title : Bytes
  pub tmp_dir : Bytes
  pub download_dir : Bytes

-- What the system answers: `stat` says of the input whether it is a directory, `length` is what ffprobe tells of it,
-- and `start` is what ffmpeg does to the files when it ends well.
pub record Machine : Type 0 where
  pub of_convert : Decoder ConvertParams
  pub of_compress : Decoder CompressParams
  pub stat : Bytes → Option Bool
  pub length : Bytes → Option ℕ
  pub tmp_ok : Bool
  pub start : Args → Files → Option Files
  pub taken : Bytes → Bool
  pub draw : ℕ → Bytes
  pub moving : System

pub data Failure : Type 0 where
  no_input bad_input is_directory no_tmp failed no_output : Failure
  refused : RunError → Failure
  unmoved : MoveError → Failure

abbrev pub Out : Type 0 → Type 0
Out A = Result Failure A × Files

-- The commands in their order, up to the first that fails.
unfoldable pub run_all : Machine → List Args → Files → Out (Unit {0})
run_all m [] files = (ok tt, files)
run_all m (args ∷ more) files = elim (m.start args files) [
  | none ↦ (err failed, files)
  | some made ↦ run_all m more made
]

abbrev pub tag_of : Request → Bytes
unfolding sanitize_name
tag_of q = sanitize_name (short_id q.id)

unfoldable pub tmp_out : Request → EncodeSpec → Bytes
unfolding tag_of sanitize_name
tmp_out q s =
    q.tmp_dir ++ (b'/' ∷ (codes "enc-" ++ (tag_of q ++ (b'.' ∷ sanitize_name (codes s.container)))))

unfoldable pub log_path : Request → Bytes
unfolding tag_of
log_path q = q.tmp_dir ++ (b'/' ∷ (codes "pass-" ++ tag_of q))

-- `removePassLogs`: the entries of the directory whose names begin so.
unfoldable pub remove_pass_logs : Request → Files → Files
unfolding log_path
remove_pass_logs q files path =
    if has_prefix path (log_path q) && not (has_byte b'/' (drop (length (log_path q)) path))
    then none
    else files path

abbrev pub logs_removed : Request → Out (Unit {0}) → Out (Unit {0})
unfolding remove_pass_logs
logs_removed q (r, files) = (r, remove_pass_logs q files)

-- One pass, or two with their logs.
unfoldable pub encode_spec : Machine → Request → EncodeSpec → Files → Out (Unit {0})
unfolding run_all logs_removed two_pass ffmpeg_args tmp_out log_path
encode_spec m q s files =
    if ltb 0 s.video_kbps
    then logs_removed q (run_all m (two_pass q.input (tmp_out q s) (log_path q) s) files)
    else run_all m (ffmpeg_args q.input (tmp_out q s) s ∷ []) files

unfoldable pub output_path : Machine → Request → EncodeSpec → Bytes
unfolding unique_output_name first_non_empty base_without_ext
output_path m q s =
    let base = first_non_empty (
      base_without_ext q.title
      ∷ base_without_ext q.source
      ∷ base_without_ext q.input
      ∷ codes "media"
      ∷ []) in
    q.download_dir ++ (b'/' ∷ unique_output_name m.taken m.draw base (codes s.container) q.id)

abbrev pub placed : Bytes → Moved → Out Bytes
placed dst (ok _, files) = (ok dst, files)
placed dst (err e, files) = (err (unmoved e), files)

-- What follows the encode: the output is there, and moves.
abbrev pub finish : Machine → Request → EncodeSpec → Out (Unit {0}) → Out Bytes
unfolding output_path move_file tmp_out
finish m q s (err e, files) = (err e, files)
finish m q s (ok _, files) =
    if has_content (files (tmp_out q s))
    then placed (output_path m q s) (move_file m.moving (tmp_out q s) (output_path m q s) files)
    else (err no_output, files)

abbrev pub cleaned : List Bytes → Out Bytes → Out Bytes
cleaned ps (r, files) = (r, remove_all ps files)

abbrev pub run_spec : Machine → Request → Files → Result RunError EncodeSpec → Out Bytes
unfolding finish encode_spec tmp_out
run_spec m q files (err e) = (err (refused e), files)
run_spec m q files (ok s) =
    if not m.tmp_ok
    then (err no_tmp, files)
    else cleaned (tmp_out q s ∷ []) (finish m q s (encode_spec m q s files))

-- The spec with its budget; a length that is not known counts as none.
unfoldable pub planned : Machine → Request → Result RunError EncodeSpec
unfolding spec_for budgeted
planned m q = elim (spec_for m.of_convert m.of_compress (pos 7) q.kind q.params) [
  | err e ↦ err e
  | ok s ↦ budgeted (m.length q.input) s
]

abbrev pub run_stat : Machine → Request → Files → Option Bool → Out Bytes
unfolding run_spec planned
run_stat m q files none = (err bad_input, files)
run_stat m q files (some true) = (err is_directory, files)
run_stat m q files (some false) = run_spec m q files (planned m q)

-- `FFmpeg.Run`, of a job that is no edit.
unfoldable pub run : Machine → Request → Files → Out Bytes
unfolding run_stat
run m q files =
    if is_empty (trim_space q.input)
    then (err no_input, files)
    else run_stat m q files (m.stat q.input)
