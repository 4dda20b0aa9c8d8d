-- ===== src/Runner/YtDlp/Run.antt =====
-- internal/runner/ytdlp.go: a download from its stored parameters to the file in its place. A text is its code
-- points: the slug of a title is that of its bytes, since every run of foreign ones is one dash.
pub mod Delivered
use aiofiles.Prelude.{
  ℕ, Bool, true, false, not, List, [], ◌∷◌, ◌++◌, if◌then◌else◌, codes, Option, none, some, Result,
  ok, err, ◌>>=◌,
}
use aiofiles.Prelude.Int.{ℤ, pos}
use aiofiles.Prelude.Bytes.{Bytes, has_prefix}
use aiofiles.Prelude.Paths.{path_ext}
use aiofiles.Presets.Checks.{ValidationError, Checked, Decoder}
use aiofiles.Presets.Download.{DownloadParams, parse_download}
use aiofiles.Presets.Source.{Lookup, validate_source_url}
use aiofiles.Runner.Texts.{first_non_empty, base_without_ext}
use aiofiles.Runner.Names.{sanitize_name, short_id, unique_output_name}
use aiofiles.Runner.Moves.{Files, System, MoveError, Moved, move_file}
use aiofiles.Runner.YtDlp.{Args, yt_dlp_args}
use aiofiles.Runner.YtDlp.Collect.{Entry, Reader, CollectError, in_dir, collect_download}

abbrev pub default_retention_days : ℤ
default_retention_days = pos 7

-- What a run is given of the job, and the directories of the settings.
pub record Request : Type 0 where
  pub id : Bytes
  pub params : List ℕ
  pub source : Bytes
  pub title : Bytes
  pub tmp_dir : Bytes
  pub download_dir : Bytes

-- What the system answers: whether the work directory is made, whether yt-dlp ends well and what it then leaves in
-- that directory, the names that are taken among the outputs, the tags that are drawn.
pub record Machine : Type 0 where
  pub decoder : Decoder DownloadParams
  pub net : Lookup
  pub work_dir_ok : Bool
  pub run_ok : Args → Bool
  pub entries : Option (List Entry)
  pub reader : Reader
  pub taken : Bytes → Bool
  pub draw : ℕ → Bytes
  pub moving : System

pub data RunFailure : Type 0 where
  refused : ValidationError → RunFailure
  no_work_dir failed : RunFailure
  uncollected : CollectError → RunFailure
  unmoved : MoveError → RunFailure

-- The path and the title, or the failure; and the files.
abbrev pub Ran : Type 0
Ran = Result RunFailure (Bytes × Bytes) × Files

-- `filepath.Join(r.cfg.TmpDir, "dl-"+sanitizeName(shortID(j.ID)))`
unfoldable pub job_dir : Request → Bytes
unfolding sanitize_name
job_dir q = in_dir q.tmp_dir (codes "dl-" ++ sanitize_name (short_id q.id))

unfoldable pub output_path : Machine → Request → Bytes → Bytes → Bytes
unfolding unique_output_name first_non_empty base_without_ext path_ext
output_path m q title produced =
    let base =
      first_non_empty (title ∷ base_without_ext produced ∷ q.title ∷ codes "download" ∷ []) in
    in_dir q.download_dir (unique_output_name m.taken m.draw base (path_ext produced) q.id)

-- The deferred `os.RemoveAll`, which is taken to succeed.
abbrev pub clear_dir : Bytes → Files → Files
clear_dir dir files path = if has_prefix path (dir ++ b'/' ∷ []) then none else files path

abbrev pub placed : Bytes → Bytes → Moved → Ran
placed dst title (ok _, files) = (ok (dst, title), files)
placed dst title (err e, files) = (err (unmoved e), files)

abbrev pub after_collect : Machine → Request → Result CollectError (Bytes × Bytes) → Files → Ran
after_collect m q (err e) files = (err (uncollected e), files)
after_collect m q (ok (title, produced)) files =
    let dst = output_path m q title produced in
    placed dst title (move_file m.moving produced dst files)

abbrev pub with_files : Files → (Files → Files) → Ran → Ran
with_files before change (r, files) = (r, change files)

-- From the work directory on; it is removed in any case. `files` are those that yt-dlp leaves.
unfoldable pub run_in_dir : Machine → Request → DownloadParams → Bytes → Files → Ran
unfolding output_path move_file collect_download yt_dlp_args
run_in_dir m q p url files =
    let dir = job_dir q in
    let (r, left) =
      if not (m.run_ok (yt_dlp_args p (in_dir dir (codes "%(title).80B-%(id)s.%(ext)s")) url))
      then (err failed, files)
      else after_collect m q (collect_download m.reader dir m.entries) files in
    (r, clear_dir dir left)

unfoldable pub checked : Machine → Request → Checked (DownloadParams × Bytes)
checked m q = do
  p ← parse_download m.decoder q.params default_retention_days
  url ← validate_source_url m.net q.source
  ok (p, url)

abbrev pub run_checked : Machine → Request → Checked (DownloadParams × Bytes) → Files → Ran
run_checked m q (err e) files = (err (refused e), files)
run_checked m q (ok (p, url)) files =
    if not m.work_dir_ok then (err no_work_dir, files) else run_in_dir m q p url files

unfoldable pub run : Machine → Request → Files → Ran
unfolding run_in_dir checked
run m q files = run_checked m q (checked m q) files
