-- ===== src/Runner/Moves.antt =====
-- internal/runner/exec.go: how a finished file gets to its place. A store of files gives the content at a path, if
-- there is a file; a record tells what the system answers.
pub mod Outcome
pub mod Removed
use aiofiles.Prelude.{
  ℕ, Bool, true, false, not, ◌&&◌, List, [], ◌∷◌, if◌then◌else◌, take, Option, none, some, Result,
  ok, err,
}
use aiofiles.Prelude.Bytes.{Bytes, same_codes}
use aiofiles.Runner.Texts.{is_empty}

abbrev pub Files : Type 0
Files = Bytes → Option Bytes

abbrev pub put_at : Bytes → Option Bytes → Files → Files
put_at path content files at = if same_codes at path then content else files at

pub data Renamed : Type 0 where
  renamed cross_device refused : Renamed

-- `copied` is how much of the file `io.Copy` writes if it fails.
pub record System : Type 0 where
  pub mkdir_ok : Bool
  pub rename : Renamed
  pub open_ok : Bool
  pub create_ok : Bool
  pub copied : Option ℕ
  pub sync_ok : Bool
  pub close_ok : Bool
  pub unlink_dst_ok : Bool
  pub unlink_src_ok : Bool

pub data MoveError : Type 0 where
  no_dir no_rename no_source no_target no_copy no_sync no_close : MoveError

abbrev pub Moved : Type 0
Moved = Result MoveError (Unit {0}) × Files

abbrev pub unlink : Bool → Bytes → Files → Files
unlink up path files = if up then put_at path none files else files

-- `os.Remove(dst)` and the error.
abbrev pub give_up : System → Bytes → MoveError → Files → Moved
give_up sys dst e files = (err e, unlink sys.unlink_dst_ok dst files)

-- What follows the copy: the file is written, so it is flushed and closed, and the source goes.
abbrev pub settle_copy : System → Bytes → Bytes → Files → Moved
settle_copy sys src dst files =
    if not sys.sync_ok
    then give_up sys dst no_sync files
    else if not sys.close_ok
    then give_up sys dst no_close files
    else (ok tt, unlink sys.unlink_src_ok src files)

abbrev pub copy_to : System → Bytes → Bytes → Bytes → Option ℕ → Files → Moved
copy_to sys src dst content (some n) files =
    give_up sys dst no_copy (put_at dst (some (take n content)) files)
copy_to sys src dst content none files = settle_copy sys src dst (put_at dst (some content) files)

-- A source that is not there cannot be opened.
abbrev pub copy_opened : System → Bytes → Bytes → Option Bytes → Files → Moved
copy_opened sys src dst none files = (err no_source, files)
copy_opened sys src dst (some content) files =
    if not sys.open_ok
    then (err no_source, files)
    else if not sys.create_ok
    then (err no_target, files)
    else copy_to sys src dst content sys.copied (put_at dst (some []) files)

unfoldable pub copy_remove : System → Bytes → Bytes → Files → Moved
copy_remove sys src dst files = copy_opened sys src dst (files src) files

abbrev pub rename_to : Bytes → Bytes → Option Bytes → Files → Moved
rename_to src dst none files = (err no_rename, files)
rename_to src dst (some content) files = (ok tt, put_at dst (some content) (put_at src none files))

abbrev pub rename_as : Renamed → System → Bytes → Bytes → Files → Moved
rename_as renamed sys src dst files = rename_to src dst (files src) files
rename_as cross_device sys src dst files = copy_remove sys src dst files
rename_as refused sys src dst files = (err no_rename, files)

unfoldable pub move_file : System → Bytes → Bytes → Files → Moved
unfolding copy_remove
move_file sys src dst files =
    if not sys.mkdir_ok then (err no_dir, files) else rename_as sys.rename sys src dst files

-- `os.Stat` finds a file that is not empty.
abbrev pub has_content : Option Bytes → Bool
has_content none = false
has_content (some content) = not (is_empty content)

abbrev pub put_file : Bytes → Bytes → Files → Files
put_file path content files at = if same_codes at path then some content else files at

abbrev pub remove_file : Bytes → Files → Files
remove_file path files at = if same_codes at path then none else files at

abbrev pub remove_all : List Bytes → Files → Files
remove_all [] files = files
remove_all (p ∷ ps) files = remove_file p (remove_all ps files)
