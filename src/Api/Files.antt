-- ===== src/Api/Files.antt =====
-- internal/api/handlers_files.go: the files that a new job may start from, and their reuse.
pub mod Once
use aiofiles.Prelude.{
  ℕ, String, Bool, true, false, not, List, [], ◌∷◌, ◌++◌, map, any, if◌then◌else◌, codes, str_eq,
  Option, none, some, Result, ok, err, ◌>>=◌,
}
use aiofiles.Prelude.Bytes.{Bytes}
use aiofiles.Prelude.Paths.{path_base}
use aiofiles.Jobs.Types.{Job, Status, unset, done, status_eq}
use aiofiles.Jobs.Store as Store
use aiofiles.Jobs.Store.{Table}
use aiofiles.Uploads.{original_name}
use aiofiles.Api.Replies.{Reply, refuse, lookup}

pub record ReusableFile : Type 0 where
  pub job_id : String
  pub source : String
  pub name : String
  pub size : ℕ
  pub created_at : ℕ

-- What the system has at a path: the size of a regular file. `text` turns code points into a text.
pub record Shelf : Type 0 where
  pub stat : String → Option ℕ
  pub text : List ℕ → String

unfoldable pub file_path : Job → String → String
file_path j source =
    if str_eq source "output"
    then j.output_path
    else if str_eq source "input"
    then j.input_path
    else ""

-- The name of an output is that of the job, if it has one.
unfoldable pub shown_name : Shelf → Job → String → String
unfolding original_name path_base file_path
shown_name s j source =
    if str_eq source "output"
    then if str_eq j.output_name ""
      then s.text (original_name (path_base (codes (file_path j source))))
      else j.output_name
    else s.text (original_name (path_base (codes (file_path j source))))

unfoldable pub describe_file : Shelf → Job → String → Option ReusableFile
unfolding file_path shown_name
describe_file s j source =
    if str_eq (file_path j source) "" then none else elim (s.stat (file_path j source)) [
      | none ↦ none
      | some size ↦ some (record {
        job_id = j.id;
        source = source;
        name = shown_name s j source;
        size = size;
        created_at = j.created_at;
      })
    ]

-- The paths that were seen, and the files that are listed.
abbrev pub Listing : Type 0
Listing = List String × List ReusableFile

abbrev pub is_seen : String → List String → Bool
is_seen path seen = any (λ p. str_eq p path) seen

abbrev pub note_file : String → Option ReusableFile → Listing → Listing
note_file path none l = l
note_file path (some f) (seen, out) =
    if is_seen path seen then (seen, out) else (path ∷ seen, out ++ f ∷ [])

-- The body of the loop: the output of a job that is done, then the input of any job.
unfoldable pub list_job : Shelf → Listing → Job → Listing
unfolding describe_file file_path
list_job s l j =
    let l' =
      if status_eq j.status done
      then note_file j.output_path (describe_file s j "output") l
      else l in
    note_file j.input_path (describe_file s j "input") l'

unfoldable pub list_from : Shelf → Listing → List Job → Listing
unfolding list_job
list_from s l [] = l
list_from s l (j ∷ js) = list_from s (list_job s l j) js

abbrev pub listed_files : Shelf → Result Store.StoreError (List Job) → Reply (List ReusableFile)
unfolding list_from
listed_files s (err e) = refuse 500 "internal_error"
listed_files s (ok js) = ok (list_from s ([], []) js).1

unfoldable pub handle_list_files : Shelf → Bool → Table → Reply (List ReusableFile)
unfolding listed_files Store.list
handle_list_files s up t = listed_files s (Store.list up unset 0 t)

-- The answer of a reuse: the id of the new upload, its name and size.
pub record Reused : Type 0 where
  pub upload_id : String
  pub filename : String
  pub size : ℕ

abbrev pub described : Option ReusableFile → Reply ReusableFile
described none = refuse 404 "file_missing"
described (some f) = ok f

abbrev pub linked : ReusableFile → Option (String × ℕ) → Reply Reused
linked f none = refuse 500 "upload_failed"
linked f (some (stored, size)) = ok (record { upload_id = stored; filename = f.name; size = size })

-- `link` is `linkUpload` on a path and a name: the id and the size, if it succeeds.
unfoldable pub handle_reuse_file :
    (String → String → Option (String × ℕ)) → Shelf → Bool → String → String → Table → Reply Reused
unfolding describe_file file_path lookup
handle_reuse_file link s up id source t = do
  j ← lookup up id t
  f ← described (describe_file s j source)
  linked f (link (file_path j source) f.name)
