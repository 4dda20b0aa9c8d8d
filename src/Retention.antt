-- ===== src/Retention.antt =====
-- internal/retention/retention.go, and the handler of internal/api/handlers_jobs.go that deletes one
-- job: what they do to the rows and to the files. The files on disk are their paths. `may` says which
-- paths the system lets the program unlink; unlinking a file that is not there changes nothing. Times are
-- Unix milliseconds.
pub mod Inputs
pub mod Deletion
pub mod Window
use aiofiles.Prelude.{
  ℕ, zero, suc, ◌+◌, ◌-◌, String, Bool, true, false, not, ◌&&◌, ◌||◌, Option, none, some, List, [],
  ◌∷◌, map, keep, any, ltb, leb, ◌==◌, if◌then◌else◌, Result, ok, err, str_eq,
}
use Prim.Native.String.{◌++◌ as ◌<>◌}
use aiofiles.Jobs.Types.{Job, Event, deleted}
use aiofiles.Jobs.Store.{
  Table, StoreError, not_found, base_name, get, delete, expired_jobs, input_paths,
  input_path_shared,
}
use aiofiles.Jobs.Bus.{Bus, publish}
use aiofiles.Jobs.Queue.{Queue, cancel}

unfoldable pub unlink : (String → Bool) → String → List String → List String
unlink may path [] = []
unlink may path (f ∷ files) =
    if str_eq f path && may path then unlink may path files else f ∷ unlink may path files

-- `Sweeper.remove`, and `server.removeFile` of the handlers, which is the same code.
unfoldable pub remove_file : (String → Bool) → String → List String → List String
unfolding unlink
remove_file may path files = if str_eq path "" then files else unlink may path files

abbrev pub deleted_event : String → Event
deleted_event id = record { kind = deleted; job_id = id; job = none; progress = none }

-- `reports` says whether the sweeper has a bus; `upload_grace` is 0 for a duration of 0 or less.
pub record Sweeper : Type 0 where
  pub reports : Bool
  pub upload_dir : String
  pub upload_grace : ℕ

pub record World : Type 0 where
  pub table : Table
  pub bus : Bus
  pub files : List String

pub record Tally : Type 0 where
  pub count : ℕ
  pub freed : ℕ

abbrev pub nothing : Tally
nothing = record { count = 0; freed = 0 }

-- `up` says of a job's id whether the statement that looks for other jobs is carried out.
unfoldable pub remove_input :
    (String → Bool) → (String → Bool) → Job → Table → List String → List String
remove_input may up j t files =
    if str_eq j.input_path ""
    then files
    else elim (input_path_shared (up j.id) j.input_path j.id t) [
      | err e ↦ files
      | ok true ↦ files
      | ok false ↦ remove_file may j.input_path files
    ]

-- The files of an expired job, before its row is deleted.
unfoldable pub remove_files :
    (String → Bool) → (String → Bool) → Job → Table → List String → List String
unfolding remove_file remove_input
remove_files may up j t files = remove_input may up j t (remove_file may j.output_path files)

-- One round of the loop over the expired jobs; `up_delete` says of an id whether the deletion is
-- carried out.
unfoldable pub sweep_job :
    Sweeper
    → (String → Bool)
    → (String → Bool)
    → (String → Bool)
    → Job
    → World × Tally
    → World × Tally
unfolding remove_files
sweep_job s may up_shared up_delete j (w, n) =
    let files = remove_files may up_shared j w.table w.files in
    elim (delete (up_delete j.id) j.id w.table) [
      | err e ↦ (record w { files = files }, n)
      | ok t ↦ (
        record {
          table = t;
          bus = if s.reports then publish (deleted_event j.id) w.bus else w.bus;
          files = files;
        },
        record { count = suc n.count; freed = n.freed + j.output_size },
      )
    ]

unfoldable pub sweep_jobs :
    Sweeper
    → (String → Bool)
    → (String → Bool)
    → (String → Bool)
    → List Job
    → World × Tally
    → World × Tally
unfolding sweep_job
sweep_jobs s may up_shared up_delete [] w = w
sweep_jobs s may up_shared up_delete (j ∷ l) w =
    sweep_jobs s may up_shared up_delete l (sweep_job s may up_shared up_delete j w)

-- An entry of the upload directory; `info` is its time of writing and its size, if they can be read.
pub record Entry : Type 0 where
  pub name : String
  pub regular : Bool
  pub info : Option (ℕ × ℕ)

-- `time.Now().Add(-grace)` before the time 0 is no time a file can have.
abbrev pub too_young : ℕ → ℕ → ℕ → Bool
too_young now grace written = ltb now (written + grace)

abbrev pub is_named : List String → String → Bool
is_named referenced name = any (λ p. str_eq (base_name p) name) referenced

abbrev pub upload_path : String → String → String
upload_path dir name = dir <> ("/" <> name)

-- A removal that is refused is not counted.
abbrev pub remove_upload : (String → Bool) → String → ℕ → List String × Tally → List String × Tally
remove_upload may path size (files, n) =
    if may path
    then (unlink may path files, record { count = suc n.count; freed = n.freed + size })
    else (files, n)

unfoldable pub sweep_entry :
    (String → Bool)
    → ℕ
    → ℕ
    → String
    → List String
    → Entry
    → List String × Tally
    → List String × Tally
unfolding unlink
sweep_entry may now grace dir referenced e (files, n) =
    if not e.regular then (files, n) else elim e.info [
      | none ↦ (files, n)
      | some (written, size) ↦
          if too_young now grace written
            || is_named referenced e.name
            || any (λ p. str_eq p (upload_path dir e.name)) referenced
          then (files, n)
          else remove_upload may (upload_path dir e.name) size (files, n)
    ]

unfoldable pub sweep_entries :
    (String → Bool)
    → ℕ
    → ℕ
    → String
    → List String
    → List Entry
    → List String × Tally
    → List String × Tally
unfolding sweep_entry
sweep_entries may now grace dir referenced [] f = f
sweep_entries may now grace dir referenced (e ∷ l) f =
    sweep_entries may now grace dir referenced l (sweep_entry may now grace dir referenced e f)

-- `entries` is what reading the directory gives, `dir` the directory with its symbolic links resolved.
unfoldable pub sweep_uploads :
    Sweeper → (String → Bool) → Bool → ℕ → String → Option (List Entry) → World → World × Tally
unfolding sweep_entries
sweep_uploads s may up now dir entries w =
    if str_eq s.upload_dir "" || leb s.upload_grace 0 then (w, nothing) else elim entries [
      | none ↦ (w, nothing)
      | some l ↦ elim (input_paths up w.table) [
        | err e ↦ (w, nothing)
        | ok referenced ↦
            let (files, n) =
              sweep_entries may now s.upload_grace dir referenced l (w.files, nothing) in
            (record w { files = files }, n)
      ]
    ]

-- What one sweep meets: which statements are carried out, and what the directory holds.
pub record Luck : Type 0 where
  pub may : String → Bool
  pub up_expired : Bool
  pub up_shared : String → Bool
  pub up_delete : String → Bool
  pub up_paths : Bool
  pub dir : String
  pub entries : Option (List Entry)

-- The number of rows that went away.
unfoldable pub sweep_once : Sweeper → Luck → ℕ → World → World × Result StoreError ℕ
unfolding sweep_jobs sweep_uploads
sweep_once s k now w = elim (expired_jobs k.up_expired now w.table) [
  | err e ↦ (w, err e)
  | ok l ↦
      let (w', n) = sweep_jobs s k.may k.up_shared k.up_delete l (w, nothing) in
      ((sweep_uploads s k.may k.up_paths now k.dir k.entries w').0, ok n.count)
]

pub data DeleteReply : Type 0 where
  accepted missing internal_error : DeleteReply

-- `handleDeleteJob` once the job is loaded: the queue, the files and the reply.
unfoldable pub delete_job :
    (String → Bool) → Bool → Job → Queue × List String → (Queue × List String) × DeleteReply
unfolding remove_file
delete_job may up j (q, files) =
    let (q', _) = cancel j.id q in
    let files' = remove_file may j.input_path (remove_file may j.output_path files) in
    elim (delete up j.id q'.table) [
      | err not_found ↦ ((q', files'), missing)
      | err _ ↦ ((q', files'), internal_error)
      | ok t ↦
          ((record q' { table = t; bus = publish (deleted_event j.id) q'.bus }, files'), accepted)
    ]

unfoldable pub handle_delete :
    (String → Bool)
    → Bool
    → Bool
    → String
    → Queue × List String
    → (Queue × List String) × DeleteReply
unfolding delete_job
handle_delete may up_get up_delete id (q, files) = elim (get up_get id q.table) [
  | err not_found ↦ ((q, files), missing)
  | err _ ↦ ((q, files), internal_error)
  | ok j ↦ delete_job may up_delete j (q, files)
]
