-- ===== src/Retention/Deletion.antt =====
-- What the deletion of a single job does.
use aiofiles.Prelude.{
  String, Bool, true, false, ◌≡◌, ◌≢◌, refl, ap, ◌∙◌, ◌⊎◌, inl, inr, none, some, List, [], ◌∷◌, All,
  str_eq, str_dec, arith, ite, Bool-cases, Option-cases,
}
use aiofiles.Jobs.Types.{Job}
use aiofiles.Jobs.Store.{delete, find_row, remove_row, get, scan_job}
use aiofiles.Jobs.Store.Laws.{find_row_id, find_row-remove_row}
use aiofiles.Jobs.Queue.{
  Queue, Context, Execution, live, stopped, timed_out, end_context, with_context, update_execution,
  find_execution, cancel, end_job,
}
use aiofiles.Jobs.Bus.{publish}
use aiofiles.Retention.{
  deleted_event, unlink, remove_file, handle_delete, delete_job, DeleteReply, accepted,
}
use aiofiles.Retention.Inputs.{on_disk}

unlink-gone :
    (may : String → Bool) (path : String) (files : List String)
    → may path ≡ true
    → on_disk path (unlink may path files) ≡ false
unfolding unlink
unlink-gone may path [] h = refl
unlink-gone may path (f ∷ files) h = ground (arith, unlink-gone may path files h)

unlink-absent :
    (may : String → Bool) (path p : String) (files : List String)
    → on_disk p files ≡ false
    → on_disk p (unlink may path files) ≡ false
unfolding unlink
unlink-absent may path p [] h = refl
unlink-absent may path p (f ∷ files) h = ground (arith, unlink-absent may path p files)

remove_file-gone :
    (may : String → Bool) (path : String) (files : List String)
    → may path ≡ true
    → str_eq path "" ≡ false
    → on_disk path (remove_file may path files) ≡ false
unfolding remove_file
remove_file-gone may path files h full = ground (arith, unlink-gone may path files h)

remove_file-absent :
    (may : String → Bool) (path p : String) (files : List String)
    → on_disk p files ≡ false
    → on_disk p (remove_file may path files) ≡ false
unfolding remove_file
remove_file-absent may path p files h = ground (arith, unlink-absent may path p files h)

cancel-table : (id : String) (q : Queue) → (cancel id q).0.table ≡ q.table
unfolding cancel end_job
cancel-table id q = ground arith

-- The queue and the files after an accepted deletion.
abbrev after_deletion :
    (String → Bool) → Job → Queue × List String → (Queue × List String) × DeleteReply
after_deletion may j (q, files) = (
  (
    record (cancel j.id q).0 {
      table = remove_row j.id (cancel j.id q).0.table;
      bus = publish (deleted_event j.id) (cancel j.id q).0.bus;
    },
    remove_file may j.input_path (remove_file may j.output_path files),
  ),
  accepted,
)

delete_job_lem :
    (may : String → Bool) (q : Queue) (files : List String) (j i : Job)
    → find_row j.id q.table ≡ some i
    → delete_job may true j (q, files) ≡ after_deletion may j (q, files)
unfolding delete_job delete
delete_job_lem may q files j i e =
    rw (ap (find_row j.id) (cancel-table j.id q) ∙ e, delete_job) refl

handle_delete_lem :
    (may : String → Bool) (id : String) (q : Queue) (files : List String) {j : Job}
    → find_row id q.table ≡ some j
    → handle_delete may true true id (q, files) ≡ after_deletion may (scan_job j) (q, files)
unfolding handle_delete get
handle_delete_lem may id q files {j} e =
    let there = ap (λ k. find_row k q.table) (find_row_id id q.table j e) ∙ e in
    rw (e, handle_delete) (delete_job_lem may q files (scan_job j) j there)

-- A path that is empty, or that is not on disk.
abbrev pub IsUnlinked : String → List String → Type 0
IsUnlinked path files = (str_eq path "" ≡ true) ⊎ (on_disk path files ≡ false)

remove_file-IsUnlinked :
    (may : String → Bool) (path : String) (files : List String)
    → may path ≡ true
    → IsUnlinked path (remove_file may path files)
remove_file-IsUnlinked may path files h = elim (Bool-cases (str_eq path "")) [
  | inl e ↦ inl e
  | inr e ↦ inr (remove_file-gone may path files h e)
]

also-IsUnlinked :
    (may : String → Bool) (path p : String) (files : List String)
    → IsUnlinked p files
    → IsUnlinked p (remove_file may path files)
also-IsUnlinked may path p files (inl e) = inl e
also-IsUnlinked may path p files (inr e) = inr (remove_file-absent may path p files e)

-- No run of the job has a context that still lives.
abbrev pub IsStopped : String → List Execution → Type 0
IsStopped id l = All (λ (x : Execution). (x.id ≢ id) ⊎ (x.context ≢ live)) l

end_context-ended : (c : Context) → end_context stopped c ≢ live
end_context-ended live e = absurd cc
end_context-ended stopped e = absurd cc
end_context-ended timed_out e = absurd cc

update_execution-IsStopped :
    (id : String) (l : List Execution) → IsStopped id (update_execution id (with_context stopped) l)
unfolding update_execution
update_execution-IsStopped id [] = tt
update_execution-IsStopped id (x ∷ l) =
    (head_stopped (str_dec x.id id), update_execution-IsStopped id l)
  where
    head_stopped :
        (d : Dec (x.id ≡ id))
        → ((ite d (with_context stopped x) x).id ≢ id)
          ⊎ ((ite d (with_context stopped x) x).context ≢ live)
    head_stopped (yes e) = inr (end_context-ended x.context)
    head_stopped (no n) = inl n

absent-IsStopped : (id : String) (l : List Execution) → find_execution id l ≡ none → IsStopped id l
unfolding find_execution
absent-IsStopped id [] h = tt
absent-IsStopped id (x ∷ l) h = elim (str_dec x.id id) [
  | yes e ↦ absurd (ground (arith, h))
  | no n ↦ (inl n, absent-IsStopped id l (ground (arith, h)))
]

cancel-IsStopped : (id : String) (q : Queue) → IsStopped id (cancel id q).0.executions
unfolding cancel end_job
cancel-IsStopped id q = elim (Option-cases (find_execution id q.executions)) [
  | inl e ↦ rw (e, cancel) (absent-IsStopped id q.executions e)
  | inr (x, e) ↦ rw (e, cancel) (update_execution-IsStopped id q.executions)
]

-- The deletion of a job that the table holds is accepted if the database and the system do what they are asked: the
-- row is gone and every other row is as before, no run of the job goes on, and neither its output nor its input, where
-- it has one, is on disk. The input is unlinked whether or not another row refers to it.
pub handle_delete-unlinks :
    (may : String → Bool) (id : String) (q : Queue) (files : List String) {j : Job}
    → find_row id q.table ≡ some j
    → may j.input_path ≡ true
    → may j.output_path ≡ true
    → let r = handle_delete may true true id (q, files) in
      (r.1 ≡ accepted)
      × (find_row id r.0.0.table ≡ none)
      × ((k : String) → ¬ (id ≡ k) → find_row k r.0.0.table ≡ find_row k q.table)
      × IsStopped id r.0.0.executions
      × IsUnlinked j.input_path r.0.1
      × IsUnlinked j.output_path r.0.1
handle_delete-unlinks may id q files {j} e mi mo =
    let same : j.id ≡ id = find_row_id id q.table j e in
    let t = cancel-table j.id q in
    rw (handle_delete_lem may id q files e) (
      refl,
      rw (t, same) (ground (arith, find_row-remove_row id id q.table)),
      λ k apart. rw (t, same) (ground (arith, find_row-remove_row id k q.table)),
      rw same (cancel-IsStopped id q),
      remove_file-IsUnlinked may j.input_path (remove_file may j.output_path files) mi,
      also-IsUnlinked may j.input_path j.output_path (remove_file may j.output_path files)
          (remove_file-IsUnlinked may j.output_path files mo),
    )
