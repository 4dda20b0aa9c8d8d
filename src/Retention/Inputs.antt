-- ===== src/Retention/Inputs.antt =====
-- Which uploads a sweep leaves on disk, and which the deletion of a single job does not.
use aiofiles.Prelude.{
  ℕ, String, Bool, true, false, not, ◌&&◌, ◌≡◌, refl, ap, sym, ◌∙◌, inl, inr, Option, none, some,
  List, [], ◌∷◌, map, keep, any, ok, str_eq, str_eq_iff, arith, Option-cases, Bool-cases,
}
use aiofiles.Jobs.Types.{Job}
use aiofiles.Jobs.Store.{
  Table, delete, find_row, remove_row, input_paths, input_path_shared, expired_jobs,
}
use aiofiles.Retention.{
  Sweeper, World, Tally, nothing, Entry, Luck, unlink, remove_file, remove_input, remove_files,
  sweep_job, sweep_jobs, sweep_entry, sweep_entries, sweep_uploads, sweep_once, upload_path,
}

abbrev pub on_disk : String → List String → Bool
on_disk p files = any (λ f. str_eq f p) files

abbrev pub is_input : String → Table → Bool
is_input p t = any (λ (j : Job). str_eq j.input_path p) t

unlink-other :
    (may : String → Bool) (path p : String) (files : List String)
    → str_eq path p ≡ false
    → on_disk p files ≡ true
    → on_disk p (unlink may path files) ≡ true
unfolding unlink
unlink-other may path p [] apart h = h
unlink-other may path p (f ∷ files) apart h =
    ground
      (arith, unlink-other may path p files, str_eq_iff f path, str_eq_iff f p, str_eq_iff path p)

remove_file-other :
    (may : String → Bool) (path p : String) (files : List String)
    → str_eq path p ≡ false
    → on_disk p files ≡ true
    → on_disk p (remove_file may path files) ≡ true
unfolding remove_file
remove_file-other may path p files apart h = ground (arith, unlink-other may path p files)

-- A row is another's input after the deletion of one exactly if it was that of a row with another id.
is_input-remove_row :
    (p id : String) (t : Table)
    → is_input p (remove_row id t)
      ≡ any (λ (j : Job). str_eq j.input_path p && not (str_eq j.id id)) t
unfolding remove_row
is_input-remove_row p id [] = refl
is_input-remove_row p id (j ∷ t) = ground (arith, is_input-remove_row p id t, str_eq_iff j.id id)

remove_row-absent : (id : String) (t : Table) → find_row id t ≡ none → remove_row id t ≡ t
unfolding remove_row find_row
remove_row-absent id [] h = refl
remove_row-absent id (j ∷ t) h = ground (arith, remove_row-absent id t)

is_input-delete :
    (p id : String) (t : Table) → is_input p (remove_row id t) ≡ true → is_input p t ≡ true
unfolding remove_row
is_input-delete p id [] h = h
is_input-delete p id (j ∷ t) h = ground (arith, is_input-delete p id t)

remove_input-shared :
    (may up : String → Bool) (p : String) (j : Job) (t : Table) (files : List String)
    → is_input p (remove_row j.id t) ≡ true
    → on_disk p files ≡ true
    → on_disk p (remove_input may up j t files) ≡ true
unfolding remove_input input_path_shared
remove_input-shared may up p j t files h d = elim (Bool-cases (str_eq j.input_path p)) [
  | inl e ↦
      let same = (str_eq_iff j.input_path p).0 e in
      let shared = sym (is_input-remove_row p j.id t) ∙ h in rw same (ground (arith, shared))
  | inr e ↦ ground (arith, remove_file-other may j.input_path p files e)
]

remove_files-shared :
    (may up : String → Bool) (p : String) (j : Job) (t : Table) (files : List String)
    → str_eq j.output_path p ≡ false
    → is_input p (remove_row j.id t) ≡ true
    → on_disk p files ≡ true
    → on_disk p (remove_files may up j t files) ≡ true
unfolding remove_files
remove_files-shared may up p j t files o h d =
    remove_input-shared may up p j t (remove_file may j.output_path files) h
      (remove_file-other may j.output_path p files o d)

-- Every statement of the loop is carried out.
abbrev pub carried : String → Bool
carried id = true

pub sweep_job-table :
    (s : Sweeper) (may up : String → Bool) (j : Job) (w : World) (n : Tally)
    → (sweep_job s may up carried j (w, n)).0.table ≡ remove_row j.id w.table
unfolding sweep_job delete
sweep_job-table s may up j w n = elim (Option-cases (find_row j.id w.table)) [
  | inl e ↦ rw (e, sweep_job) (sym (remove_row-absent j.id w.table e))
  | inr (i, e) ↦ rw (e, sweep_job) refl
]

sweep_job-files :
    (s : Sweeper) (may up : String → Bool) (j : Job) (w : World) (n : Tally)
    → (sweep_job s may up carried j (w, n)).0.files ≡ remove_files may up j w.table w.files
unfolding sweep_job delete
sweep_job-files s may up j w n = elim (Option-cases (find_row j.id w.table)) [
  | inl e ↦ rw (e, sweep_job) refl
  | inr (i, e) ↦ rw (e, sweep_job) refl
]

sweep_jobs-inputs :
    (s : Sweeper) (may up : String → Bool) (l : List Job) (p : String) (w : World × Tally)
    → is_input p (sweep_jobs s may up carried l w).0.table ≡ true
    → is_input p w.0.table ≡ true
unfolding sweep_jobs
sweep_jobs-inputs s may up [] p w h = h
sweep_jobs-inputs s may up (j ∷ l) p (w, n) h = is_input-delete p j.id w.table (
    sym (ap (is_input p) (sweep_job-table s may up j w n))
    ∙ sweep_jobs-inputs s may up l p (sweep_job s may up carried j (w, n)) h)

sweep_jobs-kept :
    (s : Sweeper) (may up : String → Bool) (l : List Job) (p : String) (w : World × Tally)
    → any (λ (j : Job). str_eq j.output_path p) l ≡ false
    → is_input p (sweep_jobs s may up carried l w).0.table ≡ true
    → on_disk p w.0.files ≡ true
    → on_disk p (sweep_jobs s may up carried l w).0.files ≡ true
unfolding sweep_jobs
sweep_jobs-kept s may up [] p w o h d = d
sweep_jobs-kept s may up (j ∷ l) p (w, n) o h d =
    sweep_jobs-kept s may up l p (sweep_job s may up carried j (w, n)) (ground (arith, o)) h (
      ap (on_disk p) (sweep_job-files s may up j w n)
      ∙ remove_files-shared may up p j w.table w.files (ground (arith, o))
          (sym (ap (is_input p) (sweep_job-table s may up j w n))
            ∙ sweep_jobs-inputs s may up l p (sweep_job s may up carried j (w, n)) h)
          d)

sweep_entry-kept :
    (may : String → Bool) (now grace : ℕ) (dir p : String) (referenced : List String) (e : Entry)
    (f : List String × Tally)
    → any (λ q. str_eq q p) referenced ≡ true
    → on_disk p f.0 ≡ true
    → on_disk p (sweep_entry may now grace dir referenced e f).0 ≡ true
unfolding sweep_entry
sweep_entry-kept may now grace dir p referenced e (files, n) h d =
    elim (Bool-cases (str_eq (upload_path dir e.name) p)) [
      | inl same ↦
          let known =
            ap (λ x. any (λ q. str_eq q x) referenced)
              ((str_eq_iff (upload_path dir e.name) p).0 same)
            ∙ h in
          ground (arith, known)
      | inr apart ↦ ground (arith, unlink-other may (upload_path dir e.name) p files apart)
    ]

sweep_entries-kept :
    (may : String → Bool) (now grace : ℕ) (dir p : String) (referenced : List String)
    (l : List Entry) (f : List String × Tally)
    → any (λ q. str_eq q p) referenced ≡ true
    → on_disk p f.0 ≡ true
    → on_disk p (sweep_entries may now grace dir referenced l f).0 ≡ true
unfolding sweep_entries
sweep_entries-kept may now grace dir p referenced [] f h d = d
sweep_entries-kept may now grace dir p referenced (e ∷ l) f h d =
    sweep_entries-kept may now grace dir p referenced l
      (sweep_entry may now grace dir referenced e f) h
      (sweep_entry-kept may now grace dir p referenced e f h d)

listed :
    (p : String) (t : Table)
    → str_eq p "" ≡ false
    → is_input p t ≡ true
    → any
        (λ q. str_eq q p)
        (map (λ (j : Job). j.input_path) (keep (λ (j : Job). not (str_eq j.input_path "")) t))
      ≡ true
listed p [] full h = h
listed p (j ∷ t) full h =
    ground (
      arith,
      listed p t full,
      str_eq_iff j.input_path "",
      str_eq_iff j.input_path p,
      str_eq_iff p "",
    )

sweep_uploads-kept :
    (s : Sweeper) (may : String → Bool) (up : Bool) (now : ℕ) (dir p : String)
    (entries : Option (List Entry)) (w : World)
    → str_eq p "" ≡ false
    → is_input p w.table ≡ true
    → on_disk p w.files ≡ true
    → on_disk p (sweep_uploads s may up now dir entries w).0.files ≡ true
unfolding sweep_uploads input_paths
sweep_uploads-kept s may up now dir p none w full h d = ground arith
sweep_uploads-kept s may false now dir p (some l) w full h d = ground arith
sweep_uploads-kept s may true now dir p (some l) w full h d = ground (
  arith,
  sweep_entries-kept may now s.upload_grace dir p
      (map (λ (j : Job). j.input_path) (keep (λ (j : Job). not (str_eq j.input_path "")) w.table)) l
      (w.files, nothing) (listed p w.table full h) d,
)

pub sweep_uploads-table :
    (s : Sweeper) (may : String → Bool) (up : Bool) (now : ℕ) (dir : String)
    (entries : Option (List Entry)) (w : World)
    → (sweep_uploads s may up now dir entries w).0.table ≡ w.table
unfolding sweep_uploads
sweep_uploads-table s may up now dir none w = ground arith
sweep_uploads-table s may up now dir (some l) w = ground arith

-- The two passes of a sweep.
pub sweep_once-world :
    (s : Sweeper) (k : Luck) (now : ℕ) (w : World) (expired : List Job)
    → k.up_delete ≡ carried
    → expired_jobs k.up_expired now w.table ≡ ok expired
    → (sweep_once s k now w).0
      ≡ (sweep_uploads s k.may k.up_paths now k.dir k.entries
          (sweep_jobs s k.may k.up_shared carried expired (w, nothing)).0).0
unfolding sweep_once
sweep_once-world s k now w expired up e =
    rw (e, sweep_once)
      (ap
        (λ d.
          (sweep_uploads s k.may k.up_paths now k.dir k.entries
            (sweep_jobs s k.may k.up_shared d expired (w, nothing)).0).0)
        up)

-- A sweep leaves a job's upload on disk as long as a row refers to it: a path that is the input of some
-- row after the sweep, and that was on disk before it, is on disk after it. The deletions of rows are
-- carried out, the path is not also the output of an expired job; the other statements may fail.
pub sweep_once-kept :
    (s : Sweeper) (k : Luck) (now : ℕ) (p : String) (w : World) (expired : List Job)
    → k.up_delete ≡ carried
    → expired_jobs k.up_expired now w.table ≡ ok expired
    → any (λ (j : Job). str_eq j.output_path p) expired ≡ false
    → str_eq p "" ≡ false
    → is_input p (sweep_once s k now w).0.table ≡ true
    → on_disk p w.files ≡ true
    → on_disk p (sweep_once s k now w).0.files ≡ true
sweep_once-kept s k now p w expired up e o full h d =
    let w' = (sweep_jobs s k.may k.up_shared carried expired (w, nothing)).0 in
    let same = sweep_once-world s k now w expired up e in
    let after = sweep_uploads-table s k.may k.up_paths now k.dir k.entries w' in
    let still = sym (ap (is_input p) (ap (λ (v : World). v.table) same ∙ after)) ∙ h in
    rw same (
      sweep_uploads-kept s k.may k.up_paths now k.dir p k.entries w' full still
        (sweep_jobs-kept s k.may k.up_shared expired p (w, nothing) o still d))
