-- ===== src/Jobs/Store/Laws.antt =====
-- What a read of the jobs table sees after each of its writes.
use aiofiles.Prelude.{
  ℕ, String, Bool, true, false, not, ◌&&◌, ◌≡◌, refl, ◌≢◌, inl, inr, none, some, [], ◌∷◌, ◌++◌, map,
  ite, if◌then◌else◌, any, keep, ok, err, arith, str_eq, str_eq_iff, str_dec, Option-cases, length,
}
use mathlib.Core.Option
use aiofiles.Jobs.Types.{Job, Status, status_eq, running}
use aiofiles.Jobs.Store.{
  Table, not_found, duplicate_id, scan_job, find_row, update_row, remove_row, insert_row, create,
  prepared, get, with_status, set_status, delete, interrupt, fail_interrupted, input_path_shared,
}

-- An update keeps the id.
abbrev pub KeepsId : (Job → Job) → Type 0
KeepsId f = (j : Job) → (f j).id ≡ j.id

pub find_row-update_row :
    (id k : String) (f : Job → Job) (t : Table)
    → KeepsId f
    → find_row k (update_row id f t)
      ≡ ite (str_dec id k) (Option.map f (find_row k t)) (find_row k t)
unfolding find_row update_row
find_row-update_row id k f [] h = ground arith
find_row-update_row id k f (j ∷ t) h = ground (arith, h j, find_row-update_row id k f t h)

pub find_row-append :
    (k : String) (t u : Table)
    → find_row k (t ++ u) ≡ elim (find_row k t) [ some j ↦ some j | none ↦ find_row k u ]
unfolding find_row
find_row-append k [] u = refl
find_row-append k (j ∷ t) u = ground (arith, find_row-append k t u)

pub find_row-remove_row :
    (id k : String) (t : Table)
    → find_row k (remove_row id t) ≡ ite (str_dec id k) none (find_row k t)
unfolding find_row remove_row
find_row-remove_row id k [] = ground arith
find_row-remove_row id k (j ∷ t) = ground (arith, find_row-remove_row id k t)

pub find_row_id : (k : String) (t : Table) (j : Job) → find_row k t ≡ some j → j.id ≡ k
unfolding find_row
find_row_id k [] j h = cc
find_row_id k (i ∷ t) j h = ground (arith, find_row_id k t j)

insert_row-eq-ok :
    (j : Job) (t : Table) {t' : Table}
    → insert_row j t ≡ ok t'
    → (find_row j.id t ≡ none) × (t' ≡ t ++ j ∷ [])
unfolding insert_row
insert_row-eq-ok j t h = ground arith

-- `create` adds the row with its defaults filled in: `get` finds it under its id, under which there
-- was none, and sees every other row as before.
pub get-create :
    (up : Bool) (now : ℕ) (fresh : String) (j : Job) (t : Table) {j' : Job} {t' : Table}
    (k : String)
    → create up now fresh j t ≡ ok (j', t')
    → (j' ≡ prepared now fresh j)
      × (get true j'.id t ≡ err not_found)
      × (get true k t' ≡ ite (str_dec j'.id k) (ok (scan_job j')) (get true k t))
unfolding create insert_row get find_row
get-create up now fresh j t k h = ground (arith, find_row-append k t (prepared now fresh j ∷ []))

-- A second row under an id that is in the table is refused.
pub create_duplicate :
    (now : ℕ) (fresh : String) (j i : Job) (t : Table)
    → get true (prepared now fresh j).id t ≡ ok i
    → create true now fresh j t ≡ err duplicate_id
unfolding create insert_row get
create_duplicate now fresh j i t h = ground arith

-- A deletion that succeeds had a row to delete, after it `get` finds none under that id, and every
-- other row is as before.
pub get-delete :
    (up : Bool) (id k : String) (t : Table) {t' : Table}
    → delete up id t ≡ ok t'
    → (get true id t ≢ err not_found)
      × (get true k t' ≡ ite (str_dec id k) (err not_found) (get true k t))
unfolding delete get
get-delete up id k t h = ground (arith, find_row-remove_row id k t)

-- A status change is seen under its id alone: `get` returns the row with the status and the error
-- text written, the start time set by `running` and the finish time by a terminal status, each kept
-- by every other status; without the database nothing changes.
pub get-set_status :
    (up : Bool) (now : ℕ) (id k : String) (st : Status) (text : String) (t : Table)
    → get true k (set_status up now id st text t) ≡ elim (get true k t) [
      | ok j ↦ ok (ite (str_dec id k) (if up then with_status now st text j else j) j)
      | err e ↦ err e
    ]
unfolding get set_status
get-set_status up now id k st text t =
    ground (arith, find_row-update_row id k (with_status now st text) t (λ j. refl))

find_row-interrupt :
    (now : ℕ) (k : String) (t : Table)
    → find_row k (map (interrupt now) t) ≡ Option.map (interrupt now) (find_row k t)
unfolding find_row
find_row-interrupt now k [] = refl
find_row-interrupt now k (j ∷ t) = ground (arith, find_row-interrupt now k t)

find_row-running :
    (k : String) (t : Table) (j : Job)
    → find_row k t ≡ some j
    → status_eq j.status running ≡ true
    → length (keep (λ i. status_eq i.status running) t) ≢ 0
unfolding find_row
find_row-running k [] j h r = cc
find_row-running k (i ∷ t) j h r = ground (arith, find_row-running k t j)

-- After the startup pass no job is left running; a job that was running is failed with its other
-- columns kept, and every other job is as before. The number returned is zero only if no job was
-- running.
pub get-fail_interrupted :
    (up : Bool) (now n : ℕ) (k : String) (t : Table) {t' : Table} {j : Job}
    → fail_interrupted up now t ≡ ok (n, t')
    → get true k t ≡ ok j
    → (get true k t' ≡ ok (interrupt now j))
      × ((interrupt now j).status ≢ running)
      × (j.status ≡ running → n ≢ 0)
unfolding fail_interrupted get
get-fail_interrupted up now n k t h g = elim (Option-cases (find_row k t)) [
  | inl e ↦ ground arith
  | inr (i, e) ↦ ground (arith, find_row-interrupt now k t, find_row-running k t i e)
]

not_other :
    (path except k : String) (t : Table) (i : Job)
    → find_row k t ≡ some i
    → any (λ j. str_eq j.input_path path && not (str_eq j.id except)) t ≡ false
    → i.input_path ≡ path
    → i.id ≡ except
unfolding find_row
not_other path except k [] i e h p = cc
not_other path except k (j ∷ t) i e h p =
    ground
      (arith, str_eq_iff j.input_path path, str_eq_iff j.id except, not_other path except k t i)

-- If a path is reported as not shared, then every row that has it as its input is the excepted one.
pub input_path_shared_sound :
    (up : Bool) (path except k : String) (t : Table) {j : Job}
    → input_path_shared up path except t ≡ ok false
    → path ≢ ""
    → get true k t ≡ ok j
    → j.input_path ≡ path
    → k ≡ except
unfolding input_path_shared get
input_path_shared_sound up path except k t {j} h nonempty g same =
    elim (Option-cases (find_row k t)) [
      | inl e ↦ ground arith
      | inr (i, e) ↦
          ground (arith, str_eq_iff path "", find_row_id k t i e, not_other path except k t i e)
    ]
