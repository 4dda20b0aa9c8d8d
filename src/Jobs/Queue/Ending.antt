-- ===== src/Jobs/Queue/Ending.antt =====
-- The end of an execution, the deletion of a job, and its place in the pool.
use aiofiles.Prelude.{
  ℕ, ◌+◌, ◌≤◌, ◌<◌, String, true, ◌≡◌, refl, Option, none, some, ite, Result, ok, err, str_dec,
  arith, Option-cases, inl, inr,
}
use mathlib.Core.Option
use aiofiles.Jobs.Types.{
  Job, Status, unset, queued, running, done, failed, canceled, expired, terminal, at, RunOutput,
}
use aiofiles.Jobs.Store.{
  Table, delete, find_row, update_row, set_progress, set_output, with_status, with_progress,
  with_output,
}
use aiofiles.Jobs.Store.Laws.{find_row-update_row, find_row-remove_row}
use mathlib.Core.Path.{subst}
use aiofiles.Jobs.Queue.{
  Queue, Execution, Context, RunResult, returned, broke, settle, live, stopped, timed_out,
  complete_job, finish, failure_status, failure_text, leave,
}
use aiofiles.Jobs.Queue.Places.{
  count, count_executions, FitsStatus, Fits, FitsAt, up, count-drop, settle_rest,
}

pub idle_of_busy : (s : Status) (a b : ℕ) → FitsStatus s a b → 0 < b → (a ≡ 0) × (b ≡ 1)
idle_of_busy queued a b h p = absurd (omega arith)
idle_of_busy running a b h p = h
idle_of_busy _ a b h p = absurd (omega arith)

pub fits_of_terminal : (s : Status) → terminal s ≡ true → FitsStatus s 0 0
unfolding terminal
fits_of_terminal done e = omega arith
fits_of_terminal failed e = omega arith
fits_of_terminal canceled e = omega arith
fits_of_terminal expired e = omega arith
fits_of_terminal unset e = cc
fits_of_terminal queued e = cc
fits_of_terminal running e = cc

pub Fits-after_end :
    (o : Option Job) (a b now : ℕ) (st : Status) (text : String)
    → terminal st ≡ true
    → Fits o a b
    → 0 < b
    → Fits (Option.map (with_status now st text) o) a 0
Fits-after_end none a b now st text e h p = omega arith
Fits-after_end (some j) a b now st text e h p =
    rw ((idle_of_busy j.status a b h p).0) (fits_of_terminal st e)

pub failure_terminal : (c : Context) → terminal (failure_status c) ≡ true
unfolding terminal
failure_terminal live = refl
failure_terminal stopped = refl
failure_terminal timed_out = refl

-- The end of an execution: the job takes a status that is final, if it is still in the table.
pub settle_final-FitsAt :
    (n now : ℕ) (id k : String) (st : Status) (text : String) (q : Queue)
    → terminal st ≡ true
    → 0 < count_executions id q.executions
    → FitsAt k q
    → FitsAt k (leave id (settle up n now id st text q))
settle_final-FitsAt n now id k st text q final busy h =
    let (p, x, r) = settle_rest n now id k st text q in
    rw (p, x, r, count-drop id k q.executions)
      (elim (str_dec id k)
        as (λ d.
          Fits
            (ite d (Option.map (with_status now st text) (find_row k q.table)) (find_row k q.table))
            (count k q.pending) (ite d 0 (count_executions k q.executions))) [
              | yes same ↦
                  Fits-after_end (find_row k q.table) (count k q.pending)
                    (count_executions k q.executions) now st text final h
                    (subst (λ i. 0 < count_executions i q.executions) same busy)
              | no apart ↦ h
            ])

-- The columns written before the final status keep the status that the job had.
pub output-FitsAt :
    (now : ℕ) (id k : String) (r : RunOutput) (size : ℕ) (q : Queue)
    → FitsAt k q
    → FitsAt k (record q {
      table =
          set_progress true now id
            (at 100000)
            "done"
            (set_output true now id r.output_path r.title size q.table);
    })
unfolding set_progress set_output
output-FitsAt now id k r size q h = ground (
  arith,
  find_row-update_row id k (with_output now r.output_path r.title size) q.table (λ j. refl),
  find_row-update_row id k (with_progress now (at 100000) "done")
      (update_row id (with_output now r.output_path r.title size) q.table) (λ j. refl),
)

pub finish-FitsAt :
    (now : ℕ) (limit : String) (x : Execution) (r : RunResult) (stat : Result String ℕ) (k : String)
    (q : Queue)
    → 0 < count_executions x.id q.executions
    → FitsAt k q
    → FitsAt k (finish up now limit x r stat q).0
unfolding finish complete_job terminal
finish-FitsAt now limit x (returned r) (err text) k q busy h =
    settle_final-FitsAt 0 now x.id k failed _ q refl busy h
finish-FitsAt now limit x (returned r) (ok size) k q busy h =
    settle_final-FitsAt 2 now x.id k done "" _ refl busy (output-FitsAt now x.id k r size q h)
finish-FitsAt now limit x (broke text path) stat k q busy h =
    settle_final-FitsAt 0 now x.id k (failure_status x.context) (failure_text x.context limit text)
      q (failure_terminal x.context) busy h

pub FitsStatus-absent : (s : Status) (a b : ℕ) → FitsStatus s a b → a + b ≤ 1
FitsStatus-absent queued a b h = omega arith
FitsStatus-absent running a b h = omega arith
FitsStatus-absent _ a b h = omega arith

pub Fits-absent : (o : Option Job) (a b : ℕ) → Fits o a b → a + b ≤ 1
Fits-absent none a b h = h
Fits-absent (some j) a b h = FitsStatus-absent j.status a b h

pub delete-FitsAt :
    (id k : String) (t : Table) (q : Queue)
    → delete true id q.table ≡ ok t
    → FitsAt k q
    → FitsAt k (record q { table = t })
unfolding delete
delete-FitsAt id k t q e h = elim (Option-cases (find_row id q.table)) [
  | inl f ↦ ground arith
  | inr (j, f) ↦ ground (
    arith,
    find_row-remove_row id k q.table,
    Fits-absent (find_row k q.table) (count k q.pending) (count_executions k q.executions) h,
  )
]
