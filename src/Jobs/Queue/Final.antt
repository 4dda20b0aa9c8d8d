-- ===== src/Jobs/Queue/Final.antt =====
-- A job that has ended is left alone by the worker pool.
use aiofiles.Prelude.{
  ℕ, String, true, ◌≡◌, refl, ap, ◌∙◌, ◌⊎◌, inl, inr, none, some, [], ◌∷◌, Result, ok, err, arith,
  Option-cases, list_cases, Bool-cases, str_dec,
}
use mathlib.Core.Path.{subst}
use Prim.Native.String.{◌++◌ as ◌<>◌}
use aiofiles.Jobs.Types.{
  Job, Status, terminal, queued, running, done, failed, Progress, RunOutput, at,
}
use aiofiles.Jobs.Store.{
  Table, get, delete, find_row, prepared, update_row, set_progress, set_output, with_progress,
  with_output,
}
use aiofiles.Jobs.Store.Laws.{find_row-append, find_row-update_row, find_row-remove_row}
use aiofiles.Jobs.Queue.{
  Queue, Execution, find_execution, RunResult, returned, broke, submit, begin, take, emit,
  save_progress, send_progress, end_job, settle, enqueue, complete_job, finish, fresh_execution,
  kind_text, failure_status, failure_text,
}
use aiofiles.Jobs.Queue.Places.{
  FitsAt, Fits, FitsStatus, count, count_executions, up, Step, submits, takes, emits, ends,
  finishes, deletes, settle_rest, count_found,
}
use aiofiles.Jobs.Queue.Arrival.{create_cases, inserted}

-- The row under `k` is as before.
abbrev SameRow : String → Queue → Queue → Type 0
SameRow k q q' = find_row k q'.table ≡ find_row k q.table

settle-SameRow :
    (n now : ℕ) (id k : String) (st : Status) (text : String) (q : Queue)
    → ¬ (id ≡ k)
    → SameRow k q (settle up n now id st text q)
settle-SameRow n now id k st text q apart = ground (arith, settle_rest n now id k st text q)

begin-SameRow : (now : ℕ) (id k : String) (q : Queue) → ¬ (id ≡ k) → SameRow k q (begin up now id q)
unfolding begin get
begin-SameRow now id k q apart = elim (Option-cases (find_row id q.table)) [
  | inl e ↦ ground arith
  | inr (j, e) ↦ ground (
    arith,
    settle-SameRow 1 now id k running ""
        (record q { executions = fresh_execution id j.kind ∷ q.executions }) apart,
    settle-SameRow 1 now id k failed ("no runner registered for job type: " <> kind_text j.kind) q
        apart,
  )
]

take-SameRow :
    (now : ℕ) (k : String) (q : Queue) → count k q.pending ≡ 0 → SameRow k q (take up now q)
unfolding take
take-SameRow now k q idle = elim (list_cases q.pending) [
  | inl e ↦ rw (e, take)
  | inr (id, rest, e) ↦
      rw (e, take)
        (begin-SameRow now id k (record q { pending = rest })
          (λ same. absurd (ground (arith, ap (count k) e))))
]

submit-SameRow :
    (now : ℕ) (fresh : String) (j i : Job) (k : String) (q : Queue)
    → find_row k q.table ≡ some i
    → SameRow k q (submit up now fresh j q).0
unfolding submit enqueue find_row
submit-SameRow now fresh j i k q present = elim (Bool-cases (q.runners j.kind)) [
  | inl e ↦ elim (create_cases now fresh (record j { status = queued }) q.table) [
    | inl (absent, c) ↦
        let p : Job = prepared now fresh (record j { status = queued }) in
        rw (e, c, submit)
          (ground (
            arith,
            find_row-append k q.table (p ∷ []),
            ap (λ i. find_row i q.table) {x = p.id} {y = k},
            settle-SameRow 1 now p.id k failed "job queue is full" (inserted p q),
          ))
    | inr (f, c) ↦ rw (e, c, submit) refl
  ]
  | inr e ↦ rw (e, submit) refl
]

emit-SameRow :
    (now : ℕ) (x : Execution) (p : Progress) (k : String) (q : Queue)
    → ¬ (x.id ≡ k)
    → SameRow k q (emit true now x p q)
unfolding emit save_progress send_progress set_progress
emit-SameRow now x p k q apart =
    ground
      (arith, find_row-update_row x.id k (with_progress now p.percent p.stage) q.table (λ j. refl))

output-SameRow :
    (now : ℕ) (id k : String) (r : RunOutput) (size : ℕ) (q : Queue)
    → ¬ (id ≡ k)
    → find_row k (
        set_progress true now id
          (at 100000)
          "done"
          (set_output true now id r.output_path r.title size q.table))
      ≡ find_row k q.table
unfolding set_progress set_output
output-SameRow now id k r size q apart = ground (
  arith,
  find_row-update_row id k (with_output now r.output_path r.title size) q.table (λ j. refl),
  find_row-update_row id k (with_progress now (at 100000) "done")
      (update_row id (with_output now r.output_path r.title size) q.table) (λ j. refl),
)

finish-SameRow :
    (now : ℕ) (limit : String) (x : Execution) (r : RunResult) (stat : Result String ℕ) (k : String)
    (q : Queue)
    → ¬ (x.id ≡ k)
    → SameRow k q (finish up now limit x r stat q).0
unfolding finish complete_job
finish-SameRow now limit x (returned r) (err text) k q apart =
    settle-SameRow 0 now x.id k failed ("output missing: " <> text) q apart
finish-SameRow now limit x (returned r) (ok size) k q apart =
    settle-SameRow 2 now x.id k done "" (record q { table = written }) apart
    ∙ output-SameRow now x.id k r size q apart
  where
    written : Table
    written =
        set_progress true now x.id (at 100000) "done"
          (set_output true now x.id r.output_path r.title size q.table)
finish-SameRow now limit x (broke text path) stat k q apart =
    settle-SameRow 0 now x.id k (failure_status x.context) (failure_text x.context limit text) q
      apart

idle_of_terminal : (s : Status) (a b : ℕ) → terminal s ≡ true → FitsStatus s a b → (a ≡ 0) × (b ≡ 0)
unfolding terminal
idle_of_terminal queued a b e h = cc
idle_of_terminal running a b e h = cc
idle_of_terminal _ a b e h = h

not_executed :
    (k : String) (x : Execution) (q : Queue)
    → count_executions k q.executions ≡ 0
    → find_execution x.id q.executions ≡ some x
    → ¬ (x.id ≡ k)
not_executed k x q idle f same = absurd (
    omega
      (arith, count_found x.id q.executions x f, ap (λ i. count_executions i q.executions) same))

-- The step is the deletion of the row under `k`.
abbrev pub IsDeletion : {n : ℕ} {q q' : Queue} → String → Step n q q' → Type 0
IsDeletion k (deletes id t d) = id ≡ k
IsDeletion k _ = ⊥

-- The row is left as it is, or the step is its deletion and it is gone.
abbrev pub IsKept : {n : ℕ} {q q' : Queue} → String → Job → Step n q q' → Type 0
IsKept {q'} k j s = (find_row k q'.table ≡ some j) ⊎ (IsDeletion k s × (find_row k q'.table ≡ none))

deletes-IsKept :
    (n : ℕ) (q : Queue) (k : String) (j : Job) (id : String) (t : Table)
    (d : delete true id q.table ≡ ok t)
    → find_row k q.table ≡ some j
    → IsKept {n = n} {q = q} k j (deletes id t d)
unfolding delete
deletes-IsKept n q k j id t d e = elim (str_dec id k) [
  | yes same ↦ inr (same, ground (arith, find_row-remove_row id k q.table))
  | no apart ↦ inl (ground (arith, find_row-remove_row id k q.table))
]

idle-IsKept :
    {n : ℕ} {q q' : Queue} (k : String) (j : Job) (s : Step n q q')
    → count k q.pending ≡ 0
    → count_executions k q.executions ≡ 0
    → find_row k q.table ≡ some j
    → IsKept k j s
unfolding end_job
idle-IsKept {q} k j (submits now fresh i new) a b e = inl (submit-SameRow now fresh i j k q e ∙ e)
idle-IsKept {q} k j (takes now room) a b e = inl (take-SameRow now k q a ∙ e)
idle-IsKept {q} k j (emits now x p f) a b e =
    inl (emit-SameRow now x p k q (not_executed k x q b f) ∙ e)
idle-IsKept {q} k j (ends id cause) a b e = inl e
idle-IsKept {q} k j (finishes now limit x r stat f) a b e =
    inl (finish-SameRow now limit x r stat k q (not_executed k x q b f) ∙ e)
idle-IsKept {n} {q} k j (deletes id t d) a b e = deletes-IsKept n q k j id t d e

-- In a pool where each job has its place, and whose statements to the database are carried out, no step but the
-- deletion of its row changes anything of a job that has ended.
pub Step-IsKept :
    {n : ℕ} {q q' : Queue} (k : String) (j : Job) (s : Step n q q')
    → FitsAt k q
    → find_row k q.table ≡ some j
    → terminal j.status ≡ true
    → IsKept k j s
Step-IsKept {q} k j s h e final =
    let fits : FitsStatus j.status (count k q.pending) (count_executions k q.executions) =
      subst (λ o. Fits o (count k q.pending) (count_executions k q.executions)) e h in
    let (a, b) = idle_of_terminal j.status _ _ final fits in idle-IsKept k j s a b e
