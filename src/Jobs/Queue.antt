-- ===== src/Jobs/Queue.antt =====
-- internal/jobs/queue.go: the worker pool. An operation's argument `db` says of each statement it
-- sends to the database, counted from 0, whether the database carries it out. Each operation is one
-- step: `take` is what `execute` does before the runner is called, `finish` what it does after.
pub mod Places
mod Arrival
mod Ending
pub mod Invariant
pub mod Final
pub mod Drain
pub mod Startup
use aiofiles.Prelude.{
  ℕ, zero, suc, ◌+◌, ◌-◌, String, Bool, true, false, not, ◌||◌, Option, none, some, List, [], ◌∷◌,
  ◌++◌, map, ite, ltb, leb, if◌then◌else◌, length, Result, ok, err, str_eq, str_dec,
}
use Prim.Native.String.{◌++◌ as ◌<>◌}
use aiofiles.Jobs.Types.{
  JobType, download, convert, compress, image, edit, other, Job, Status, queued, running, done,
  failed, canceled, Percent, unknown, at, complete, Progress, RunOutput, Event, created, progressed,
  status_changed,
}
use aiofiles.Jobs.Store.{
  Table, StoreError, create, get, set_status, set_progress, set_output, queued_ids,
}
use aiofiles.Jobs.Bus.{Bus, publish}

pub data QueueError : Type 0 where
  queue_full not_cancelable : QueueError
  no_runner : JobType → QueueError
  store_error : StoreError → QueueError

-- Why a job's context has ended, if it has: the first cause stays.
pub data Context : Type 0 where
  live stopped timed_out : Context

-- A job that a worker executes, which the map `running` holds under its id.
pub record Execution : Type 0 where
  pub id : String
  pub kind : JobType
  pub context : Context
  pub last_db : Option ℕ
  pub last_bus : Option ℕ

pub record Queue : Type 0 where
  pub table : Table
  pub bus : Bus
  pub runners : JobType → Bool
  pub depth : ℕ
  pub pending : List String
  pub executions : List Execution

-- `depth <= 0` becomes 256.
abbrev pub channel_depth : ℕ → ℕ
channel_depth zero = 256
channel_depth (suc n) = suc n

abbrev pub new_queue : Table → Bus → ℕ → Queue
new_queue t b depth = record {
  table = t;
  bus = b;
  runners = λ k. false;
  depth = channel_depth depth;
  pending = [];
  executions = [];
}

unfoldable pub register : (JobType → Bool) → Queue → Queue
register same q = record q { runners = λ k. same k || q.runners k }

abbrev pub kind_text : JobType → String
kind_text download = "download"
kind_text convert = "convert"
kind_text compress = "compress"
kind_text image = "image"
kind_text edit = "edit"
kind_text (other t) = t

unfoldable pub publish_status : Bool → String → Queue → Queue
publish_status up id q = elim (get up id q.table) [
  | ok j ↦ record q {
    bus =
        publish (record { kind = status_changed; job_id = id; job = some j; progress = none })
          q.bus;
  }
  | err e ↦ q
]

-- `_ = q.store.SetStatus(…)` and `q.publishStatus(…)`, with the first statement's number.
unfoldable pub settle : (ℕ → Bool) → ℕ → ℕ → String → Status → String → Queue → Queue
unfolding publish_status
settle db n now id st text q =
    publish_status (db (suc n)) id (record q { table = set_status (db n) now id st text q.table })

-- The `select` that sends to the channel or fails the job.
unfoldable pub enqueue : (ℕ → Bool) → ℕ → ℕ → String → Queue → Queue × Option QueueError
unfolding settle
enqueue db n now id q =
    if ltb (length q.pending) q.depth
    then (record q { pending = q.pending ++ id ∷ [] }, none)
    else (settle db n now id failed "job queue is full" q, some queue_full)

abbrev pub created_event : Job → Event
created_event j = record { kind = created; job_id = j.id; job = some j; progress = none }

unfoldable pub submit : (ℕ → Bool) → ℕ → String → Job → Queue → Queue × Option QueueError
unfolding enqueue
submit db now fresh j q =
    if not (q.runners j.kind)
    then (q, some (no_runner j.kind))
    else elim (create (db 0) now fresh (record j { status = queued }) q.table) [
      | err e ↦ (q, some (store_error e))
      | ok (j', t) ↦
          enqueue db 1 now j'.id (record q { table = t; bus = publish (created_event j') q.bus })
    ]

-- The loop of `Resume`; each job uses two statements if it does not fit.
unfoldable pub resume_all : (ℕ → Bool) → ℕ → ℕ → List String → ℕ → Queue → Queue × ℕ
unfolding enqueue
resume_all db n now [] count q = (q, count)
resume_all db n now (id ∷ ids) count q =
    let (q', failure) = enqueue db n now id q in
    resume_all db (n + 2) now ids (elim failure [ none ↦ suc count | some e ↦ count ]) q'

unfoldable pub resume : (ℕ → Bool) → ℕ → Queue → Queue × Result StoreError ℕ
unfolding resume_all
resume db now q = elim (queued_ids (db 0) q.table) [
  | err e ↦ (q, err e)
  | ok ids ↦ let (q', n) = resume_all db 1 now ids 0 q in (q', ok n)
]

unfoldable pub find_execution : String → List Execution → Option Execution
find_execution id [] = none
find_execution id (x ∷ l) = ite (str_dec x.id id) (some x) (find_execution id l)

unfoldable pub update_execution : String → (Execution → Execution) → List Execution → List Execution
update_execution id f [] = []
update_execution id f (x ∷ l) = ite (str_dec x.id id) (f x) x ∷ update_execution id f l

unfoldable pub drop_execution : String → List Execution → List Execution
drop_execution id [] = []
drop_execution id (x ∷ l) = ite (str_dec x.id id) (drop_execution id l) (x ∷ drop_execution id l)

abbrev pub end_context : Context → Context → Context
end_context cause live = cause
end_context cause ended = ended

abbrev pub with_context : Context → Execution → Execution
with_context cause x = record x { context = end_context cause x.context }

-- The context of one job ends, by `Cancel`, by the end of the pool's own context or by the time limit.
unfoldable pub end_job : Context → String → Queue → Queue
unfolding update_execution
end_job cause id q = record q { executions = update_execution id (with_context cause) q.executions }

unfoldable pub cancel : String → Queue → Queue × Option QueueError
unfolding find_execution end_job
cancel id q = elim (find_execution id q.executions) [
  | none ↦ (q, some not_cancelable)
  | some x ↦ (end_job stopped id q, none)
]

abbrev pub fresh_execution : String → JobType → Execution
fresh_execution id kind = record {
  id = id;
  kind = kind;
  context = live;
  last_db = none;
  last_bus = none;
}

-- `execute` up to the call of the runner.
unfoldable pub begin : (ℕ → Bool) → ℕ → String → Queue → Queue
unfolding settle
begin db now id q = elim (get (db 0) id q.table) [
  | err e ↦ q
  | ok j ↦
      if q.runners j.kind
      then settle db 1 now id running ""
          (record q { executions = fresh_execution id j.kind ∷ q.executions })
      else settle db 1 now id failed ("no runner registered for job type: " <> kind_text j.kind) q
]

-- A worker receives the next id and begins to execute it.
unfoldable pub take : (ℕ → Bool) → ℕ → Queue → Queue
unfolding begin
take db now q = elim q.pending [
  | [] ↦ q
  | id ∷ rest ↦ begin db now id (record q { pending = rest })
]

-- `now.Sub(last) >= interval`; the zero time is long past.
abbrev pub elapsed : ℕ → ℕ → Option ℕ → Bool
elapsed interval now none = true
elapsed interval now (some last) = leb interval (now - last)

abbrev pub db_progress_interval : ℕ
db_progress_interval = 2000

abbrev pub bus_progress_interval : ℕ
bus_progress_interval = 400

unfoldable pub save_progress : Bool → ℕ → Execution → Progress → Queue → Queue
unfolding update_execution
save_progress up now x p q =
    if elapsed db_progress_interval now x.last_db
    then record q {
      table = set_progress up now x.id p.percent p.stage q.table;
      executions = update_execution x.id (λ y. record y { last_db = some now }) q.executions;
    }
    else q

unfoldable pub send_progress : ℕ → Execution → Progress → Queue → Queue
unfolding update_execution
send_progress now x p q =
    if elapsed bus_progress_interval now x.last_bus || complete p.percent
    then record q {
      bus =
          publish (record { kind = progressed; job_id = x.id; job = none; progress = some p })
            q.bus;
      executions = update_execution x.id (λ y. record y { last_bus = some now }) q.executions;
    }
    else q

-- The callback that `execute` hands to the runner.
unfoldable pub emit : Bool → ℕ → Execution → Progress → Queue → Queue
unfolding save_progress send_progress
emit up now x p q = send_progress now x p (save_progress up now x p q)

-- What `runner.Run` returned. A failure comes with its text and the output path it names.
pub data RunResult : Type 0 where
  returned : RunOutput → RunResult
  broke : String → String → RunResult

-- The status and text that a failed run ends in; `limit` is the time limit as it is printed.
abbrev pub failure_status : Context → Status
failure_status timed_out = failed
failure_status stopped = canceled
failure_status live = failed

abbrev pub failure_text : Context → String → String → String
failure_text timed_out limit text =
    "job stopped after hitting the " <> limit <> " time limit (JOB_TIMEOUT_MINUTES)"
failure_text stopped limit text = "canceled"
failure_text live limit text = text

-- The bookkeeping behind a run that returned a file: `stat` is its size if `os.Stat` finds it, and
-- otherwise the error's text.
unfoldable pub complete_job : (ℕ → Bool) → ℕ → String → RunOutput → Result String ℕ → Queue → Queue
unfolding settle
complete_job db now id r stat q = elim stat [
  | err text ↦ settle db 0 now id failed ("output missing: " <> text) q
  | ok size ↦ settle db 2 now id done "" (record q {
    table =
        set_progress (db 1) now id (at 100000) "done"
          (set_output (db 0) now id r.output_path r.title size q.table);
  })
]

abbrev pub cleanup : String → List String
cleanup path = if str_eq path "" then [] else path ∷ []

abbrev pub leave : String → Queue → Queue
leave id q = record q { executions = drop_execution id q.executions }

-- `execute` from the return of the runner on, with the partial output that it removes.
unfoldable pub finish :
    (ℕ → Bool) → ℕ → String → Execution → RunResult → Result String ℕ → Queue → Queue × List String
unfolding complete_job settle drop_execution
finish db now limit x (returned r) stat q = (leave x.id (complete_job db now x.id r stat q), [])
finish db now limit x (broke text path) stat q = (
  leave x.id
      (settle db 0 now x.id (failure_status x.context) (failure_text x.context limit text) q),
  cleanup path,
)
