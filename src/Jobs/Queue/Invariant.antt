-- ===== src/Jobs/Queue/Invariant.antt =====
-- Each job of the table has its place in the worker pool, after any sequence of steps.
use aiofiles.Prelude.{ℕ, String}
use aiofiles.Jobs.Queue.{Queue}
use aiofiles.Jobs.Queue.Places.{
  FitsAt, Step, count_found, take-FitsAt, submits, takes, emits, ends, finishes, deletes,
}
use aiofiles.Jobs.Queue.Arrival.{submit-FitsAt, emit-FitsAt, end_job-FitsAt}
use aiofiles.Jobs.Queue.Ending.{finish-FitsAt, delete-FitsAt}

-- Every step keeps each job in its place: a queued job waits in the channel exactly once, a running
-- job is executed exactly once, a job in any other status does neither, and the id of a job that
-- is gone is met at most once.
pub Step-FitsAt :
    {n : ℕ} {q q' : Queue} → Step n q q' → ((k : String) → FitsAt k q) → (k : String) → FitsAt k q'
Step-FitsAt {q} (submits now fresh j new) h k = submit-FitsAt now fresh j k q new (h k)
Step-FitsAt {q} (takes now room) h k = take-FitsAt now k q (h k)
Step-FitsAt {q} (emits now x p f) h k = emit-FitsAt now x p k q (h k)
Step-FitsAt {q} (ends id cause) h k = end_job-FitsAt id cause k q (h k)
Step-FitsAt {q} (finishes now limit x r stat f) h k =
    finish-FitsAt now limit x r stat k q (count_found x.id q.executions x f) (h k)
Step-FitsAt {q} (deletes id t e) h k = delete-FitsAt id k t q e (h k)

pub data Reach (n : ℕ) (q : Queue) : Queue → Type 0 where
  here : Reach n q q
  next : {r s : Queue} → Reach n q r → Step n r s → Reach n q s

-- If the statements to the database are carried out and a new job has an id that neither the channel nor a
-- run has, any sequence of submissions, starts, progress reports, cancellations, ends and deletions keeps each job in its
-- place: a queued job waits once in the channel, a running one is executed once, and any other does neither.
pub Reach-FitsAt :
    {n : ℕ} {q q' : Queue} → ((k : String) → FitsAt k q) → Reach n q q' → (k : String) → FitsAt k q'
Reach-FitsAt h here k = h k
Reach-FitsAt h (next r s) k = Step-FitsAt s (Reach-FitsAt h r) k
