-- ===== src/Jobs/Queue/Places.antt =====
-- Where each job of the table stands in the worker pool, when the database carries out what it is
-- sent.
use aiofiles.Prelude.{
  ℕ, suc, ◌+◌, ◌≤◌, ◌<◌, String, Bool, true, ◌≡◌, refl, Option, none, some, List, [], ◌∷◌, ◌++◌,
  ite, length, Result, ok, str_dec, arith, Option-cases, list_cases, inl, inr,
}
use mathlib.Core.Option
use aiofiles.Jobs.Types.{Job, Status, queued, running, failed, Progress}
use aiofiles.Jobs.Store.{Table, get, delete, find_row, set_status, with_status, prepared}
use aiofiles.Jobs.Store.Laws.{find_row-update_row}
use Prim.Native.String.{◌++◌ as ◌<>◌}
use mathlib.Core.Path.{subst}
use aiofiles.Jobs.Queue.{
  Queue, Execution, Context, RunResult, publish_status, settle, enqueue, submit, update_execution,
  drop_execution, fresh_execution, find_execution, kind_text, end_job, begin, take, emit, finish,
}

-- How often an id waits in the channel, and how often it is executed.
abbrev pub count : String → List String → ℕ
count k [] = 0
count k (i ∷ l) = ite (str_dec i k) (suc (count k l)) (count k l)

abbrev pub count_executions : String → List Execution → ℕ
count_executions k [] = 0
count_executions k (x ∷ l) =
    ite (str_dec x.id k) (suc (count_executions k l)) (count_executions k l)

-- A queued job waits once, a running one is executed once, any other does neither.
abbrev pub FitsStatus : Status → ℕ → ℕ → Type 0
FitsStatus queued a b = (a ≡ 1) × (b ≡ 0)
FitsStatus running a b = (a ≡ 0) × (b ≡ 1)
FitsStatus _ a b = (a ≡ 0) × (b ≡ 0)

-- The id of a deleted job may still wait or be executed.
abbrev pub Fits : Option Job → ℕ → ℕ → Type 0
Fits none a b = a + b ≤ 1
Fits (some j) a b = FitsStatus j.status a b

abbrev pub FitsAt : String → Queue → Type 0
FitsAt k q = Fits (find_row k q.table) (count k q.pending) (count_executions k q.executions)

-- The database carries out every statement.
abbrev pub up : ℕ → Bool
up n = true

-- A step of the pool, of its workers or of a request handler; at most `n` jobs are executed at once.
-- The id of a new job is neither waiting nor executed.
pub data Step (n : ℕ) (q : Queue) : Queue → Type 0 where
  submits :
      (now : ℕ) (fresh : String) (j : Job)
      → count (prepared now fresh j).id q.pending
          + count_executions (prepared now fresh j).id q.executions
        ≡ 0
      → Step n q (submit up now fresh j q).0
  takes : (now : ℕ) → length q.executions < n → Step n q (take up now q)
  emits :
      (now : ℕ) (x : Execution) (p : Progress)
      → find_execution x.id q.executions ≡ some x
      → Step n q (emit true now x p q)
  ends : (id : String) (cause : Context) → Step n q (end_job cause id q)
  finishes :
      (now : ℕ) (limit : String) (x : Execution) (r : RunResult) (stat : Result String ℕ)
      → find_execution x.id q.executions ≡ some x
      → Step n q (finish up now limit x r stat q).0
  deletes :
      (id : String) (t : Table) → delete true id q.table ≡ ok t → Step n q (record q { table = t })

pub count-append : (k : String) (l m : List String) → count k (l ++ m) ≡ count k l + count k m
count-append k [] m = omega arith
count-append k (i ∷ l) m = ground (arith, count-append k l m)

pub count-drop :
    (id k : String) (l : List Execution)
    → count_executions k (drop_execution id l) ≡ ite (str_dec id k) 0 (count_executions k l)
unfolding drop_execution
count-drop id k [] = ground arith
count-drop id k (x ∷ l) = ground (arith, count-drop id k l)

pub count-update :
    (id k : String) (f : Execution → Execution) (l : List Execution)
    → ((x : Execution) → (f x).id ≡ x.id)
    → count_executions k (update_execution id f l) ≡ count_executions k l
unfolding update_execution
count-update id k f [] h = refl
count-update id k f (x ∷ l) h = ground (arith, h x, count-update id k f l h)

pub count_found :
    (id : String) (l : List Execution) (x : Execution)
    → find_execution id l ≡ some x
    → 0 < count_executions id l
unfolding find_execution
count_found id [] x h = cc
count_found id (y ∷ l) x h = ground (arith, count_found id l x)

pub find_row-set_status :
    (now : ℕ) (id k : String) (st : Status) (text : String) (t : Table)
    → find_row k (set_status true now id st text t)
      ≡ ite (str_dec id k) (Option.map (with_status now st text) (find_row k t)) (find_row k t)
unfolding set_status
find_row-set_status now id k st text t =
    find_row-update_row id k (with_status now st text) t (λ j. refl)

-- Publishing changes the bus alone.
publish_status_rest :
    (b : Bool) (id : String) (q : Queue)
    → ((publish_status b id q).table ≡ q.table)
      × ((publish_status b id q).pending ≡ q.pending)
      × ((publish_status b id q).executions ≡ q.executions)
unfolding publish_status
publish_status_rest b id q = ground arith

-- What a status change with its event does to the parts of the pool.
pub settle_rest :
    (n now : ℕ) (id k : String) (st : Status) (text : String) (q : Queue)
    → let q' = settle up n now id st text q in
      (q'.pending ≡ q.pending)
      × (q'.executions ≡ q.executions)
      × (find_row k q'.table
          ≡ ite
              (str_dec id k)
              (Option.map (with_status now st text) (find_row k q.table))
              (find_row k q.table))
unfolding settle
settle_rest n now id k st text q = ground (
  arith,
  publish_status_rest true id (record q { table = set_status true now id st text q.table }),
  find_row-set_status now id k st text q.table,
)

pub enqueue-FitsAt :
    (n now : ℕ) (id k : String) (q : Queue)
    → ite
        (str_dec id k)
        ((j : Job) × (find_row k q.table ≡ some j)
          × (count k q.pending ≡ 0)
          × (count_executions k q.executions ≡ 0)
          × (j.status ≡ queued))
        (FitsAt k q)
    → FitsAt k (enqueue up n now id q).0
unfolding enqueue
enqueue-FitsAt n now id k q h =
    ground (
      arith,
      count-append k q.pending (id ∷ []),
      settle_rest n now id k failed "job queue is full" q,
    )

pub begin-FitsAt :
    (now : ℕ) (id k : String) (q : Queue)
    → Fits (find_row k q.table) (count k (id ∷ q.pending)) (count_executions k q.executions)
    → FitsAt k (begin up now id q)
unfolding begin get
begin-FitsAt now id k q h = elim (Option-cases (find_row id q.table)) [
  | inl e ↦ ground arith
  | inr (j, e) ↦ ground (
    arith,
    settle_rest 1 now id k running ""
        (record q { executions = fresh_execution id j.kind ∷ q.executions }),
    settle_rest 1 now id k failed ("no runner registered for job type: " <> kind_text j.kind) q,
  )
]

pub take-FitsAt : (now : ℕ) (k : String) (q : Queue) → FitsAt k q → FitsAt k (take up now q)
unfolding take
take-FitsAt now k q h = elim (list_cases q.pending) [
  | inl e ↦ rw (e, take) h
  | inr (id, rest, e) ↦
      rw (e, take)
        (begin-FitsAt now id k (record q { pending = rest })
          (subst (λ l. Fits (find_row k q.table) (count k l) (count_executions k q.executions)) e
            h))
]
