-- ===== src/Jobs/Queue/Startup.antt =====
-- What the startup makes of the table that the process before left behind.
use aiofiles.Prelude.{
  ℕ, ◌+◌, String, Bool, true, ◌≡◌, refl, ap, sym, ◌∙◌, Option, none, some, List, [], ◌∷◌, map, keep,
  ite, ok, str_dec, arith, if◌then◌else◌,
}
use mathlib.Core.Path.{subst}
use aiofiles.Jobs.Types.{
  Job, Status, status_eq, unset, queued, running, done, failed, canceled, expired,
}
use aiofiles.Jobs.Store.{
  Table, find_row, queued_ids, sort_by, insert_by, interrupt, fail_interrupted,
}
use aiofiles.Jobs.Store.Order.{older}
use aiofiles.Jobs.Bus.{Bus}
use aiofiles.Jobs.Queue.{Queue, enqueue, resume_all, resume, new_queue}
use aiofiles.Jobs.Queue.Places.{
  count, count_executions, Fits, FitsStatus, FitsAt, up, count-append, settle_rest,
}

-- The ids that are still to be put into the channel count as waiting.
abbrev FitsBehind : String → List String → Queue → Type 0
FitsBehind k ids q =
    Fits (find_row k q.table) (count k ids + count k q.pending) (count_executions k q.executions)

enqueue-FitsBehind :
    (n now : ℕ) (id k : String) (ids : List String) (q : Queue)
    → FitsBehind k (id ∷ ids) q
    → FitsBehind k ids (enqueue up n now id q).0
unfolding enqueue
enqueue-FitsBehind n now id k ids q h =
    ground (
      arith,
      count-append k q.pending (id ∷ []),
      settle_rest n now id k failed "job queue is full" q,
    )

resume_all-FitsBehind :
    (n now : ℕ) (k : String) (ids : List String) (c : ℕ) (q : Queue)
    → FitsBehind k ids q
    → FitsAt k (resume_all up n now ids c q).0
unfolding resume_all
resume_all-FitsBehind n now k [] c q h = ground (arith, h)
resume_all-FitsBehind n now k (id ∷ ids) c q h =
    resume_all-FitsBehind (n + 2) now k ids _ (enqueue up n now id q).0
      (enqueue-FitsBehind n now id k ids q h)

abbrev ids_of : List Job → List String
ids_of l = map (λ (j : Job). j.id) l

count-insert_by :
    (k : String) (before : Job → Job → Bool) (j : Job) (l : List Job)
    → count k (ids_of (insert_by before j l)) ≡ count k (j.id ∷ ids_of l)
unfolding insert_by
count-insert_by k before j [] = refl
count-insert_by k before j (i ∷ l) = ground (arith, count-insert_by k before j l)

count-sort_by :
    (k : String) (before : Job → Job → Bool) (l : List Job)
    → count k (ids_of (sort_by before l)) ≡ count k (ids_of l)
unfolding sort_by
count-sort_by k before [] = refl
count-sort_by k before (j ∷ l) =
    ground (arith, count-insert_by k before j (sort_by before l), count-sort_by k before l)

-- The primary key: no id twice.
abbrev pub IsKeyed : Table → Type 0
IsKeyed [] = Unit
IsKeyed (j ∷ t) = (find_row j.id t ≡ none) × IsKeyed t

abbrev waiting_ids : Table → List String
waiting_ids t = ids_of (keep (λ (j : Job). status_eq j.status queued) t)

count-absent : (k : String) (t : Table) → find_row k t ≡ none → count k (waiting_ids t) ≡ 0
unfolding find_row
count-absent k [] h = refl
count-absent k (j ∷ t) h = ground (arith, count-absent k t)

interrupt_id : (now : ℕ) (j : Job) → (interrupt now j).id ≡ j.id
interrupt_id now j = ground arith

interrupt-absent :
    (now : ℕ) (k : String) (t : Table)
    → find_row k t ≡ none
    → find_row k (map (interrupt now) t) ≡ none
unfolding find_row
interrupt-absent now k [] h = refl
interrupt-absent now k (j ∷ t) h = ground (arith, interrupt-absent now k t, interrupt_id now j)

-- How often a job of this status is listed.
abbrev listed : Status → ℕ
listed s = if status_eq s queued then 1 else 0

abbrev after_interrupt : Status → Status
after_interrupt s = if status_eq s running then failed else s

FitsStatus-listed : (s : Status) → FitsStatus (after_interrupt s) (listed (after_interrupt s)) 0
FitsStatus-listed unset = (refl, refl)
FitsStatus-listed queued = (refl, refl)
FitsStatus-listed running = (refl, refl)
FitsStatus-listed done = (refl, refl)
FitsStatus-listed failed = (refl, refl)
FitsStatus-listed canceled = (refl, refl)
FitsStatus-listed expired = (refl, refl)

interrupt_status : (now : ℕ) (j : Job) → (interrupt now j).status ≡ after_interrupt j.status
interrupt_status now j = ground arith

count-waiting_ids :
    (k : String) (j : Job) (t : Table)
    → count k (waiting_ids (j ∷ t))
      ≡ ite (str_dec j.id k) (listed j.status) 0 + count k (waiting_ids t)
count-waiting_ids k j t = ground arith

head-Fits : (now : ℕ) (j : Job) → Fits (some (interrupt now j)) (listed (interrupt now j).status) 0
head-Fits now j =
    subst (λ s. FitsStatus s (listed s) 0) (sym (interrupt_status now j))
      (FitsStatus-listed j.status)

along-Fits : {o o' : Option Job} {a a' : ℕ} → o' ≡ o → a' ≡ a → Fits o a 0 → Fits o' a' 0
along-Fits {o} {o'} {a} {a'} e f h =
    subst (λ x. Fits o' x 0) (sym f) (subst (λ x. Fits x a 0) (sym e) h)

-- An interrupted table has no running job, and each queued one is listed once.
waiting_ids-Fits :
    (now : ℕ) (k : String) (t : Table)
    → IsKeyed t
    → Fits (find_row k (map (interrupt now) t)) (count k (waiting_ids (map (interrupt now) t))) 0
unfolding find_row
waiting_ids-Fits now k [] h = omega arith
waiting_ids-Fits now k (j ∷ t) (h, hs) = elim (str_dec j.id k) [
  | yes e ↦
      let absent = interrupt-absent now k t (ap (λ i. find_row i t) (sym e) ∙ h) in
      along-Fits {o = some (interrupt now j)} {a = listed (interrupt now j).status}
        (ground (arith, interrupt_id now j, e))
        (ground (
          arith,
          count-absent k (map (interrupt now) t) absent,
          count-waiting_ids k (interrupt now j) (map (interrupt now) t),
          interrupt_id now j,
          e,
        ))
        (head-Fits now j)
  | no n ↦
      along-Fits {o = find_row k (map (interrupt now) t)}
        {a = count k (waiting_ids (map (interrupt now) t))} (ground (arith, interrupt_id now j, n))
        (ground (
          arith,
          count-waiting_ids k (interrupt now j) (map (interrupt now) t),
          interrupt_id now j,
          n,
        ))
        (waiting_ids-Fits now k t hs)
]

-- The startup puts each job of a table without a double id in its place: after the pass that fails
-- the interrupted jobs, and after the queued ones are put into the channel of a new queue or failed
-- for want of room, a queued job waits exactly once and no job is running.
pub startup-FitsAt :
    (now later c depth : ℕ) (bus : Bus) (t : Table) {t' : Table}
    → IsKeyed t
    → fail_interrupted true now t ≡ ok (c, t')
    → (k : String) → FitsAt k (resume up later (new_queue t' bus depth)).0
unfolding fail_interrupted resume queued_ids
startup-FitsAt now later c depth bus t {t'} keyed e k =
    let waiting = keep (λ (j : Job). status_eq j.status queued) t' in
    let same : map (interrupt now) t ≡ t' = ground (arith, e) in
    resume_all-FitsBehind 1 later k (ids_of (sort_by older waiting)) 0 (new_queue t' bus depth) (
      along-Fits {o = find_row k t'} {a = count k (waiting_ids t')} refl
        (ground (arith, count-sort_by k older waiting))
        (subst (λ u. Fits (find_row k u) (count k (waiting_ids u)) 0) same
          (waiting_ids-Fits now k t keyed)))
