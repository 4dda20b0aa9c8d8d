-- ===== src/Jobs/Queue/Arrival.antt =====
-- A job that is submitted, taken by a worker, or makes progress, and its place in the pool.
use aiofiles.Prelude.{
  ℕ, ◌+◌, String, true, ◌≡◌, refl, ◌⊎◌, if_pos, if_neg, none, some, [], ◌∷◌, ◌++◌, ok, err, str_dec,
  arith, Option-cases, Bool-cases, inl, inr,
}
use aiofiles.Jobs.Types.{Job, queued, Progress}
use aiofiles.Jobs.Store.{
  Table, StoreError, duplicate_id, create, insert_row, find_row, set_progress, with_progress,
  prepared,
}
use aiofiles.Jobs.Store.Laws.{find_row-update_row, find_row-append}
use aiofiles.Jobs.Bus.{publish}
use aiofiles.Jobs.Queue.{
  Queue, Execution, Context, enqueue, submit, update_execution, with_context, created_event,
  end_job, save_progress, send_progress, emit,
}
use aiofiles.Jobs.Queue.Places.{count, count_executions, FitsAt, up, count-update, enqueue-FitsAt}

-- A job is added to the table, or refused.
pub create_cases :
    (now : ℕ) (fresh : String) (j : Job) (t : Table)
    → let p = prepared now fresh j in
      ((find_row p.id t ≡ none) × (create true now fresh j t ≡ ok (p, t ++ p ∷ [])))
      ⊎ ((e : StoreError) × (create true now fresh j t ≡ err e))
unfolding create insert_row
create_cases now fresh j t = elim (Option-cases (find_row (prepared now fresh j).id t)) [
  | inl e ↦ inl (e, rw (e, create, insert_row))
  | inr (i, e) ↦ inr (duplicate_id, rw (e, create, insert_row))
]

-- The queue between the insertion of a job and its way into the channel.
abbrev pub inserted : Job → Queue → Queue
inserted p q = record q { table = q.table ++ p ∷ []; bus = publish (created_event p) q.bus }

pub inserted-FitsAt :
    (now : ℕ) (p : Job) (k : String) (q : Queue)
    → find_row p.id q.table ≡ none
    → p.status ≡ queued
    → count p.id q.pending + count_executions p.id q.executions ≡ 0
    → FitsAt k q
    → FitsAt k (enqueue up 1 now p.id (inserted p q)).0
unfolding find_row
inserted-FitsAt now p k q e s new h = elim (str_dec p.id k) [
  | yes same ↦ enqueue-FitsAt 1 now p.id k (inserted p q) (
      rw (if_pos _ same)
        (p, ground (arith, find_row-append k q.table (p ∷ [])), ground arith, ground arith, s))
  | no apart ↦
      enqueue-FitsAt 1 now p.id k (inserted p q)
        (rw (if_neg _ apart) (ground (arith, find_row-append k q.table (p ∷ []))))
]

pub submit-FitsAt :
    (now : ℕ) (fresh : String) (j : Job) (k : String) (q : Queue)
    → count (prepared now fresh j).id q.pending
        + count_executions (prepared now fresh j).id q.executions
      ≡ 0
    → FitsAt k q
    → FitsAt k (submit up now fresh j q).0
unfolding submit
submit-FitsAt now fresh j k q new h = elim (Bool-cases (q.runners j.kind)) [
  | inl e ↦ elim (create_cases now fresh (record j { status = queued }) q.table) [
    | inl (absent, c) ↦
        rw (e, c, submit)
          (inserted-FitsAt now (prepared now fresh (record j { status = queued })) k q absent refl
            new h)
    | inr (f, c) ↦ rw (e, c, submit) h
  ]
  | inr e ↦ rw (e, submit) h
]

pub emit-FitsAt :
    (now : ℕ) (x : Execution) (p : Progress) (k : String) (q : Queue)
    → FitsAt k q
    → FitsAt k (emit true now x p q)
unfolding emit save_progress send_progress set_progress
emit-FitsAt now x p k q h = ground (
  arith,
  find_row-update_row x.id k (with_progress now p.percent p.stage) q.table (λ j. refl),
  count-update x.id k (λ y. record y { last_db = some now }) q.executions (λ y. refl),
  count-update x.id k (λ y. record y { last_bus = some now }) q.executions (λ y. refl),
  count-update x.id k (λ y. record y { last_bus = some now })
      (update_execution x.id (λ y. record y { last_db = some now }) q.executions) (λ y. refl),
)

pub end_job-FitsAt :
    (id : String) (cause : Context) (k : String) (q : Queue)
    → FitsAt k q
    → FitsAt k (end_job cause id q)
unfolding end_job
end_job-FitsAt id cause k q h =
    ground (arith, count-update id k (with_context cause) q.executions (λ x. refl))
