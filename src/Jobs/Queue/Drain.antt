-- ===== src/Jobs/Queue/Drain.antt =====
-- The worker pool can always come to rest.
use aiofiles.Prelude.{
  ℕ, zero, suc, ◌≤◌, ◌<◌, String, ◌≡◌, refl, ap, ◌∙◌, ◌≢◌, some, List, [], ◌∷◌, Result, err, arith,
  Option-cases, list_cases, inl, inr, length, if_pos,
}
use mathlib.Core.Path.{subst}
use aiofiles.Jobs.Types.{Job, Status, queued, running}
use aiofiles.Jobs.Store.{find_row, get}
use aiofiles.Jobs.Queue.{
  Queue, Execution, RunResult, broke, find_execution, drop_execution, finish, begin, take,
  failure_status, failure_text, fresh_execution, kind_text,
}
use Prim.Native.String.{◌++◌ as ◌<>◌}
use aiofiles.Jobs.Types.{failed}
use aiofiles.Jobs.Queue.Places.{
  FitsAt, Fits, FitsStatus, count, count_executions, up, Step, takes, finishes, settle_rest,
}
use aiofiles.Jobs.Queue.Invariant.{Reach, here, next, Reach-FitsAt}

-- What the workers do by themselves: one that is free takes the job at the head of the channel, or a run ends.
pub data Work (n : ℕ) (q : Queue) : Queue → Type 0 where
  taken : (now : ℕ) → length q.executions < n → Work n q (take up now q)
  finished :
      (now : ℕ) (limit : String) (x : Execution) (r : RunResult) (stat : Result String ℕ)
      → find_execution x.id q.executions ≡ some x
      → Work n q (finish up now limit x r stat q).0

pub data Works (n : ℕ) (q : Queue) : Queue → Type 0 where
  idle : Works n q q
  then : {r s : Queue} → Works n q r → Work n r s → Works n q s

Works-trans : {n : ℕ} {q r s : Queue} → Works n q r → Works n r s → Works n q s
Works-trans a idle = a
Works-trans a (then b t) = then (Works-trans a b) t

Work-Step : {n : ℕ} {q r : Queue} → Work n q r → Step n q r
Work-Step (taken now room) = takes now room
Work-Step (finished now limit x r stat f) = finishes now limit x r stat f

Works-Reach : {n : ℕ} {q r : Queue} → Works n q r → Reach n q r
Works-Reach idle = here
Works-Reach (then a t) = next (Works-Reach a) (Work-Step t)

-- The run of a job ends in an error.
abbrev ended : Execution → Queue → Queue
ended x q = (finish up 0 "" x (broke "" "") (err "") q).0

ended_rest :
    (x : Execution) (q : Queue)
    → ((ended x q).executions ≡ drop_execution x.id q.executions)
      × ((ended x q).pending ≡ q.pending)
unfolding finish
ended_rest x q =
    ground
      (arith, settle_rest 0 0 x.id x.id (failure_status x.context) (failure_text x.context "" "") q)

length-drop_execution-le :
    (id : String) (l : List Execution) → length (drop_execution id l) ≤ length l
unfolding drop_execution
length-drop_execution-le id [] = omega arith
length-drop_execution-le id (x ∷ l) = ground (arith, length-drop_execution-le id l)

drop_head : (x : Execution) (l : List Execution) → length (drop_execution x.id (x ∷ l)) ≤ length l
unfolding drop_execution
drop_head x l = rw (if_pos _ refl) (length-drop_execution-le x.id l)

find_head : (x : Execution) (l : List Execution) → find_execution x.id (x ∷ l) ≡ some x
unfolding find_execution
find_head x l = ground arith

module _ (n : ℕ) (workers : 0 < n) where
  finish_all :
      (m : ℕ) (q : Queue)
      → length q.executions ≤ m
      → (q' : Queue) × Works n q q' × (q'.executions ≡ []) × (q'.pending ≡ q.pending)
  finish_all zero q h = (q, idle, ground arith, refl)
  finish_all (suc m) q h = elim (list_cases q.executions) [
    | inl e ↦ (q, idle, e, refl)
    | inr (x, l, e) ↦
        let (gone, same) = ended_rest x q in
        let (q', r, a, b) =
          finish_all m (ended x q) (rw (gone, e) (omega (arith, drop_head x l, ap length e))) in
        (
          q',
          Works-trans (then idle (finished 0 "" x (broke "" "") (err "") (rw e (find_head x l)))) r,
          a,
          b ∙ same,
        )
  ]

  begin_rest : (id : String) (q : Queue) → (begin up 0 id q).pending ≡ q.pending
  unfolding begin get
  begin_rest id q = elim (Option-cases (find_row id q.table)) [
    | inl e ↦ ground arith
    | inr (j, e) ↦ ground (
      arith,
      settle_rest 1 0 id id running ""
          (record q { executions = fresh_execution id j.kind ∷ q.executions }),
      settle_rest 1 0 id id failed ("no runner registered for job type: " <> kind_text j.kind) q,
    )
  ]

  take_rest :
      (id : String) (rest : List String) (q : Queue)
      → q.pending ≡ id ∷ rest
      → (take up 0 q).pending ≡ rest
  unfolding take
  take_rest id rest q e = rw (e, take) (begin_rest id (record q { pending = rest }))

  drain_all :
      (m : ℕ) (q : Queue)
      → length q.pending ≤ m
      → q.executions ≡ []
      → (q' : Queue) × Works n q q' × (q'.executions ≡ []) × (q'.pending ≡ [])
  drain_all zero q h none_runs = (q, idle, none_runs, ground arith)
  drain_all (suc m) q h none_runs = elim (list_cases q.pending) [
    | inl e ↦ (q, idle, none_runs, e)
    | inr (id, rest, e) ↦
        let (p, r, a, b) =
          finish_all (length (take up 0 q).executions) (take up 0 q) (omega arith) in
        let (q', r', a', b') =
          drain_all m p (rw (b, take_rest id rest q e) (omega (arith, ap length e))) a in
        (q', Works-trans (Works-trans (then idle (taken 0 (rw none_runs workers))) r) r', a', b')
  ]

at_rest :
    (q : Queue) (k : String) (j : Job)
    → FitsAt k q
    → q.executions ≡ []
    → q.pending ≡ []
    → find_row k q.table ≡ some j
    → (j.status ≢ queued) × (j.status ≢ running)
at_rest q k j h none_runs empty e = rest_status j.status (
    subst (λ o. Fits o 0 0) e
      (subst (λ l. Fits (find_row k q.table) 0 (count_executions k l)) none_runs
        (subst (λ l. Fits (find_row k q.table) (count k l) (count_executions k q.executions)) empty
          h)))
  where
    rest_status : (s : Status) → FitsStatus s 0 0 → (s ≢ queued) × (s ≢ running)
    rest_status queued f = absurd (omega arith)
    rest_status running f = absurd (omega arith)
    rest_status _ f = (λ c. cc, λ c. cc)

-- With at least one worker, from every state in which each job has its place, takes from the channel and ends of runs
-- alone, without a cancellation or a deletion, lead to a state in which no job is queued or running.
pub drain :
    (n : ℕ) (q : Queue)
    → 0 < n
    → ((k : String) → FitsAt k q)
    → (q' : Queue) × Works n q q'
      × ((k : String) (j : Job)
          → find_row k q'.table ≡ some j
          → (j.status ≢ queued) × (j.status ≢ running))
drain n q workers h =
    let (p, r, a, _) = finish_all n workers (length q.executions) q (omega arith) in
    let (q', r', a', b') = drain_all n workers (length p.pending) p (omega arith) a in
    let all = Works-trans r r' in
    (q', all, λ k j e. at_rest q' k j (Reach-FitsAt h (Works-Reach all) k) a' b' e)
