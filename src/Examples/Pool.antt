-- ===== src/Examples/Pool.antt =====
-- The worker pool and the bus at concrete inputs.
use aiofiles.Prelude.{
  String, map, true, ◌≡◌, ◌≢◌, refl, none, some, [], ◌∷◌, str_dec, apart_by, arith,
}
use aiofiles.Examples.Samples.{old_job}
use aiofiles.Jobs.Types.{Job, Event, created, queued, running, terminal}
use aiofiles.Jobs.Store.{find_row}
use aiofiles.Jobs.Bus.{new_bus}
use aiofiles.Jobs.Queue.{Queue, new_queue, take}
use aiofiles.Jobs.Queue.Places.{FitsAt, Step, takes, up}
use aiofiles.Jobs.Queue.Invariant.{here, next, Reach-FitsAt}
use aiofiles.Jobs.Queue.Final.{IsKept, Step-IsKept}
use aiofiles.Jobs.Queue.Drain.{Works, drain}
use aiofiles.Jobs.Queue.Startup.{startup-FitsAt}
use aiofiles.Jobs.Queue.{resume}
use aiofiles.Jobs.Store.{interrupt, fail_interrupted}

abbrev waiting_job : Job
waiting_job = record old_job { id = "w"; status = queued }

-- One job waits, one has ended.
abbrev pool : Queue
pool = record (new_queue (old_job ∷ waiting_job ∷ []) new_bus 0) {
  runners = λ k. true;
  pending = "w" ∷ [];
}

pool-FitsAt : (k : String) → FitsAt k pool
unfolding find_row
pool-FitsAt k = ground (arith, apart_by "a" "w" refl)

drain_example :
    (q' : Queue) × Works 2 pool q'
    × ((k : String) (j : Job)
        → find_row k q'.table ≡ some j
        → (j.status ≢ queued) × (j.status ≢ running))
drain_example = drain 2 pool (omega arith) pool-FitsAt

Reach-FitsAt_example : FitsAt "w" (take up 7 pool)
Reach-FitsAt_example = Reach-FitsAt {n = 2} pool-FitsAt (next here (takes 7 (omega arith))) "w"

-- The job that waits is taken by a worker.
abbrev taking : Step 2 pool (take up 7 pool)
taking = takes 7 (omega arith)

Step-IsKept_example : IsKept "a" old_job taking
unfolding find_row str_dec terminal
Step-IsKept_example = Step-IsKept "a" old_job taking (pool-FitsAt "a") refl refl

abbrev news : Event
news = record { kind = created; job_id = "a"; job = none; progress = none }

abbrev cut_off : Job
cut_off = record old_job { id = "r"; status = running }

startup-FitsAt_example :
    FitsAt "w"
      (resume up 9 (new_queue (map (interrupt 8) (cut_off ∷ waiting_job ∷ [])) new_bus 1)).0
unfolding find_row str_dec fail_interrupted
startup-FitsAt_example =
    startup-FitsAt 8 9 1 1 new_bus (cut_off ∷ waiting_job ∷ []) (refl, (refl, tt)) refl "w"
