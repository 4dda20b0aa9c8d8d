-- ===== src/Examples/Sweep.antt =====
-- The sweeper, the deletion and the patterns of names at concrete inputs.
use aiofiles.Prelude.{
  Bool, String, true, false, ◌≡◌, refl, none, some, [], ◌∷◌, str_eq, any, not, ◌&&◌, str_dec,
}
use aiofiles.Jobs.Types.{Job, convert}
use aiofiles.Examples.Samples.{old_job}
use aiofiles.Jobs.Store.{expired_jobs, find_row, remove_row, base_name, input_paths, delete}
use aiofiles.Jobs.Bus.{new_bus}
use aiofiles.Jobs.Queue.{Queue, new_queue, fresh_execution}
use aiofiles.Retention.{
  Sweeper, World, Luck, sweep_once, sweep_jobs, sweep_job, sweep_uploads, accepted, handle_delete,
}
use aiofiles.Retention.Inputs.{on_disk, carried, sweep_once-kept}
use aiofiles.Retention.Window.{is_due, sweep_once_complete}
use aiofiles.Retention.Deletion.{IsStopped, IsUnlinked, handle_delete-unlinks}

-- Two jobs with the same upload; the first is past its expiry.
abbrev new_job : Job
new_job = record old_job { id = "b"; output_path = "/d/b"; expires_at = none }

abbrev world : World
world = record {
  table = old_job ∷ new_job ∷ [];
  bus = new_bus;
  files = "/u/x" ∷ "/d/a" ∷ "/d/b" ∷ "/u/y" ∷ [];
}

abbrev luck : Luck
luck = record {
  may = λ p. true;
  up_expired = true;
  up_shared = λ id. true;
  up_delete = carried;
  up_paths = true;
  dir = "/u";
  entries = some (
      record { name = "x"; regular = true; info = some (0, 5) }
      ∷ record { name = "y"; regular = true; info = some (0, 6) }
      ∷ []);
}

abbrev sweeper : Sweeper
sweeper = record { reports = true; upload_dir = "/u"; upload_grace = 3 }

sweep_once-kept_example : on_disk "/u/x" (sweep_once sweeper luck 20 world).0.files ≡ true
unfolding sweep_once sweep_jobs sweep_job sweep_uploads expired_jobs find_row remove_row base_name
    input_paths delete str_dec
sweep_once-kept_example =
    sweep_once-kept sweeper luck 20 "/u/x" world (old_job ∷ []) refl refl refl refl refl refl

sweep_once_complete_example :
    (any (is_due 20) (sweep_once sweeper luck 20 world).0.table ≡ false)
    × ((p : Job → Bool)
        → any p (sweep_once sweeper luck 20 world).0.table
          ≡ any
              (λ j. p j && not (any (λ (e : Job). str_eq e.id j.id && is_due 20 e) world.table))
              world.table)
sweep_once_complete_example = sweep_once_complete sweeper luck 20 world refl refl

-- A queue that runs the job "a".
abbrev busy : Queue
busy = record (new_queue world.table new_bus 0) { executions = fresh_execution "a" convert ∷ [] }

-- The input of the job "b", which stays, is gone.
handle_delete-unlinks_example :
    let r = handle_delete (λ p. true) true true "a" (busy, world.files) in
    (r.1 ≡ accepted)
    × (find_row "a" r.0.0.table ≡ none)
    × ((k : String) → ¬ ("a" ≡ k) → find_row k r.0.0.table ≡ find_row k busy.table)
    × IsStopped "a" r.0.0.executions
    × IsUnlinked "/u/x" r.0.1
    × IsUnlinked "/d/a" r.0.1
unfolding find_row str_dec
handle_delete-unlinks_example =
    handle_delete-unlinks (λ p. true) "a" busy world.files {j = old_job} refl refl refl
