-- ===== src/Examples/Rows.antt =====
-- The job store at concrete inputs.
use aiofiles.Prelude.{[], ◌∷◌}
use aiofiles.Examples.Samples.{old_job}
use aiofiles.Jobs.Types.{Job, queued, running}
use aiofiles.Jobs.Store.{Table, prepared}

abbrev run_job : Job
run_job = record old_job { id = "r"; status = running; created_at = 3 }

abbrev late_job : Job
late_job = record old_job { id = "q"; status = queued; created_at = 9; input_path = "/u/z" }

abbrev rows : Table
rows = old_job ∷ run_job ∷ late_job ∷ []

abbrev added : Job
added = prepared 12 "n" (record old_job { id = "" })
