-- ===== src/Api/Replies.antt =====
-- internal/api: the errors that the handlers answer with, and the way from an id to a job.
use aiofiles.Prelude.{ℕ, String, Bool, Result, ok, err}
use aiofiles.Jobs.Types.{Job}
use aiofiles.Jobs.Store.{Table, StoreError, not_found, get}

-- `writeError`: the status and the code; the message for the reader is left out.
pub record HttpError : Type 0 where
  pub status : ℕ
  pub code : String

abbrev pub Reply {ℓ} : Type ℓ → Type ℓ
Reply A = Result HttpError A

abbrev pub refuse {ℓ} : {A : Type ℓ} → ℕ → String → Reply A
refuse status code = err (record { status = status; code = code })

-- A row that is not there is told from a database that fails.
abbrev pub looked_up : Result StoreError Job → Reply Job
looked_up (ok j) = ok j
looked_up (err not_found) = refuse 404 "not_found"
looked_up (err _) = refuse 500 "internal_error"

unfoldable pub lookup : Bool → String → Table → Reply Job
unfolding get
lookup up id t = looked_up (get up id t)
