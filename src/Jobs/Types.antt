-- ===== src/Jobs/Types.antt =====
-- internal/jobs/types.go: the job model, and the events of bus.go. Times are Unix milliseconds, as
-- the database keeps them.
use aiofiles.Prelude.{ℕ, String, Bool, true, false, Option, leb}

-- `other` is any text that is none of the five constants.
pub data JobType : Type 0 where
  download convert compress image edit : JobType
  other : String → JobType

pub JobType-discrete : Discrete JobType
JobType-discrete = hlevel aiofiles.Prelude.str_dec

unfoldable pub valid : JobType → Bool
valid (other _) = false
valid _ = true

-- `unset` is the empty text, the zero value.
pub data Status : Type 0 where
  unset queued running done failed canceled expired : Status

unfoldable pub terminal : Status → Bool
terminal done = true
terminal failed = true
terminal canceled = true
terminal expired = true
terminal _ = false

abbrev pub status_eq : Status → Status → Bool
status_eq unset unset = true
status_eq queued queued = true
status_eq running running = true
status_eq done done = true
status_eq failed failed = true
status_eq canceled canceled = true
status_eq expired expired = true
status_eq _ _ = false

-- A percentage in thousandths; the negative numbers, which mean "unknown", are one value.
pub data Percent : Type 0 where
  unknown : Percent
  at : ℕ → Percent

-- `p.Percent >= 100`
abbrev pub complete : Percent → Bool
complete unknown = false
complete (at n) = leb 100000 n

pub record Job : Type 0 where
  pub id : String
  pub kind : JobType
  pub title : String
  pub source : String
  pub params : String
  pub input_path : String
  pub output_path : String
  pub output_name : String
  pub output_size : ℕ
  pub status : Status
  pub progress : Percent
  pub stage : String
  pub error : String
  pub created_at : ℕ
  pub updated_at : ℕ
  pub started_at : Option ℕ
  pub finished_at : Option ℕ
  pub expires_at : Option ℕ

pub record Progress : Type 0 where
  pub percent : Percent
  pub stage : String
  pub speed : String
  pub eta : String

-- What a runner returns beside its error: the finished file, and a title that may be empty.
pub record RunOutput : Type 0 where
  pub output_path : String
  pub title : String

pub data EventKind : Type 0 where
  created progressed status_changed deleted : EventKind

pub record Event : Type 0 where
  pub kind : EventKind
  pub job_id : String
  pub job : Option Job
  pub progress : Option Progress
