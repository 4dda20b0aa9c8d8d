-- ===== src/Jobs/Store.antt =====
-- internal/jobs/store.go over the table `jobs` of internal/db/schema.sql. A table is its rows in the
-- order of their rowid, which is the order of insertion. A statement's Boolean argument `up` says
-- whether the database carries it out; a statement that fails changes nothing.
pub mod Laws
pub mod Order
use aiofiles.Prelude.{
  ℕ, zero, suc, ◌+◌, String, Bool, true, false, not, ◌&&◌, ◌||◌, Option, none, some, List, [], ◌∷◌,
  ◌++◌, map, ite, ltb, leb, ◌==◌, if◌then◌else◌, length, keep, any, take, Result, ok, err, ◌>>=◌,
  ◌>>◌, refuse_if, str_eq, str_dec, dec_lt,
}
use aiofiles.Jobs.Types.{
  Job, Status, unset, queued, running, failed, expired, terminal, status_eq, Percent,
}
use Prim.Native.String
use Prim.Native.Char.{code}

pub data StoreError : Type 0 where
  not_found database duplicate_id : StoreError

abbrev pub Table : Type 0
Table = List Job

-- The text behind the last slash, if there is one.
after_slash : String → Option String
after_slash String.[] = none
after_slash (String.◌∷◌ c s) = elim (after_slash s) [
  | some r ↦ some r
  | none ↦ if code c == b'/' then some s else none
]

unfoldable pub base_name : String → String
unfolding after_slash
base_name p = elim (after_slash p) [ some r ↦ r | none ↦ p ]

-- A row as `scanJob` reads it: the name shown is taken from the path.
abbrev pub scan_job : Job → Job
scan_job j = record j { output_name = base_name j.output_path }

unfoldable pub find_row : String → Table → Option Job
find_row id [] = none
find_row id (j ∷ t) = ite (str_dec j.id id) (some j) (find_row id t)

-- `UPDATE jobs SET … WHERE id = ?`
unfoldable pub update_row : String → (Job → Job) → Table → Table
update_row id f [] = []
update_row id f (j ∷ t) = ite (str_dec j.id id) (f j) j ∷ update_row id f t

unfoldable pub remove_row : String → Table → Table
remove_row id [] = []
remove_row id (j ∷ t) = ite (str_dec j.id id) (remove_row id t) (j ∷ remove_row id t)

-- `IS NOT NULL AND expires_at <= now`
abbrev pub due : ℕ → Option ℕ → Bool
due now none = false
due now (some e) = leb e now

abbrev pub coalesce : Option ℕ → Option ℕ → Option ℕ
coalesce (some n) old = some n
coalesce none old = old

-- The fields that `Create` fills in before the insertion.
abbrev pub prepared : ℕ → String → Job → Job
prepared now fresh j = record j {
  id = if str_eq j.id "" then fresh else j.id;
  created_at = now;
  updated_at = now;
  status = if status_eq j.status unset then queued else j.status;
  params = if str_eq j.params "" then "{}" else j.params;
}

-- `insert` fails on an id that is there, which is the table's primary key.
unfoldable pub insert_row : Job → Table → Result StoreError Table
unfolding find_row
insert_row j t = elim (find_row j.id t) [ some _ ↦ err duplicate_id | none ↦ ok (t ++ j ∷ []) ]

unfoldable pub create : Bool → ℕ → String → Job → Table → Result StoreError (Job × Table)
unfolding insert_row
create up now fresh j t = do
  let j' = prepared now fresh j
  refuse_if (not up) database
  t' ← insert_row j' t
  ok (j', t')

unfoldable pub get : Bool → String → Table → Result StoreError Job
unfolding find_row
get up id t = do
  refuse_if (not up) database
  elim (find_row id t) [ some j ↦ ok (scan_job j) | none ↦ err not_found ]

-- The columns that `SetStatus` writes.
abbrev pub with_status : ℕ → Status → String → Job → Job
with_status now st text j = record j {
  status = st;
  error = text;
  updated_at = now;
  started_at = coalesce (if status_eq st running then some now else none) j.started_at;
  finished_at =
      coalesce (if not (status_eq st running) && terminal st then some now else none) j.finished_at;
}

abbrev pub with_progress : ℕ → Percent → String → Job → Job
with_progress now pct stage j = record j { progress = pct; stage = stage; updated_at = now }

abbrev pub with_output : ℕ → String → String → ℕ → Job → Job
with_output now path name size j = record j {
  output_path = path;
  output_size = size;
  title = if str_eq name "" then j.title else name;
  updated_at = now;
}

-- A failed update leaves the table alone; its error is the Boolean of the result.
unfoldable pub set_status : Bool → ℕ → String → Status → String → Table → Table
set_status up now id st text t = if up then update_row id (with_status now st text) t else t

unfoldable pub set_progress : Bool → ℕ → String → Percent → String → Table → Table
set_progress up now id pct stage t = if up then update_row id (with_progress now pct stage) t else t

unfoldable pub set_output : Bool → ℕ → String → String → String → ℕ → Table → Table
set_output up now id path name size t =
    if up then update_row id (with_output now path name size) t else t

unfoldable pub delete : Bool → String → Table → Result StoreError Table
unfolding find_row remove_row
delete up id t = do
  refuse_if (not up) database
  elim (find_row id t) [ some _ ↦ ok (remove_row id t) | none ↦ err not_found ]

unfoldable pub expired_jobs : Bool → ℕ → Table → Result StoreError (List Job)
expired_jobs up now t = do
  refuse_if (not up) database
  ok (map scan_job (keep (λ j. due now j.expires_at && not (status_eq j.status expired)) t))

abbrev pub interrupt : ℕ → Job → Job
interrupt now j =
    if status_eq j.status running
    then record j { status = failed; error = "interrupted by restart"; updated_at = now }
    else j

unfoldable pub fail_interrupted : Bool → ℕ → Table → Result StoreError (ℕ × Table)
fail_interrupted up now t = do
  refuse_if (not up) database
  ok (length (keep (λ j. status_eq j.status running) t), map (interrupt now) t)

-- The set of paths, as a test.
unfoldable pub input_paths : Bool → Table → Result StoreError (List String)
input_paths up t = do
  refuse_if (not up) database
  ok (map (λ j. j.input_path) (keep (λ j. not (str_eq j.input_path "")) t))

unfoldable pub input_path_shared : Bool → String → String → Table → Result StoreError Bool
input_path_shared up path except t = if str_eq path "" then ok false else do
  refuse_if (not up) database
  ok (any (λ j. str_eq j.input_path path && not (str_eq j.id except)) t)

-- `ORDER BY key` of rows that come in the order of the second sort key: a stable insertion sort.
unfoldable pub insert_by : (Job → Job → Bool) → Job → List Job → List Job
insert_by before j [] = j ∷ []
insert_by before j (k ∷ l) = if before k j then k ∷ insert_by before j l else j ∷ k ∷ l

unfoldable pub sort_by : (Job → Job → Bool) → List Job → List Job
unfolding insert_by
sort_by before [] = []
sort_by before (j ∷ l) = insert_by before j (sort_by before l)

-- The newest row first.
unfoldable pub newest_first : Table → Table
newest_first [] = []
newest_first (j ∷ t) = newest_first t ++ j ∷ []

abbrev pub list_limit : ℕ → ℕ
list_limit n = if leb n 0 || ltb 500 n then 200 else n

unfoldable pub list : Bool → Status → ℕ → Table → Result StoreError (List Job)
unfolding sort_by newest_first
list up status limit t = do
  refuse_if (not up) database
  let rows = if status_eq status unset then t else keep (λ j. status_eq j.status status) t
  ok (
      map scan_job (
        take (list_limit limit)
          (sort_by (λ j k. ltb k.created_at j.created_at) (newest_first rows))))

unfoldable pub queued_ids : Bool → Table → Result StoreError (List String)
unfolding sort_by
queued_ids up t = do
  refuse_if (not up) database
  ok (
      map (λ j. j.id)
        (sort_by (λ j k. ltb j.created_at k.created_at) (keep (λ j. status_eq j.status queued) t)))
