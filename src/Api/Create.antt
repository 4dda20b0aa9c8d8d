-- ===== src/Api/Create.antt =====
-- internal/api/handlers_jobs.go: parseParams and handleCreateJob, up to the submission and with the answer.
pub mod Accepted
use aiofiles.Prelude.{
  ℕ, ◌+◌, ◌*◌, String, Bool, true, false, not, List, [], ◌∷◌, if◌then◌else◌, str_eq, Option, none,
  some, Result, ok, err, ◌>>=◌,
}
use aiofiles.Prelude.Int.{ℤ, pos, pos_part, ltb_ℤ}
use aiofiles.Prelude.Bytes.{Bytes, same_codes, trim_by}
use aiofiles.Prelude.Paths.{path_base}
use aiofiles.Jobs.Types.{
  JobType, download, convert, compress, image, edit, other, valid, Job, unset, at,
}
use aiofiles.Jobs.Queue.{
  Queue, QueueError, queue_full, no_runner, store_error, not_cancelable, submit,
}
use aiofiles.Presets.Checks.{Checked, ValidationError, invalid, says, Decoder}
use aiofiles.Presets.Download.{DownloadParams, parse_download}
use aiofiles.Presets.Convert.{ConvertParams, parse_convert}
use aiofiles.Presets.Compress.{CompressParams, parse_compress}
use aiofiles.Presets.Image.{ImageParams, parse_image}
use aiofiles.Presets.Edit.{Seconds, EditParams, parse_edit}
use aiofiles.Presets.Source.{Lookup, validate_source_url}
use aiofiles.Uploads.{is_space, original_name}
use aiofiles.Uploads.Ids.{Disk, IdError, resolve_upload}

pub record CreateRequest : Type 0 where
  pub kind : String
  pub url : Bytes
  pub upload_id : List ℕ
  pub params : List ℕ

-- `jobs.Type` of a text.
unfoldable pub type_of : String → JobType
type_of s =
    if str_eq s "download"
    then download
    else if str_eq s "convert"
    then convert
    else if str_eq s "compress"
    then compress
    else if str_eq s "image"
    then image
    else if str_eq s "edit"
    then edit
    else other s

-- The answers of the handler other than 202.
pub data Refusal : Type 0 where
  bad_request : ValidationError → Refusal
  unavailable_full unavailable_no_runner internal_error : Refusal

module _ (F : Seconds) where
  -- The validated parameters of one of the types.
  pub data Validated : Type 0 where
    for_download : DownloadParams → Validated
    for_convert : ConvertParams → Validated
    for_compress : CompressParams → Validated
    for_image : ImageParams → Validated
    for_edit : EditParams F → Validated

  -- The decoder of each type, the side of a crop that is checked first, and `json.Marshal`.
  pub record Codec : Type 0 where
    pub of_download : Decoder DownloadParams
    pub of_convert : Decoder ConvertParams
    pub of_compress : Decoder CompressParams
    pub of_image : Decoder ImageParams
    pub of_edit : Decoder (EditParams F)
    pub w_first : Bool
    pub marshal : Validated → String

  unfoldable pub parse_params : Codec → JobType → List ℕ → ℤ → Checked (Validated × ℤ)
  parse_params c download raw days = do
    p ← parse_download c.of_download raw days
    ok (for_download p, p.retention_days)
  parse_params c convert raw days = do
    p ← parse_convert c.of_convert raw days
    ok (for_convert p, p.retention_days)
  parse_params c compress raw days = do
    p ← parse_compress c.of_compress raw days
    ok (for_compress p, p.retention_days)
  parse_params c image raw days = do
    p ← parse_image c.of_image raw days
    ok (for_image p, p.retention_days)
  parse_params c edit raw days = do
    p ← parse_edit F c.of_edit c.w_first raw days
    ok (for_edit p, p.retention_days)
  parse_params c (other s) raw days = invalid "type" (says "unsupported job type")

  -- What the handler has of the server and the standard library: `trim` is `strings.TrimSpace`, `encode` and `text`
  -- turn runes into bytes and bytes into a text, and `runes` turns bytes into runes.
  pub record Server : Type 0 where
    pub codec : Codec
    pub net : Lookup
    pub disk : Disk
    pub clean : Bytes → Bytes
    pub trim : String → String
    pub encode : List ℕ → Bytes
    pub runes : Bytes → List ℕ
    pub text : List ℕ → String
    pub upload_dir : Bytes
    pub default_days : ℤ

  -- Where a job starts from: its source, which is its title, and its input.
  pub record Origin : Type 0 where
    pub source : List ℕ
    pub input : Bytes

  unfoldable pub upload_origin : Server → Bytes → Origin
  unfolding original_name path_base
  upload_origin s path = record { source = original_name (s.runes (path_base path)); input = path }

  abbrev pub bad_upload : {A : Type 0} → Result IdError A → Checked A
  bad_upload (ok a) = ok a
  bad_upload (err e) = invalid "upload_id" (says "unknown or invalid upload")

  unfoldable pub upload_start : Server → CreateRequest → Checked Origin
  unfolding upload_origin resolve_upload trim_by
  upload_start s r =
      if same_codes (trim_by is_space r.upload_id) []
      then invalid "upload_id" (says "is required for this job type")
      else do
        path ← bad_upload (resolve_upload s.clean s.encode s.disk s.upload_dir r.upload_id)
        ok (upload_origin s path)

  -- A download starts from its address, any other job from an upload.
  unfoldable pub origin_of : Server → JobType → CreateRequest → Checked Origin
  unfolding upload_start validate_source_url
  origin_of s download r = do
    url ← validate_source_url s.net r.url
    ok (record { source = url; input = [] })
  origin_of s kind r = upload_start s r

  -- The job expires so many days after now, in milliseconds; zero days are for ever.
  abbrev pub expiry : ℕ → ℤ → Option ℕ
  expiry now days = if ltb_ℤ (pos 0) days then some (now + pos_part days * 86400000) else none

  abbrev pub new_job : Server → ℕ → JobType → Origin → Validated × ℤ → Job
  new_job s now kind o (v, days) = record {
    id = "";
    kind = kind;
    title = s.text o.source;
    source = s.text o.source;
    params = s.codec.marshal v;
    input_path = s.text o.input;
    output_path = "";
    output_name = "";
    output_size = 0;
    status = unset;
    progress = at 0;
    stage = "";
    error = "";
    created_at = 0;
    updated_at = 0;
    started_at = none;
    finished_at = none;
    expires_at = expiry now days;
  }

  -- The job that a request asks for, or what is wrong with the request.
  unfoldable pub requested_job : Server → ℕ → CreateRequest → Checked Job
  unfolding type_of origin_of parse_params
  requested_job s now r =
      let kind = type_of (s.trim r.kind) in
      if not (valid kind)
      then invalid "type" (says "must be download, convert, compress, image or edit")
      else do
        o ← origin_of s kind r
        v ← parse_params s.codec kind r.params s.default_days
        ok (new_job s now kind o v)

  -- A submission never fails with the error of a cancellation.
  abbrev pub answer : Queue × Option QueueError → Queue × Option Refusal
  answer (q, none) = (q, none)
  answer (q, some queue_full) = (q, some unavailable_full)
  answer (q, some (no_runner kind)) = (q, some unavailable_no_runner)
  answer (q, some (store_error e)) = (q, some internal_error)
  answer (q, some not_cancelable) = (q, some internal_error)

  -- `handleCreateJob`, of a body that decodes: nothing stands for the answer 202.
  unfoldable pub create_job :
      (ℕ → Bool) → Server → ℕ → String → CreateRequest → Queue → Queue × Option Refusal
  unfolding requested_job
  create_job db s now fresh r q = elim (requested_job s now r) [
    | err e ↦ (q, some (bad_request e))
    | ok j ↦ answer (submit db now fresh j q)
  ]
