-- ===== src/Api/Handlers.antt =====
-- internal/api: decodeJSON of respond.go, the handlers of handlers_meta.go, and the short ones of handlers_jobs.go.
pub mod Slots
use aiofiles.Prelude.{
  ℕ, String, Bool, true, false, not, ◌&&◌, ◌||◌, List, [], ◌∷◌, if◌then◌else◌, codes, str_eq,
  Option, none, some, Result, ok, err, ◌>>=◌, ◌>>◌,
}
use aiofiles.Prelude.Int.{ℤ, pos, negsuc}
use aiofiles.Prelude.Bytes.{Bytes}
use aiofiles.Jobs.Types.{Job, Status}
use aiofiles.Jobs.Store as Store
use aiofiles.Jobs.Store.{Table}
use aiofiles.Jobs.Queue.{Queue, QueueError, cancel}
use aiofiles.Presets.Checks.{ValidationError, Checked, invalid, says}
use aiofiles.Presets.Source.{Lookup, validate_source_url}
use aiofiles.Auth.Manager.{Manager, LoginError, bad_credentials, rate_limit, internal}
use aiofiles.Runner.Numerals.{atoi}
use aiofiles.Api.ProbeLimit.{ProbeLimiter, acquire, release}
use aiofiles.Api.Replies.{HttpError, Reply, refuse, lookup}

-- What is wrong with a request, or the error of a handler.
pub data Problem : Type 0 where
  invalid_params : ValidationError → Problem
  problem : HttpError → Problem

abbrev pub checked : {A : Type 0} → Checked A → Result Problem A
checked (ok a) = ok a
checked (err e) = err (invalid_params e)

abbrev pub replied : {A : Type 0} → Reply A → Result Problem A
replied (ok a) = ok a
replied (err e) = err (problem e)

-- What becomes of a body: `media_type` is what `mime.ParseMediaType` gives.
pub data Body (A : Type 0) : Type 0 where
  decoded : A → Body A
  too_large malformed : Body A

unfoldable pub decode_json : {A : Type 0} → Option String → Body A → Reply A
decode_json none body = refuse 415 "unsupported_media_type"
decode_json (some media_type) body =
    if not (str_eq media_type "application/json")
    then refuse 415 "unsupported_media_type"
    else elim body [
      | decoded a ↦ ok a
      | too_large ↦ refuse 413 "body_too_large"
      | malformed ↦ refuse 400 "invalid_json"
    ]

abbrev bad_limit : Checked ℕ
bad_limit = invalid "limit" (says "must be a non-negative integer")

abbrev pub natural : ℤ × Bool → Checked ℕ
natural (pos n, true) = ok n
natural (negsuc n, true) = bad_limit
natural (n, false) = bad_limit

-- The limit of a query, which is 0 if it is not given.
abbrev pub limit_of : Bytes → Checked ℕ
unfolding atoi
limit_of [] = ok 0
limit_of (c ∷ v) = natural (atoi (c ∷ v))

abbrev pub listed : {A : Type 0} → Result Store.StoreError A → Reply A
listed (ok a) = ok a
listed (err e) = refuse 500 "internal_error"

-- The status of the query is trimmed by the caller.
unfoldable pub handle_list_jobs : Bool → Status → Bytes → Table → Result Problem (List Job)
unfolding Store.list limit_of
handle_list_jobs up status limit t = do
  n ← checked (limit_of limit)
  replied (listed (Store.list up status n t))

unfoldable pub handle_get_job : Bool → String → Table → Reply Job
unfolding lookup
handle_get_job up id t = lookup up id t

-- The answer 202 carries the id.
abbrev pub canceled : String → Queue × Option QueueError → Queue × Reply String
canceled id (q, none) = (q, ok id)
canceled id (q, some e) = (q, refuse 409 "not_cancelable")

abbrev pub cancel_found : Queue → Reply Job → Queue × Reply String
unfolding cancel
cancel_found q (err e) = (q, err e)
cancel_found q (ok j) = canceled j.id (cancel j.id q)

unfoldable pub handle_cancel_job : Bool → String → Queue → Queue × Reply String
unfolding cancel_found lookup
handle_cancel_job up id q = cancel_found q (lookup up id q.table)

-- The answer to a login: success, or the error for it.
unfoldable pub login_reply : {A : Type 0} → Result LoginError A → Reply (Unit {0})
login_reply (ok _) = ok tt
login_reply (err bad_credentials) = refuse 401 "invalid_credentials"
login_reply (err rate_limit) = refuse 429 "too_many_attempts"
login_reply (err (internal e)) = refuse 500 "internal_error"

-- What a lookup by yt-dlp ends with: the information, an error, or our own deadline.
pub data Probed (A : Type 0) : Type 0 where
  told : A → Probed A
  probe_failed timed_out : Probed A

abbrev pub probe_reply : {A : Type 0} → Probed A → Reply A
probe_reply (told a) = ok a
probe_reply probe_failed = refuse 502 "probe_failed"
probe_reply timed_out = refuse 504 "probe_timeout"

-- The lookup between the claim of a slot and its release, which is deferred.
abbrev pub probe_in_slot : {A : Type 0} → Probed A → ProbeLimiter × Bool → ProbeLimiter × Reply A
unfolding release
probe_in_slot p (l, false) = (l, refuse 429 "probe_busy")
probe_in_slot p (l, true) = (release l, probe_reply p)

abbrev pub probe_checked :
    {A : Type 0}
    → ℕ
    → Option (Bytes → Probed A)
    → ProbeLimiter
    → Checked Bytes
    → ProbeLimiter × Result Problem A
unfolding acquire probe_in_slot
probe_checked now prober l (err e) = (l, err (invalid_params e))
probe_checked now none l (ok u) =
    (l, err (problem (record { status = 503; code = "probe_unavailable" })))
probe_checked now (some probe) l (ok u) =
    let (l', r) = probe_in_slot (probe u) (acquire now l) in (l', replied r)

-- `handleProbe`, of a body that decodes, when no other request comes between.
unfoldable pub handle_probe :
    {A : Type 0}
    → Lookup
    → ℕ
    → Option (Bytes → Probed A)
    → Bytes
    → ProbeLimiter
    → ProbeLimiter × Result Problem A
unfolding validate_source_url probe_checked
handle_probe net now prober url l = probe_checked now prober l (validate_source_url net url)
