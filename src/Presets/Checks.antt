-- ===== src/Presets/Checks.antt =====
-- internal/presets/presets.go: the validation error and the checks that several job types share.
use aiofiles.Prelude.{
  ℕ, String, Bool, true, false, not, ◌&&◌, ◌||◌, ◌==◌, List, [], ◌∷◌, any, str_eq, if◌then◌else◌,
  Result, ok, err, ◌≡◌, inl, inr, Bool-cases,
}
use aiofiles.Prelude.Int.{ℤ, pos, negsuc}
use aiofiles.Presets.Tables.{Choice}

-- A reason: a fixed text, or a format with what stands in it.
pub data Reason : Type 0 where
  says : String → Reason
  not_allowed : String → Reason
  between : ℕ → ℕ → String → Reason
  no_settings : String → Reason
  not_writable : String → Reason

pub record ValidationError : Type 0 where
  pub field : String
  pub reason : Reason

abbrev pub Checked : Type 0 → Type 0
Checked A = Result ValidationError A

abbrev pub invalid {ℓ} : {A : Type ℓ} → String → Reason → Result ValidationError A
invalid f r = err (record { field = f; reason = r })

abbrev pub passes : Checked (Unit {0})
passes = ok tt

unfoldable pub is_one_of : String → List Choice → Bool
is_one_of v opts = any (λ o. str_eq o.value v) opts

unfoldable pub one_of : String → String → List Choice → Checked (Unit {0})
unfolding is_one_of
one_of field v opts = if is_one_of v opts then passes else invalid field (not_allowed v)

abbrev pub allowed_days : ℤ → Bool
allowed_days (pos n) = n == 0 || n == 1 || n == 7 || n == 30
allowed_days (negsuc n) = false

unfoldable pub check_retention : ℤ → Checked (Unit {0})
check_retention days =
    if allowed_days days
    then passes
    else invalid "retention_days" (says "must be one of 0, 1, 7, 30")

unfoldable pub default_audio_codec : String → String
default_audio_codec container = if str_eq container "webm" then "opus" else "aac"

pub check_webm : String → String → Checked (Unit {0})
check_webm vcodec acodec =
    if not (str_eq vcodec "vp9") && not (str_eq vcodec "av1")
    then invalid "container" (says "WebM accepts only VP9 or AV1 video")
    else if not (str_eq acodec "opus") && not (str_eq acodec "none")
    then invalid "audio_codec" (says "WebM accepts only Opus audio")
    else passes

pub check_mp4 : String → String → Checked (Unit {0})
check_mp4 vcodec acodec =
    if str_eq vcodec "vp9"
    then invalid "container" (says "VP9 is not supported in MP4/MOV here - use WebM or MKV")
    else if str_eq acodec "flac"
    then invalid "audio_codec" (says "FLAC is not supported in MP4/MOV - use MKV")
    else passes

unfoldable pub check_container_codec : String → String → String → Checked (Unit {0})
unfolding check_webm check_mp4
check_container_codec container vcodec acodec =
    if str_eq vcodec "copy" || str_eq acodec "copy"
    then passes
    else if str_eq container "webm"
    then check_webm vcodec acodec
    else if str_eq container "mp4" || str_eq container "mov"
    then check_mp4 vcodec acodec
    else passes

-- The JSON decoder is the package encoding/json: it writes the members of a text over a struct that
-- holds the defaults, and refuses a member that the struct does not have.
abbrev pub Decoder : Type 0 → Type 0
Decoder A = List ℕ → A → Result String A

unfoldable pub decode : {A : Type 0} → Decoder A → List ℕ → A → Checked A
decode json [] p = ok p
decode json (b ∷ raw) p = elim (json (b ∷ raw) p) [
  | ok q ↦ ok q
  | err text ↦ invalid "params" (says text)
]

pub one_of_sound :
    (field v : String) (opts : List Choice) → one_of field v opts ≡ ok tt → is_one_of v opts ≡ true
unfolding one_of
one_of_sound field v opts h = elim (Bool-cases (is_one_of v opts)) [
  | inl e ↦ e
  | inr e ↦ absurd (cc (rw (e, one_of) at h))
]
