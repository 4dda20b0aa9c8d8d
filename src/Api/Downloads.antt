-- ===== src/Api/Downloads.antt =====
-- internal/api/handlers_jobs.go: the download of an output, by Go or by nginx. Paths are bytes.
pub mod Served
use aiofiles.Prelude.{
  ℕ, ◌+◌, ◌/◌, ◌%◌, String, Bool, true, false, not, ◌&&◌, ◌||◌, List, [], ◌∷◌, ◌++◌, map, ◌==◌, leb,
  ltb, if◌then◌else◌, codes, str_eq, Option, none, some, Result, ok, err, ◌>>=◌,
}
use aiofiles.Prelude.Bytes.{Bytes, same_codes, has_prefix, has_byte, trim_right_by}
use aiofiles.Prelude.Paths.{path_ext, path_base}
use aiofiles.Prelude.Split.{split_at, join_by}
use aiofiles.Prelude.Cleaned.{abs_path, rel_path}
use aiofiles.Jobs.Types.{Job, done, status_eq}
use aiofiles.Jobs.Store.{Table}
use aiofiles.Api.Replies.{Reply, refuse, lookup}

-- `url.PathEscape`: the bytes that it leaves as they are, and the two digits of another.
abbrev pub is_plain : ℕ → Bool
is_plain c =
    (leb b'a' c && leb c b'z')
    || ((leb b'A' c && leb c b'Z')
        || ((leb b'0' c && leb c b'9') || has_byte c (codes "-_.~$&+=:@")))

abbrev pub hex_digit : ℕ → ℕ
hex_digit n = if ltb n 10 then b'0' + n else 55 + n

unfoldable pub path_escape : Bytes → Bytes
path_escape [] = []
path_escape (c ∷ s) =
    if is_plain c
    then c ∷ path_escape s
    else b'%' ∷ hex_digit (c / 16) ∷ hex_digit (c % 16) ∷ path_escape s

abbrev pub goes_up : Bytes → Bool
goes_up rel =
    same_codes rel (codes ".") || (same_codes rel (codes "..") || has_prefix rel (codes "../"))

unfoldable pub location : Bytes → Bytes → Bytes
unfolding path_escape split_at trim_right_by
location prefix rel =
    trim_right_by (λ c. c == b'/') prefix
    ++ (b'/' ∷ join_by b'/' (map path_escape (split_at b'/' rel)))

unfoldable pub accel_of : Bytes → Option (List Bytes) → Option (List Bytes) → Option Bytes
unfolding rel_path location
accel_of prefix none out = none
accel_of prefix (some root) none = none
accel_of prefix (some root) (some out) =
    if goes_up (rel_path root out) then none else some (location prefix (rel_path root out))

-- `cwd` is the working directory, if there is one.
unfoldable pub accel_path : Option Bytes → Bytes → Bytes → Bytes → Option Bytes
unfolding abs_path accel_of
accel_path cwd prefix root output = accel_of prefix (abs_path cwd root) (abs_path cwd output)

abbrev pub media_types : List (Bytes × Bytes)
media_types =
    (codes ".mp4", codes "video/mp4")
    ∷ (codes ".m4v", codes "video/mp4")
    ∷ (codes ".mov", codes "video/quicktime")
    ∷ (codes ".mkv", codes "video/x-matroska")
    ∷ (codes ".webm", codes "video/webm")
    ∷ (codes ".mp3", codes "audio/mpeg")
    ∷ (codes ".m4a", codes "audio/mp4")
    ∷ (codes ".aac", codes "audio/aac")
    ∷ (codes ".ogg", codes "audio/ogg")
    ∷ (codes ".opus", codes "audio/ogg")
    ∷ (codes ".wav", codes "audio/wav")
    ∷ (codes ".flac", codes "audio/flac")
    ∷ (codes ".heic", codes "image/heic")
    ∷ (codes ".heif", codes "image/heif")
    ∷ (codes ".avif", codes "image/avif")
    ∷ (codes ".tif", codes "image/tiff")
    ∷ (codes ".tiff", codes "image/tiff")
    ∷ (codes ".bmp", codes "image/bmp")
    ∷ []

abbrev pub octet_stream : Bytes
octet_stream = codes "application/octet-stream"

abbrev pub type_in : List (Bytes × Bytes) → Bytes → Option Bytes
type_in [] ext = none
type_in ((e, t) ∷ types) ext = if same_codes e ext then some t else type_in types ext

abbrev pub or_octets : Bytes → Bytes
or_octets [] = octet_stream
or_octets (c ∷ t) = c ∷ t

-- What the handler has of the settings and the system: `bytes` is the encoding of a text, `lower` is
-- `strings.ToLower`, `system_type` is `mime.TypeByExtension`, and `is_regular` is what `os.Stat` tells.
pub record Delivery : Type 0 where
  pub bytes : String → Bytes
  pub lower : Bytes → Bytes
  pub system_type : Bytes → Bytes
  pub is_regular : String → Bool
  pub cwd : Option Bytes
  pub xaccel_prefix : Bytes
  pub download_dir : Bytes

unfoldable pub content_type_for : Delivery → Bytes → Bytes
unfolding path_ext
content_type_for d name =
    let ext = d.lower (path_ext name) in
    elim (type_in media_types ext) [ some t ↦ t | none ↦ or_octets (d.system_type ext) ]

-- A location that nginx is told to send, with its type, or the path of a file that Go sends, with the type unless it
-- is the default.
pub data Sent : Type 0 where
  redirected : Bytes → Bytes → Sent
  streamed : String → Option Bytes → Sent

-- The name in the header, and how the file is sent.
pub record Download : Type 0 where
  pub name : Bytes
  pub sent : Sent

abbrev pub type_header : Bytes → Option Bytes
type_header t = if same_codes t octet_stream then none else some t

abbrev pub by_accel : String → Bytes → Option Bytes → Sent
by_accel output t (some target) = redirected target t
by_accel output t none = streamed output (type_header t)

unfoldable pub send : Delivery → String → Sent
unfolding accel_path content_type_for path_base
send d output =
    let path = d.bytes output in
    let t = content_type_for d (path_base path) in
    if same_codes d.xaccel_prefix []
    then streamed output (type_header t)
    else by_accel output t (accel_path d.cwd d.xaccel_prefix d.download_dir path)

unfoldable pub download_of : Delivery → Job → Reply Download
unfolding send path_base
download_of d j =
    if not (status_eq j.status done)
    then refuse 409 "not_ready"
    else if str_eq j.output_path ""
    then refuse 404 "no_output"
    else if not (d.is_regular j.output_path)
    then refuse 404 "file_missing"
    else ok (record { name = path_base (d.bytes j.output_path); sent = send d j.output_path })

unfoldable pub handle_download : Delivery → Bool → String → Table → Reply Download
unfolding download_of lookup
handle_download d up id t = do j ← lookup up id t; download_of d j
