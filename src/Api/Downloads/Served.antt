-- ===== src/Api/Downloads/Served.antt =====
-- That only the finished output of a job is sent, and that nginx is told of nothing outside the directory of outputs.
use aiofiles.Prelude.{
  String, Bool, true, false, not, ◌≡◌, ◌≢◌, refl, sym, ap, ◌∙◌, inl, inr, List, [], ◌∷◌, ◌++◌, map,
  All, ◌==◌, str_eq, Option, none, some, ok, err, Bool-cases, some_injective, >>=-ok, ok-injective,
  if◌then◌else◌,
}
use mathlib.Core.Path.{subst}
use aiofiles.Prelude.Bytes.{Bytes, same_codes, same_codes-eq, trim_right_by}
use aiofiles.Prelude.Split.{split_at, join_by, Without, split_at-join_by}
use aiofiles.Prelude.Cleaned.{
  dots, abs_path, abs_path-Without, rel_elements, rel_path, or_dot, starts_up, rel_elements-below,
}
use aiofiles.Jobs.Types.{
  Job, Status, unset, queued, running, done, failed, canceled, expired, status_eq,
}
use aiofiles.Jobs.Store.{Table}
use aiofiles.Api.Replies.{HttpError, lookup}
use aiofiles.Prelude.Paths.{path_base}
use aiofiles.Api.Downloads.{
  path_escape, goes_up, location, accel_of, accel_path, Delivery, Sent, redirected, streamed,
  Download, send, download_of, handle_download, by_accel, content_type_for, type_header,
}

-- A location under the prefix whose elements are those of the output behind the ones of the directory, escaped.
abbrev pub IsBelow : Option Bytes → Bytes → Bytes → Bytes → Bytes → Type 0
IsBelow cwd prefix root output target =
    (base rest : List Bytes) × (abs_path cwd root ≡ some base)
    × (abs_path cwd output ≡ some (base ++ rest))
    × (rest ≢ [])
    × (target
        ≡ trim_right_by (λ c. c == b'/') prefix ++ (b'/' ∷ join_by b'/' (map path_escape rest)))

goes_up-starts_up : (ls : List Bytes) → starts_up ls ≡ true → goes_up (or_dot ls) ≡ true
goes_up-starts_up [] h = refl
goes_up-starts_up (l ∷ []) h = rw (same_codes-eq l dots h) refl
goes_up-starts_up (l ∷ m ∷ ls) h = rw (same_codes-eq l dots h) refl

stays : (ls : List Bytes) → goes_up (or_dot ls) ≡ false → starts_up ls ≡ false
stays ls h = elim (Bool-cases (starts_up ls)) [
  | inl e ↦ cc (sym (goes_up-starts_up ls e) ∙ h)
  | inr e ↦ e
]

All-rest : (base rest : List Bytes) → All (Without b'/') (base ++ rest) → All (Without b'/') rest
All-rest [] rest h = h
All-rest (l ∷ base) rest (_, h) = All-rest base rest h

split_again :
    (ls : List Bytes)
    → All (Without b'/') ls
    → goes_up (or_dot ls) ≡ false
    → (split_at b'/' (or_dot ls) ≡ ls) × (ls ≢ [])
split_again [] h k = cc
split_again (l ∷ ls) (h, hs) k = (split_at-join_by b'/' l ls h hs, λ e. cc)

accel_of-some :
    (prefix target : Bytes) (root out : Option (List Bytes))
    → accel_of prefix root out ≡ some target
    → (base ls : List Bytes) × (root ≡ some base)
      × (out ≡ some ls)
      × (goes_up (rel_path base ls) ≡ false)
      × (location prefix (rel_path base ls) ≡ target)
unfolding accel_of
accel_of-some prefix target none out h = absurd cc
accel_of-some prefix target (some base) none h = absurd cc
accel_of-some prefix target (some base) (some ls) h =
    elim (Bool-cases (goes_up (rel_path base ls))) [
      | inl e ↦ absurd (cc (rw e at h))
      | inr e ↦ (base, ls, refl, refl, e, some_injective (rw e at h))
    ]

-- A location that nginx is told of is that of a file below the directory.
pub accel_path-IsBelow :
    (cwd : Option Bytes) (prefix root output target : Bytes)
    → accel_path cwd prefix root output ≡ some target
    → IsBelow cwd prefix root output target
unfolding accel_path location rel_path
accel_path-IsBelow cwd prefix root output target h =
    let (base, ls, e, f, up, same) =
      accel_of-some prefix target (abs_path cwd root) (abs_path cwd output) h in
    let rest = rel_elements base ls in
    let whole = rel_elements-below base ls (stays rest up) in
    let plain =
      All-rest base rest (subst (All (Without b'/')) whole (abs_path-Without cwd output f)) in
    let (parts, filled) = split_again rest plain up in
    (
      base,
      rest,
      e,
      f ∙ ap some whole,
      filled,
      sym same
          ∙ ap
              (λ l.
                trim_right_by (λ c. c == b'/') prefix ++ (b'/' ∷ join_by b'/' (map path_escape l)))
              parts,
    )

-- What is sent is the file of the output: by its own path, or by a location for it.
abbrev pub SentFrom : Delivery → String → Sent → Type 0
SentFrom d output (redirected target t) =
    IsBelow d.cwd d.xaccel_prefix d.download_dir (d.bytes output) target
SentFrom d output (streamed path t) = path ≡ output

by_accel-SentFrom :
    (d : Delivery) (output : String) (t : Bytes) (o : Option Bytes)
    → accel_path d.cwd d.xaccel_prefix d.download_dir (d.bytes output) ≡ o
    → SentFrom d output (by_accel output t o)
by_accel-SentFrom d output t none h = refl
by_accel-SentFrom d output t (some target) h =
    accel_path-IsBelow d.cwd d.xaccel_prefix d.download_dir (d.bytes output) target h

send-SentFrom : (d : Delivery) (output : String) → SentFrom d output (send d output)
unfolding send
send-SentFrom d output =
    by_prefix (same_codes d.xaccel_prefix []) (content_type_for d (path_base (d.bytes output)))
  where
    by_prefix :
        (b : Bool) (t : Bytes)
        → SentFrom d output (
            if b
            then streamed output (type_header t)
            else by_accel output t
                (accel_path d.cwd d.xaccel_prefix d.download_dir (d.bytes output)))
    by_prefix true t = refl
    by_prefix false t = by_accel-SentFrom d output t _ refl

status_eq-done : (s : Status) → status_eq s done ≡ true → s ≡ done
status_eq-done unset h = cc
status_eq-done queued h = cc
status_eq-done running h = cc
status_eq-done done h = refl
status_eq-done failed h = cc
status_eq-done canceled h = cc
status_eq-done expired h = cc

gates :
    (a b c : Bool) (x y z : HttpError) (f : Download) {file : Download}
    → (if not a then err x else if b then err y else if not c then err z else ok f) ≡ ok file
    → (a ≡ true) × (c ≡ true) × (f ≡ file)
gates false b c x y z f h = absurd cc
gates true true c x y z f h = absurd cc
gates true false false x y z f h = absurd cc
gates true false true x y z f h = (refl, refl, ok-injective h)

-- What a download sends is the output of the job, which is done, and a regular file: Go sends the file at the output's
-- own path, and a location for nginx is that of the output below the directory of outputs. The name is the last
-- element of the path.
pub handle_download-SentFrom :
    (d : Delivery) (up : Bool) (id : String) (t : Table) {file : Download}
    → handle_download d up id t ≡ ok file
    → (j : Job) × (lookup up id t ≡ ok j)
      × (j.status ≡ done)
      × (d.is_regular j.output_path ≡ true)
      × (file.name ≡ path_base (d.bytes j.output_path))
      × SentFrom d j.output_path file.sent
unfolding handle_download download_of
handle_download-SentFrom d up id t {file} h =
    let (j, e, k) = >>=-ok (lookup up id t) _ h in
    let (a, b, same) =
      gates (status_eq j.status done) (str_eq j.output_path "") (d.is_regular j.output_path) _ _ _ _
        k in
    (
      j,
      e,
      status_eq-done j.status a,
      b,
      sym (ap (λ (f : Download). f.name) same),
      subst (λ (f : Download). SentFrom d j.output_path f.sent) same
          (send-SentFrom d j.output_path),
    )
