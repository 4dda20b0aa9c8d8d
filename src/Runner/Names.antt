-- ===== src/Runner/Names.antt =====
-- internal/runner/exec.go: the names of output files, as bytes.
pub mod Safe
pub mod Unique
pub mod Ends
use aiofiles.Prelude.{
  ℕ, zero, suc, ◌+◌, Bool, true, false, not, ◌&&◌, ◌||◌, List, [], ◌∷◌, ◌++◌, ◌==◌, leb, ltb,
  if◌then◌else◌, length, take, codes, Option, none, some,
}
use aiofiles.Prelude.Bytes.{Bytes, same_codes, has_prefix, trim_by}

abbrev pub max_slug_len : ℕ
max_slug_len = 80

abbrev pub tag_len : ℕ
tag_len = 2

abbrev pub max_name_attempts : ℕ
max_name_attempts = 16

-- The bytes that `sanitizeName` keeps: `[A-Za-z0-9._]`.
abbrev pub is_kept : ℕ → Bool
is_kept c =
    (leb b'a' c && leb c b'z')
    || (leb b'A' c && leb c b'Z')
    || (leb b'0' c && leb c b'9')
    || c == b'.'
    || c == b'_'

-- The loop over the bytes; the flag says that the last one written is the dash of a run.
unfoldable pub slug : Bool → Bytes → Bytes
slug dash [] = []
slug dash (c ∷ s) =
    if is_kept c then c ∷ slug false s else if dash then slug true s else b'-' ∷ slug true s

-- The bytes of `"-. \t"`.
abbrev pub is_edge : ℕ → Bool
is_edge c = c == b'-' || c == b'.' || c == b' ' || c == b'\t'

-- `strings.Contains(out, "..")`
unfoldable pub has_dots : Bytes → Bool
has_dots [] = false
has_dots (c ∷ []) = false
has_dots (c ∷ d ∷ s) = (c == b'.' && d == b'.') || has_dots (d ∷ s)

-- `strings.ReplaceAll(out, "..", ".")`
unfoldable pub halve_dots : Bytes → Bytes
halve_dots [] = []
halve_dots (c ∷ []) = c ∷ []
halve_dots (c ∷ d ∷ s) =
    let both = halve_dots s in
    let one = halve_dots (d ∷ s) in if c == b'.' && d == b'.' then b'.' ∷ both else c ∷ one

-- `for strings.Contains(out, "..")`; the fuel is the length of the text, and each round shortens it.
unfoldable pub squeeze : ℕ → Bytes → Bytes
unfolding has_dots halve_dots
squeeze zero s = s
squeeze (suc n) s = elim (has_dots s) [ false ↦ s | true ↦ squeeze n (halve_dots s) ]

abbrev pub or_file : Bytes → Bytes
or_file [] = codes "file"
or_file (c ∷ s) = c ∷ s

-- `take` is what the slice does if the text is longer.
unfoldable pub sanitize_name : Bytes → Bytes
unfolding slug squeeze trim_by
sanitize_name s =
    let out = trim_by is_edge (take max_slug_len (slug false s)) in
    or_file (squeeze (length out) out)

abbrev pub short_id : Bytes → Bytes
short_id id = take tag_len id

-- `strings.TrimPrefix(ext, ".")`
abbrev pub trim_dot : Bytes → Bytes
trim_dot [] = []
trim_dot (c ∷ s) = if c == b'.' then s else c ∷ s

-- The extension "file" stands for none.
unfoldable pub clean_ext : Bytes → Bytes
unfolding sanitize_name
clean_ext ext =
    let e = sanitize_name (trim_dot ext) in if same_codes e (codes "file") then [] else e

-- Whether a tag is left out: it is empty or "file".
abbrev pub no_tag : Bytes → Bool
no_tag [] = true
no_tag (c ∷ t) = same_codes (c ∷ t) (codes "file")

abbrev pub with_ext : Bytes → Bytes → Bytes
with_ext [] name = name
with_ext (c ∷ e) name = name ++ (b'.' ∷ c ∷ e)

unfoldable pub output_name : Bytes → Bytes → Bytes → Bytes
output_name slug ext tag = with_ext ext (if no_tag tag then slug else slug ++ (b'-' ∷ tag))

-- The loop of `uniqueOutputPath`, on the attempts that are left. `taken` says whether a file of that
-- name is in the directory, `draw` is the tag that `randomTag` draws after the attempt.
unfoldable pub pick_name : ℕ → (Bytes → Bool) → (ℕ → Bytes) → Bytes → Bytes → Bytes → Bytes
unfolding output_name
pick_name zero taken draw slug ext tag = output_name slug ext tag
pick_name (suc left) taken draw slug ext tag =
    let retry = pick_name left taken draw slug ext (draw left) in
    if no_tag tag
    then output_name slug ext tag
    else if not (taken (output_name slug ext tag))
    then output_name slug ext tag
    else retry

-- The name in the directory; the path is the directory, a slash and the name.
unfoldable pub unique_output_name : (Bytes → Bool) → (ℕ → Bytes) → Bytes → Bytes → Bytes → Bytes
unfolding sanitize_name clean_ext pick_name
unique_output_name taken draw base ext id =
    pick_name max_name_attempts taken draw (sanitize_name base) (clean_ext ext)
      (sanitize_name (short_id id))
