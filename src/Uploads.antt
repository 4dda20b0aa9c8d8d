-- ===== src/Uploads.antt =====
-- internal/api/uploads.go: the names of stored uploads. A name is a list of code points; one that is not
-- valid UTF-8 has lost what is not, as `strings.ToValidUTF8` does it.
pub mod Ids
pub mod Clean
pub mod Stored
pub mod Inside
use aiofiles.Prelude.{
  ℕ, zero, suc, ◌+◌, ◌-◌, Bool, true, false, not, ◌&&◌, ◌||◌, List, [], ◌∷◌, ◌++◌, any, length,
  take, ◌==◌, ltb, leb, if◌then◌else◌, codes,
}
use aiofiles.Prelude.Bytes.{Bytes, same_codes, has_byte, has_suffix, trim_by}
use aiofiles.Prelude.Paths.{path_base, path_ext}

abbrev pub upload_token_bytes : ℕ
upload_token_bytes = 8

abbrev pub max_stored_name : ℕ
max_stored_name = 120

-- The original's own test of a space; `unicode.IsSpace`.
abbrev pub is_space : ℕ → Bool
is_space r =
    (leb 9 r && leb r 13)
    || r == 32
    || r == 133
    || r == 160
    || r == 5760
    || (leb 8192 r && leb r 8202)
    || r == 8232
    || r == 8233
    || r == 8239
    || r == 8287
    || r == 12288

-- `unicode.IsControl`
abbrev pub is_control : ℕ → Bool
is_control r = ltb r 32 || (leb 127 r && leb r 159)

abbrev pub is_hostile : ℕ → Bool
is_hostile r = has_byte r (codes ":*?\"<>|`$;&'\\")

abbrev rune_error : ℕ
rune_error = 65533

-- What one rune becomes.
unfoldable pub sanitise_rune : ℕ → List ℕ
sanitise_rune r =
    if r == b'/' || (is_space r || is_hostile r)
    then b'_' ∷ []
    else if is_control r || r == rune_error
    then []
    else r ∷ []

unfoldable pub sanitise_runes : List ℕ → List ℕ
unfolding sanitise_rune
sanitise_runes [] = []
sanitise_runes (r ∷ s) = sanitise_rune r ++ sanitise_runes s

-- `strings.ReplaceAll(name, "\\", "/")`
abbrev pub to_slashes : List ℕ → List ℕ
to_slashes [] = []
to_slashes (r ∷ s) = (if r == b'\\' then b'/' else r) ∷ to_slashes s

-- The runes of `"._-"`.
abbrev pub is_trimmed : ℕ → Bool
is_trimmed r = r == b'.' || r == b'_' || r == b'-'

-- `strings.TrimSuffix`
unfoldable pub trim_suffix : List ℕ → List ℕ → List ℕ
unfolding has_suffix
trim_suffix s e = if has_suffix s e then take (length s - length e) s else s

-- An extension that is not too long to keep.
abbrev pub short_ext : List ℕ → List ℕ
short_ext e = if ltb 16 (length e) then [] else e

abbrev pub shorten_by : List ℕ → List ℕ → List ℕ
shorten_by out ext =
    trim_by is_trimmed (take (max_stored_name - length ext) (trim_suffix out ext)) ++ ext

unfoldable pub shorten : List ℕ → List ℕ
unfolding trim_suffix path_ext trim_by
shorten out =
    if ltb max_stored_name (length out) then shorten_by out (short_ext (path_ext out)) else out

abbrev pub or_upload : List ℕ → List ℕ
or_upload [] = codes "upload"
or_upload (r ∷ s) = r ∷ s

unfoldable pub sanitise_filename : List ℕ → List ℕ
unfolding sanitise_runes shorten path_base trim_by
sanitise_filename name =
    let out = trim_by is_trimmed (sanitise_runes (path_base (to_slashes name))) in
    if same_codes out [] || (same_codes out (codes ".") || same_codes out (codes ".."))
    then codes "upload"
    else or_upload (shorten out)

-- `token` is the hexadecimal text of the random bytes.
abbrev pub stored_name : List ℕ → List ℕ → List ℕ
stored_name token original = token ++ b'-' ∷ original

-- `strings.IndexByte(stored, '-')` and what follows the dash.
unfoldable pub after_dash : List ℕ → ℕ × List ℕ
after_dash [] = (0, [])
after_dash (c ∷ s) = if c == b'-' then (0, s) else (suc (after_dash s).0, (after_dash s).1)

unfoldable pub original_name : List ℕ → List ℕ
unfolding after_dash
original_name stored =
    if has_byte b'-' stored && (after_dash stored).0 == upload_token_bytes + upload_token_bytes
    then (after_dash stored).1
    else stored
