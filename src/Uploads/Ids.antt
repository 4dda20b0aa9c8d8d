-- ===== src/Uploads/Ids.antt =====
-- internal/api/uploads.go: resolveUpload. The directory, the files and `filepath.Clean` are parameters.
use aiofiles.Prelude.{
  ℕ, ◌+◌, Bool, false, not, ◌&&◌, ◌||◌, List, [], ◌∷◌, ◌++◌, ◌==◌, ltb, if◌then◌else◌, codes,
  Option, none, some, Result, ok, err, ◌>>=◌,
}
use aiofiles.Prelude.Bytes.{Bytes, same_codes, has_byte, has_prefix}
use aiofiles.Prelude.Paths.{path_base}
use aiofiles.Runner.Names.{has_dots}

-- The bytes of a rune in UTF-8.
abbrev pub rune_bytes : ℕ → ℕ
rune_bytes r = if ltb r 128 then 1 else if ltb r 2048 then 2 else if ltb r 65536 then 3 else 4

abbrev pub byte_length : List ℕ → ℕ
byte_length [] = 0
byte_length (r ∷ s) = rune_bytes r + byte_length s

-- `filepath.IsAbs`
abbrev pub is_abs : List ℕ → Bool
is_abs [] = false
is_abs (c ∷ s) = c == b'/'

-- Whether an id is refused before the disk is asked; `clean` is `filepath.Clean`.
unfoldable pub bad_id : (List ℕ → List ℕ) → List ℕ → Bool
unfolding has_dots path_base
bad_id clean id =
    same_codes id []
    || (ltb 512 (byte_length id)
        || ((has_byte b'/' id || has_byte b'\\' id)
            || (has_byte 0 id
                || (same_codes id (codes ".")
                    || (has_dots id
                        || (is_abs id
                            || (not (same_codes (clean id) id)
                                || not (same_codes (path_base id) id))))))))

-- What resolveUpload asks of the disk: `filepath.Abs`, `filepath.EvalSymlinks`, and whether a path is a
-- regular file.
pub record Disk : Type 0 where
  pub abs_path : Bytes → Option Bytes
  pub real_path : Bytes → Option Bytes
  pub is_regular : Bytes → Bool

pub data IdError : Type 0 where
  bad_upload_id no_directory : IdError

abbrev or_clean : (Bytes → Bytes) → Bytes → Option Bytes → Bytes
or_clean clean abs none = clean abs
or_clean clean abs (some real) = real

unfoldable pub eval_dir : (Bytes → Bytes) → Disk → Bytes → Result IdError Bytes
eval_dir clean disk dir = elim (disk.abs_path dir) [
  | none ↦ err no_directory
  | some abs ↦ ok (or_clean clean abs (disk.real_path abs))
]

-- The checks behind the symbolic links.
abbrev pub contained : Disk → Bytes → Bytes → Result IdError Bytes
contained disk dir real =
    if not (same_codes real dir) && not (has_prefix real (dir ++ b'/' ∷ []))
    then err bad_upload_id
    else if not (disk.is_regular real)
    then err bad_upload_id
    else ok real

-- `utf8` is the id's bytes.
unfoldable pub resolve_in : (Bytes → Bytes) → Disk → Bytes → Bytes → Result IdError Bytes
resolve_in clean disk utf8 dir = elim (disk.real_path (clean (dir ++ b'/' ∷ utf8))) [
  | none ↦ err bad_upload_id
  | some real ↦ contained disk dir real
]

unfoldable pub resolve_upload :
    (Bytes → Bytes) → (List ℕ → Bytes) → Disk → Bytes → List ℕ → Result IdError Bytes
unfolding bad_id eval_dir resolve_in
resolve_upload clean encode disk upload_dir id =
    if bad_id clean id
    then err bad_upload_id
    else do dir ← eval_dir clean disk upload_dir; resolve_in clean disk (encode id) dir
