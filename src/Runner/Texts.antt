-- ===== src/Runner/Texts.antt =====
-- internal/runner/exec.go: the texts that the runners choose from. A text is its code points.
use aiofiles.Prelude.{Bool, true, false, List, [], ◌∷◌, if◌then◌else◌, length, take, ◌-◌}
use aiofiles.Prelude.Bytes.{Bytes, trim_by, has_suffix}
use aiofiles.Prelude.Paths.{path_ext, path_base}
use aiofiles.Uploads.{is_space}

abbrev pub is_empty : Bytes → Bool
is_empty [] = true
is_empty (c ∷ s) = false

-- `strings.TrimSpace`
abbrev pub trim_space : Bytes → Bytes
trim_space s = trim_by is_space s

unfoldable pub first_non_empty : List Bytes → Bytes
unfolding trim_by
first_non_empty [] = []
first_non_empty (v ∷ vs) =
    let rest = first_non_empty vs in if is_empty (trim_space v) then rest else trim_space v

-- `strings.TrimSuffix`
abbrev trim_suffix : Bytes → Bytes → Bytes
trim_suffix s suffix = if has_suffix s suffix then take (length s - length suffix) s else s

unfoldable pub base_without_ext : Bytes → Bytes
unfolding path_base path_ext has_suffix
base_without_ext p = trim_suffix (path_base p) (path_ext (path_base p))
