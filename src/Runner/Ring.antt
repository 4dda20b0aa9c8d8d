-- ===== src/Runner/Ring.antt =====
-- internal/runner/exec.go: the ring of the last lines of an error stream. Lines are bytes.
pub mod Window
use aiofiles.Prelude.{
  ℕ, zero, suc, ◌+◌, ◌-◌, ◌%◌, Bool, true, false, ◌||◌, List, [], ◌∷◌, ◌++◌, ◌==◌, ltb,
  if◌then◌else◌, length, take, drop, set, codes,
}
use aiofiles.Prelude.Bytes.{Bytes, trim_right_by}

abbrev pub max_stderr_lines : ℕ
max_stderr_lines = 40

abbrev pub max_stderr_line_bytes : ℕ
max_stderr_line_bytes = 512

abbrev pub max_stderr_bytes : ℕ
max_stderr_bytes = 4096

pub record Ring : Type 0 where
  pub buf : List Bytes
  pub next : ℕ
  pub full : Bool
  pub limit : ℕ

-- `make([]string, n)`
abbrev pub blanks : ℕ → List Bytes
blanks zero = []
blanks (suc n) = [] ∷ blanks n

unfoldable pub new_ring : ℕ → Ring
new_ring n =
    let limit = if ltb n 1 then 1 else n in
    record { buf = blanks limit; next = 0; full = false; limit = limit }

-- The bytes of `" \t"`.
abbrev pub is_blank : ℕ → Bool
is_blank c = c == b' ' || c == b'\t'

unfoldable pub store_line : Bytes → Ring → Ring
store_line line r =
    let next = suc r.next % r.limit in
    record r { buf = set r.buf r.next line; next = next; full = if next == 0 then true else r.full }

-- `valid` is `strings.ToValidUTF8(_, "")`.
unfoldable pub clip_line : (Bytes → Bytes) → Bytes → Bytes
clip_line valid line =
    if ltb max_stderr_line_bytes (length line)
    then valid (take max_stderr_line_bytes line) ++ codes "..."
    else line

-- An empty line is not kept.
unfoldable pub add_trimmed : (Bytes → Bytes) → Bytes → Ring → Ring
unfolding store_line clip_line
add_trimmed valid [] r = r
add_trimmed valid (c ∷ l) r = store_line (clip_line valid (c ∷ l)) r

unfoldable pub add : (Bytes → Bytes) → Bytes → Ring → Ring
unfolding add_trimmed trim_right_by
add valid line r = add_trimmed valid (trim_right_by is_blank line) r

-- `out`, the lines in the order in which they came.
unfoldable pub lines_of : Ring → List Bytes
lines_of r = (if r.full then drop r.next r.buf else []) ++ take r.next r.buf

-- `strings.Join(out, "; ")`
unfoldable pub join_lines : List Bytes → Bytes
join_lines [] = []
join_lines (l ∷ []) = l
join_lines (l ∷ m ∷ ls) = l ++ (codes "; " ++ join_lines (m ∷ ls))

abbrev pub clip_text : (Bytes → Bytes) → Bytes → Bytes
clip_text valid s =
    if ltb max_stderr_bytes (length s)
    then codes "..." ++ valid (drop (length s - max_stderr_bytes) s)
    else s

unfoldable pub ring_text : (Bytes → Bytes) → Ring → Bytes
unfolding lines_of join_lines
ring_text valid r = clip_text valid (join_lines (lines_of r))
