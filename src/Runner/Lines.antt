-- ===== src/Runner/Lines.antt =====
-- internal/runner/exec.go: the lines of a child process. The scanner is bufio.Scanner of Go's standard
-- library, with the function that splits its text; a text is bytes.
pub mod Split
pub mod Scan
use aiofiles.Prelude.{
  ℕ, zero, suc, ◌+◌, ◌^◌, Bool, true, false, ◌||◌, List, [], ◌∷◌, ◌++◌, ◌==◌, leb, if◌then◌else◌,
  length, drop, Option, none, some,
}
use aiofiles.Prelude.Bytes.{Bytes}

abbrev pub max_line_bytes : ℕ
max_line_bytes = 2 ^ 20

abbrev pub is_end : ℕ → Bool
is_end c = c == b'\n' || c == b'\r'

-- How many terminators a text begins with: where the loop over `start` ends.
unfoldable pub leading : Bytes → ℕ
leading [] = 0
leading (c ∷ s) = if is_end c then suc (leading s) else 0

-- `bytes.IndexAny(_, "\r\n")` with what stands in front.
unfoldable pub before_end : Bytes → Option Bytes
before_end [] = none
before_end (c ∷ s) = elim (is_end c) [
  | true ↦ some []
  | false ↦ elim (before_end s) [ none ↦ none | some l ↦ some (c ∷ l) ]
]

-- What a call returns: how far to advance, and a line. There is never an error.
abbrev pub Step : Type 0
Step = ℕ × Option Bytes

abbrev pub rest_of : Bool → ℕ → Bytes → Bytes → Step
rest_of true start text [] = (length text, none)
rest_of true start text (c ∷ s) = (length text, some (c ∷ s))
rest_of false start text s = (start, none)

abbrev pub found : Bool → ℕ → Bytes → Option Bytes → Step
found at_eof start text (some l) = (start + length l + 1, some l)
found at_eof start text none = rest_of at_eof start text (drop start text)

-- The two last returns are one: without a terminator in front, the start is 0.
unfoldable pub split_lines : Bytes → Bool → Step
unfolding leading before_end
split_lines text at_eof =
    let start = leading text in found at_eof start text (before_end (drop start text))

abbrev pub with_line : Bytes → List Bytes × Bytes → List Bytes × Bytes
with_line l (ls, rest) = (l ∷ ls, rest)

-- The calls of `Scan` between two reads: the lines, and what stays in the buffer. The fuel is above the length
-- of the text, and each line makes it shorter.
unfoldable pub pull : Bool → ℕ → Bytes → List Bytes × Bytes
unfolding split_lines
pull at_eof zero text = ([], text)
pull at_eof (suc fuel) text = elim ((split_lines text at_eof).1) [
  | none ↦ ([], drop (split_lines text at_eof).0 text)
  | some l ↦ with_line l (pull at_eof fuel (drop (split_lines text at_eof).0 text))
]

-- `scanLines`, on what the reads give after the buffer's text: the lines that the function is called with. A
-- buffer that is full without a line ends the scan.
unfoldable pub scan_lines : Bytes → List Bytes → List Bytes
unfolding pull
scan_lines text [] = (pull true (suc (length text)) text).0
scan_lines text (chunk ∷ chunks) =
    let (ls, rest) = pull false (suc (length (text ++ chunk))) (text ++ chunk) in
    if leb max_line_bytes (length rest) then ls else ls ++ scan_lines rest chunks
