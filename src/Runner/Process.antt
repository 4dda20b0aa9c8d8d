-- ===== src/Runner/Process.antt =====
-- internal/runner/exec.go: a child process from its start to its report. What the process and the system do is a
-- record; `valid` is `strings.ToValidUTF8(_, "")`. That the whole group is killed is not modelled.
pub mod Report
use aiofiles.Prelude.{
  ℕ, Bool, true, false, not, ◌&&◌, List, [], ◌∷◌, ◌++◌, if◌then◌else◌, codes, Option, none, some,
}
use aiofiles.Prelude.Int.{ℤ, pos, negsuc}
use aiofiles.Prelude.Bytes.{Bytes}
use aiofiles.Prelude.Paths.{path_base}
use aiofiles.Runner.Texts.{is_empty}
use aiofiles.Runner.Numerals.{itoa}
use aiofiles.Runner.Ring.{Ring, max_stderr_lines, new_ring, add, ring_text}
use aiofiles.Runner.Lines.{scan_lines}

-- Where the output goes: to a writer, by its lines to a function, or nowhere.
pub data Mode : Type 0 where
  to_writer by_line nowhere : Mode

-- What `Wait` answers: success, an exit status, which is -1 after a signal, or another error.
pub data Waited : Type 0 where
  clean : Waited
  exited : ℤ → Waited
  broken : Waited

-- `out` and `errors` are the two streams as the reads cut them; `canceled` is whether the context has ended.
pub record Child : Type 0 where
  pub out_pipe_ok : Bool
  pub err_pipe_ok : Bool
  pub start_ok : Bool
  pub out : List Bytes
  pub errors : List Bytes
  pub wait : Waited
  pub canceled : Bool

pub record ExitError : Type 0 where
  pub bin : Bytes
  pub code : ℤ
  pub stderr : Bytes

pub data ProcError : Type 0 where
  no_out_pipe no_err_pipe no_start was_canceled : ProcError
  exit_error : ExitError → ProcError

-- What was written to the writer, the lines that the functions were called with, and the error.
pub record Outcome : Type 0 where
  pub written : List Bytes
  pub out_lines : List Bytes
  pub err_lines : List Bytes
  pub error : Option ProcError

unfoldable pub error_text : ExitError → Bytes
unfolding itoa path_base
error_text e =
    path_base e.bin
    ++ (codes " failed"
        ++ ((elim e.code [ pos n ↦ codes " (exit " ++ (itoa (pos n) ++ codes ")") | negsuc n ↦ [] ])
            ++ (if is_empty e.stderr then [] else codes ": " ++ e.stderr)))

-- The calls of `stderrRing.add` for the lines of the error stream.
unfoldable pub ring_all : (Bytes → Bytes) → List Bytes → Ring → Ring
unfolding add
ring_all valid [] r = r
ring_all valid (l ∷ ls) r = ring_all valid ls (add valid l r)

abbrev pub failed_to : ProcError → Outcome
failed_to e = record { written = []; out_lines = []; err_lines = []; error = some e }

abbrev pub exit_code : ℤ → Waited → Option ℤ
exit_code missing clean = none
exit_code missing (exited code) = some code
exit_code missing broken = some missing

abbrev pub ended : Bytes → Bool → Bytes → Option ℤ → Option ProcError
ended bin canceled stderr none = none
ended bin canceled stderr (some code) =
    if canceled
    then some was_canceled
    else some (exit_error (record { bin = bin; code = code; stderr = stderr }))

abbrev pub lines_for : Mode → List Bytes → List Bytes
unfolding scan_lines
lines_for by_line chunks = scan_lines [] chunks
lines_for _ chunks = []

abbrev pub written_for : Mode → List Bytes → List Bytes
written_for to_writer chunks = chunks
written_for _ chunks = []

abbrev pub is_by_line : Mode → Bool
is_by_line by_line = true
is_by_line _ = false

unfoldable pub run_proc : (Bytes → Bytes) → Bytes → Mode → Child → Outcome
unfolding ring_all ring_text new_ring scan_lines
run_proc valid bin mode c =
    if is_by_line mode && not c.out_pipe_ok
    then failed_to no_out_pipe
    else if not c.err_pipe_ok
    then failed_to no_err_pipe
    else if not c.start_ok
    then failed_to no_start
    else let lines = scan_lines [] c.errors in
      let tail = ring_text valid (ring_all valid lines (new_ring max_stderr_lines)) in
      record {
        written = written_for mode c.out;
        out_lines = lines_for mode c.out;
        err_lines = lines;
        error = ended bin c.canceled tail (exit_code (negsuc 0) c.wait);
      }
