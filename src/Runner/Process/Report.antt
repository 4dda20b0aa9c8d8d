-- ===== src/Runner/Process/Report.antt =====
-- What is reported of a process that fails.
use aiofiles.Prelude.{
  ◌+◌, ◌≤◌, ◌<◌, Bool, true, false, not, ◌&&◌, ◌≡◌, refl, ap, ◌∙◌, List, [], ◌∷◌, All,
  if◌then◌else◌, none, some, length, concat, last_of,
}
use mathlib.Core.Path.{subst}
use aiofiles.Prelude.Int.{ℤ, negsuc}
use aiofiles.Prelude.Bytes.{Bytes}
use aiofiles.Runner.Ring.{
  Ring, max_stderr_lines, max_stderr_bytes, new_ring, join_lines, clip_text, ring_text,
}
use aiofiles.Runner.Ring.Window.{kept_lines, add_all, add_all-Window}
use aiofiles.Runner.Lines.{max_line_bytes, scan_lines}
use aiofiles.Runner.Lines.Split.{text_lines}
use aiofiles.Runner.Lines.Scan.{scan_lines-text_lines}
use aiofiles.Runner.Process.{
  Mode, Child, Outcome, exit_error, ring_all, exit_code, run_proc, is_by_line, ended, failed_to,
  no_out_pipe, no_err_pipe, no_start, clean, written_for,
}

ring_all-add_all :
    (valid : Bytes → Bytes) (ls : List Bytes) (r : Ring) → ring_all valid ls r ≡ add_all valid ls r
unfolding ring_all add_all
ring_all-add_all valid [] r = refl
ring_all-add_all valid (l ∷ ls) r = ring_all-add_all valid ls _

-- The lines of the error stream, and the text that the last of them make.
abbrev pub error_lines : Child → List Bytes
error_lines c = text_lines [] (concat c.errors)

abbrev pub tail_text : (Bytes → Bytes) → List Bytes → Bytes
tail_text valid ls = clip_text valid (join_lines (last_of max_stderr_lines (kept_lines valid ls)))

tail-tail_text :
    (valid : Bytes → Bytes) (ls : List Bytes)
    → ((s : Bytes) → length (valid s) ≤ length s)
    → (ring_text valid (ring_all valid ls (new_ring max_stderr_lines)) ≡ tail_text valid ls)
      × (length (tail_text valid ls) ≤ max_stderr_bytes + 3)
unfolding ring_text
tail-tail_text valid ls shrinks =
    let (lines, bound) = add_all-Window valid 39 ls shrinks in
    let same =
      ap (λ r. ring_text valid r) (ring_all-add_all valid ls (new_ring max_stderr_lines)) in
    let texts = ap (λ l. clip_text valid (join_lines l)) lines in
    (same ∙ texts, subst (λ t. length t ≤ max_stderr_bytes + 3) texts bound)

started :
    (x y z w : Outcome) (m p q s : Bool)
    → (p ≡ true) × (q ≡ true) × (s ≡ true)
    → (if m && not p then x else if not q then y else if not s then z else w) ≡ w
started x y z w true p q s (a, b, c) = rw (a, b, c) refl
started x y z w false p q s (a, b, c) = rw (b, c) refl

-- A process that has started and does not end well, and is not canceled, is reported with its exit code and with
-- the last forty lines of its error stream that are not blank, in at most 4099 bytes, if each line is shorter than
-- the buffer; and every line of that stream reaches the function for it.
pub run_proc-tail_text :
    (valid : Bytes → Bytes) (bin : Bytes) (mode : Mode) (c : Child) (code : ℤ)
    → ((s : Bytes) → length (valid s) ≤ length s)
    → All (λ (l : Bytes). length l < max_line_bytes) (error_lines c)
    → (c.out_pipe_ok ≡ true) × (c.err_pipe_ok ≡ true) × (c.start_ok ≡ true)
    → c.canceled ≡ false
    → exit_code (negsuc 0) c.wait ≡ some code
    → ((run_proc valid bin mode c).error
        ≡ some (
            exit_error
              (record { bin = bin; code = code; stderr = tail_text valid (error_lines c) })))
      × (length (tail_text valid (error_lines c)) ≤ max_stderr_bytes + 3)
      × ((run_proc valid bin mode c).err_lines ≡ error_lines c)
unfolding run_proc
run_proc-tail_text valid bin mode c code shrinks short up e f =
    let lines = scan_lines-text_lines [] c.errors short in
    let (text, bound) = tail-tail_text valid (error_lines c) shrinks in
    let tail =
      ring_text valid (ring_all valid (scan_lines [] c.errors) (new_ring max_stderr_lines)) in
    let begun =
      started (failed_to no_out_pipe) (failed_to no_err_pipe) (failed_to no_start) _
        (is_by_line mode) c.out_pipe_ok c.err_pipe_ok c.start_ok up in
    (
      ap (λ (o : Outcome). o.error) begun
          ∙ ap (λ o. ended bin c.canceled tail o) f
          ∙ ap (λ b. ended bin b tail (some code)) e
          ∙ ap (λ t. ended bin false t (some code))
              (ap (λ ls. ring_text valid (ring_all valid ls (new_ring max_stderr_lines))) lines
                ∙ text),
      bound,
      ap (λ (o : Outcome). o.err_lines) begun ∙ lines,
    )

-- A process that has started and ends well gives no error, and the writer its whole output.
pub run_proc-clean :
    (valid : Bytes → Bytes) (bin : Bytes) (mode : Mode) (c : Child)
    → (c.out_pipe_ok ≡ true) × (c.err_pipe_ok ≡ true) × (c.start_ok ≡ true)
    → c.wait ≡ clean
    → ((run_proc valid bin mode c).error ≡ none)
      × ((run_proc valid bin mode c).written ≡ written_for mode c.out)
unfolding run_proc
run_proc-clean valid bin mode c up e =
    let tail =
      ring_text valid (ring_all valid (scan_lines [] c.errors) (new_ring max_stderr_lines)) in
    let begun =
      started (failed_to no_out_pipe) (failed_to no_err_pipe) (failed_to no_start) _
        (is_by_line mode) c.out_pipe_ok c.err_pipe_ok c.start_ok up in
    (
      ap (λ (o : Outcome). o.error) begun
          ∙ ap (λ w. ended bin c.canceled tail (exit_code (negsuc 0) w)) e,
      ap (λ (o : Outcome). o.written) begun,
    )
