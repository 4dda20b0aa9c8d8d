-- ===== src/Runner/YtDlp/Progress.antt =====
-- internal/runner/ytdlp.go: the lines of yt-dlp that tell of its progress. A line is its code points and has no
-- line feed; `read` is `strconv.ParseFloat`, in thousandths, and `text` turns code points into a text.
pub mod Reports
use aiofiles.Prelude.{
  ℕ, String, Bool, true, false, not, ◌&&◌, ◌||◌, List, [], ◌∷◌, ◌++◌, ◌==◌, if◌then◌else◌, leb, ltb,
  codes, length, drop, Option, none, some,
}
use aiofiles.Prelude.Int.{ℤ, pos, negsuc}
use aiofiles.Prelude.Bytes.{Bytes, same_codes, has_prefix}
use aiofiles.Jobs.Types.{Percent, unknown, at, Progress}
use aiofiles.Runner.Numerals.{is_digit}
use aiofiles.Runner.Texts.{is_empty, trim_space}
use aiofiles.Runner.YtDlp.{yt_dlp_stage}

-- The class `\s` of a regular expression.
abbrev pub is_blank : ℕ → Bool
is_blank c = c == 9 || c == 10 || c == 12 || c == 13 || c == 32

-- The longest run of code points that pass a test, and what follows it.
abbrev pub cut : ℕ → Bytes × Bytes → Bytes × Bytes
cut c (run, rest) = (c ∷ run, rest)

unfoldable pub span : (ℕ → Bool) → Bytes → Bytes × Bytes
span p [] = ([], [])
span p (c ∷ s) = let more = cut c (span p s) in if p c then more else ([], c ∷ s)

-- The text behind a word, if it begins with the word.
abbrev pub after : String → Bytes → Option Bytes
after word s = if has_prefix s (codes word) then some (drop (length (codes word)) s) else none

-- The text behind a run of at least one blank.
unfoldable pub blanks : Bytes → Option Bytes
unfolding span
blanks [] = none
blanks (c ∷ s) = if is_blank c then some (span is_blank s).1 else none

-- `\d+(?:\.\d+)?%` at the start of a text, without the sign.
abbrev pub fraction : Bytes → Bytes × Bytes → Option Bytes
fraction whole ([], rest) = none
fraction whole (d ∷ part, []) = none
fraction whole (d ∷ part, c ∷ rest) = if c == b'%' then some (whole ++ (b'.' ∷ d ∷ part)) else none

unfoldable pub number : Bytes × Bytes → Option Bytes
unfolding span
number ([], rest) = none
number (d ∷ whole, []) = none
number (d ∷ whole, c ∷ rest) =
    if c == b'%'
    then some (d ∷ whole)
    else if c == b'.'
    then fraction (d ∷ whole) (span is_digit rest)
    else none

module _ {A : Type 0} where
  abbrev pub and_then : Option Bytes → (Bytes → Option A) → Option A
  and_then none f = none
  and_then (some s) f = f s

  abbrev pub or_later : Option A → Option A → Option A
  or_later none later = later
  or_later (some a) later = some a

  -- The leftmost match: the first suffix on which an anchored match succeeds.
  unfoldable pub leftmost : (Bytes → Option A) → Bytes → Option A
  leftmost here [] = here []
  leftmost here (c ∷ s) = or_later (here (c ∷ s)) (leftmost here s)

-- `ytPercentRe`
unfoldable pub percent_here : Bytes → Option Bytes
unfolding blanks span number
percent_here s =
    and_then (after "[download]" s) (λ t. and_then (blanks t) (λ u. number (span is_digit u)))

-- `\s+ETA\s`, `\s+in\s` or `\s*$` at the start of a text.
abbrev pub starts_blank : Bytes → Bool
starts_blank [] = false
starts_blank (c ∷ s) = is_blank c

abbrev pub word_next : String → Bytes → Bool
word_next word t = elim (after word t) [ none ↦ false | some u ↦ starts_blank u ]

unfoldable pub speed_ends : Bytes → Bool
unfolding blanks span
speed_ends s =
    is_empty (span is_blank s).1
    || elim (blanks s) [ none ↦ false | some t ↦ word_next "ETA" t || word_next "in" t ]

-- The shortest text in front of such an end.
unfoldable pub until_end : Bytes → Bytes
unfolding speed_ends
until_end [] = []
until_end (c ∷ s) = let more = until_end s in if speed_ends s then c ∷ [] else c ∷ more

-- `ytSpeedRe`; a match whose group is blank counts as none, since the trimmed group is empty.
abbrev pub speed_text : Bytes → Option Bytes
speed_text [] = none
speed_text (c ∷ s) = some (until_end (c ∷ s))

abbrev pub behind_blank : Bytes → Option Bytes
behind_blank [] = none
behind_blank (c ∷ s) = if is_blank c then some s else none

unfoldable pub speed_here : Bytes → Option Bytes
unfolding blanks until_end
speed_here s =
    and_then (behind_blank s) (λ t. and_then (after "at" t) (λ u. and_then (blanks u) speed_text))

-- `ytETARe`
abbrev pub filled : Bytes → Option Bytes
filled [] = none
filled (c ∷ s) = some (c ∷ s)

unfoldable pub eta_here : Bytes → Option Bytes
unfolding blanks span
eta_here s = and_then (behind_blank s) (λ t.
    and_then (after "ETA" t)
      (λ u. and_then (blanks u) (λ v. filled (span (λ c. not (is_blank c)) v).0)))

abbrev pub speed_of : Option Bytes → Bytes
speed_of none = []
speed_of (some s) =
    let v = trim_space s in
    if not (is_empty v) && not (has_prefix v (codes "Unknown")) then v else []

abbrev pub eta_of : Option Bytes → Bytes
eta_of none = []
eta_of (some v) =
    if not (same_codes v (codes "Unknown")) && not (same_codes v (codes "NA")) then v else []

-- `clampPercent`, in thousandths.
unfoldable pub clamp_percent : ℤ → ℕ
clamp_percent (pos n) = if ltb 100000 n then 100000 else n
clamp_percent (negsuc n) = 0

abbrev pub emitted : Option Progress → List Progress → List Progress
emitted none ps = ps
emitted (some p) ps = p ∷ ps

module _ (read : Bytes → Option ℤ) (text : Bytes → String) where
  unfoldable pub progress_of : Bytes → Option ℤ → Option Progress
  unfolding clamp_percent leftmost speed_here eta_here
  progress_of line none = none
  progress_of line (some pct) = some (record {
    percent = at (clamp_percent pct);
    stage = "";
    speed = text (speed_of (leftmost speed_here line));
    eta = text (eta_of (leftmost eta_here line));
  })

  unfoldable pub parse_progress : Bytes → Option Progress
  unfolding leftmost percent_here progress_of
  parse_progress line = and_then (leftmost percent_here line) (λ m. progress_of line (read m))

  abbrev pub with_stage : String → Option Progress → Option Progress
  with_stage stage none = none
  with_stage stage (some p) = some (record p { stage = stage })

  -- `emitStage`
  abbrev pub stage_report : String → Progress
  stage_report stage = record { percent = unknown; stage = stage; speed = ""; eta = "" }

  -- One call of the function that `ytDlpLineHandler` returns: the stage it keeps, and what it emits.
  unfoldable pub handle_line : String → Bytes → String × Option Progress
  unfolding parse_progress yt_dlp_stage
  handle_line stage line = elim (yt_dlp_stage line) [
    | some s ↦ (s, some (stage_report s))
    | none ↦ (stage, with_stage stage (parse_progress line))
  ]

  -- The calls for the lines of both streams, in the order in which they get the lock.
  unfoldable pub reports : String → List Bytes → List Progress
  unfolding handle_line
  reports stage [] = []
  reports stage (line ∷ lines) =
      let (after_, told) = handle_line stage line in emitted told (reports after_ lines)
