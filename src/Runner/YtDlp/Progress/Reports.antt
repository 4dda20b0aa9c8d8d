-- ===== src/Runner/YtDlp/Progress/Reports.antt =====
-- What is reported of a download: the stage, and a percentage within its bounds.
use aiofiles.Prelude.{
  String, Bool, true, false, ◌≡◌, refl, sym, ap, ◌∙◌, ◌⊎◌, inl, inr, ◌≤◌, List, [], ◌∷◌, ◌++◌,
  Option, none, some, arith, Option-cases, some_injective, if◌then◌else◌,
}
use mathlib.Core.Path.{subst}
use aiofiles.Prelude.Int.{ℤ, pos, negsuc}
use aiofiles.Prelude.Bytes.{Bytes}
use aiofiles.Jobs.Types.{Percent, unknown, at, Progress}
use aiofiles.Runner.YtDlp.{yt_dlp_stage}
use aiofiles.Runner.YtDlp.Progress.{
  clamp_percent, leftmost, percent_here, progress_of, parse_progress, and_then, handle_line,
  emitted, reports,
}

abbrev pub IsStage : String → Type 0
IsStage s = (s ≡ "downloading") ⊎ ((s ≡ "merging") ⊎ (s ≡ "converting"))

abbrev pub InBar : Percent → Type 0
InBar unknown = Unit
InBar (at n) = n ≤ 100000

abbrev or_stage : String → Option String → String
or_stage s none = s
or_stage s (some t) = t

-- The stage of the last banner, or the one to start with.
unfoldable pub last_banner : String → List Bytes → String
unfolding yt_dlp_stage
last_banner s [] = s
last_banner s (line ∷ lines) = last_banner (or_stage s (yt_dlp_stage line)) lines

banner-IsStage :
    (a b c : Bool) (s : String)
    → (if a
        then some "merging"
        else if b
        then some "converting"
        else if c
        then some "downloading"
        else none)
      ≡ some s
    → IsStage s
banner-IsStage true b c s h = inr (inl (sym (some_injective h)))
banner-IsStage false true c s h = inr (inr (sym (some_injective h)))
banner-IsStage false false true s h = inl (sym (some_injective h))
banner-IsStage false false false s h = cc

yt_dlp_stage-IsStage : (line : Bytes) (s : String) → yt_dlp_stage line ≡ some s → IsStage s
unfolding yt_dlp_stage
yt_dlp_stage-IsStage line s h = banner-IsStage _ _ _ s h

clamp_percent-le : (n : ℤ) → clamp_percent n ≤ 100000
unfolding clamp_percent
clamp_percent-le (pos n) = ground arith
clamp_percent-le (negsuc n) = omega arith

or_stage-IsStage :
    (s : String) (line : Bytes) → IsStage s → IsStage (or_stage s (yt_dlp_stage line))
or_stage-IsStage s line h = elim (Option-cases (yt_dlp_stage line)) [
  | inl e ↦ rw e h
  | inr (t, e) ↦ rw e (yt_dlp_stage-IsStage line t e)
]

last_banner-IsStage : (s : String) (lines : List Bytes) → IsStage s → IsStage (last_banner s lines)
unfolding last_banner
last_banner-IsStage s [] h = h
last_banner-IsStage s (line ∷ lines) h =
    last_banner-IsStage (or_stage s (yt_dlp_stage line)) lines (or_stage-IsStage s line h)

emitted-append : (o : Option Progress) (l m : List Progress) → emitted o (l ++ m) ≡ emitted o l ++ m
emitted-append none l m = refl
emitted-append (some p) l m = refl

module _ (read : Bytes → Option ℤ) (text : Bytes → String) where
  told-InBar :
      (line : Bytes) (p : Progress) (pct : Option ℤ)
      → progress_of read text line pct ≡ some p
      → InBar p.percent
  unfolding progress_of
  told-InBar line p none h = cc
  told-InBar line p (some pct) h =
      subst (λ (q : Progress). InBar q.percent) (some_injective h) (clamp_percent-le pct)

  parse_progress-InBar :
      (line : Bytes) (p : Progress) → parse_progress read text line ≡ some p → InBar p.percent
  unfolding parse_progress
  parse_progress-InBar line p h = elim (Option-cases (leftmost percent_here line)) [
    | inl e ↦ cc (sym (ap (λ r. and_then r (λ m. progress_of read text line (read m))) e) ∙ h)
    | inr (m, e) ↦
        told-InBar line p (read m)
          (sym (ap (λ r. and_then r (λ m. progress_of read text line (read m))) e) ∙ h)
  ]

  handle_line-stage :
      (s : String) (line : Bytes)
      → (handle_line read text s line).0 ≡ or_stage s (yt_dlp_stage line)
  unfolding handle_line
  handle_line-stage s line = elim (Option-cases (yt_dlp_stage line)) [
    | inl e ↦ rw e refl
    | inr (t, e) ↦ rw e refl
  ]

  handle_line-told :
      (s : String) (line : Bytes) (p : Progress)
      → yt_dlp_stage line ≡ none
      → parse_progress read text line ≡ some p
      → handle_line read text s line ≡ (s, some (record p { stage = s }))
  unfolding handle_line
  handle_line-told s line p h k = rw (h, k) refl

  -- The stage that the handler keeps is that of the last banner.
  reports-append :
      (s : String) (front lines : List Bytes)
      → reports read text s (front ++ lines)
        ≡ reports read text s front ++ reports read text (last_banner s front) lines
  unfolding reports last_banner
  reports-append s [] lines = refl
  reports-append s (line ∷ front) lines =
      let (after_, told) = handle_line read text s line in
      ap (emitted told) (
        reports-append after_ front lines
        ∙ ap
            (λ st. reports read text after_ front ++ reports read text (last_banner st front) lines)
            (handle_line-stage s line))
      ∙ emitted-append told (reports read text after_ front)
          (reports read text (last_banner (or_stage s (yt_dlp_stage line)) front) lines)

  -- A line that tells of a percentage is reported with at most 100% and under the stage of the last banner in
  -- front of it, or the stage of the download if there is none.
  pub reports-told :
      (front : List Bytes) (line : Bytes) (p : Progress)
      → yt_dlp_stage line ≡ none
      → parse_progress read text line ≡ some p
      → (reports read text "downloading" (front ++ line ∷ [])
          ≡ reports read text "downloading" front
            ++ record p { stage = last_banner "downloading" front } ∷ [])
        × InBar p.percent
        × IsStage (last_banner "downloading" front)
  unfolding reports
  reports-told front line p h k =
      let s = last_banner "downloading" front in
      (
        reports-append "downloading" front (line ∷ [])
            ∙ ap
                (λ (r : String × Option Progress).
                  reports read text "downloading" front ++ emitted r.1 [])
                (handle_line-told s line p h k),
        parse_progress-InBar line p k,
        last_banner-IsStage "downloading" front (inl refl),
      )
