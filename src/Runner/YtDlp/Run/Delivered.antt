-- ===== src/Runner/YtDlp/Run/Delivered.antt =====
-- That a download that succeeds puts the whole of the file that was found in its place.
use aiofiles.Prelude.{
  Bool, true, false, not, ◌≡◌, refl, sym, ap, ◌∙◌, inl, inr, List, [], ◌∷◌, ◌++◌, if◌then◌else◌,
  codes, Option, none, some, Result, ok, err, arith, Bool-cases, Option-cases,
}
use mathlib.Core.Path.{subst}
use aiofiles.Prelude.Bytes.{Bytes, same_codes, same_codes-eq, has_prefix}
use aiofiles.Presets.Checks.{Checked}
use aiofiles.Presets.Download.{DownloadParams}
use aiofiles.Runner.YtDlp.{yt_dlp_args}
use aiofiles.Runner.Moves.{Files, Moved, move_file}
use aiofiles.Runner.Moves.Outcome.{IsMove, move_file-IsMove, move_file_absent}
use aiofiles.Runner.YtDlp.Collect.{Entry, CollectError, in_dir, collect_download}
use aiofiles.Runner.YtDlp.Collect.Largest.{Collected, IsLargest, collect_download-Collected}
use aiofiles.Runner.YtDlp.Run.{
  Request, Machine, RunFailure, Ran, job_dir, output_path, clear_dir, placed, after_collect,
  run_in_dir, run_checked, run, checked, failed, no_work_dir,
}

-- The output is the whole of the first of the largest media files in the work directory, stands in the directory of
-- outputs, and nothing is left in the work directory.
abbrev pub IsDelivered : Machine → Request → Files → Ran → Type 0
IsDelivered m q files (err e, after) = Unit
IsDelivered m q files (ok (dst, title), after) =
    (es : List Entry) × (produced : Bytes) × (m.entries ≡ some es)
    × IsLargest m.reader (job_dir q) es produced
    × (dst ≡ output_path m q title produced)
    × (after dst ≡ files produced)
    × ((path : Bytes) → has_prefix path (job_dir q ++ b'/' ∷ []) ≡ true → after path ≡ none)

in_dir-below : (dir name : Bytes) → has_prefix (in_dir dir name) (dir ++ b'/' ∷ []) ≡ true
in_dir-below [] name = ground arith
in_dir-below (c ∷ dir) name = ground (arith, in_dir-below dir name)

elsewhere :
    (p s t : Bytes) → has_prefix s p ≡ true → has_prefix t p ≡ false → same_codes s t ≡ false
elsewhere p s t h k = elim (Bool-cases (same_codes s t)) [
  | inl e ↦ cc (sym h ∙ ap (λ x. has_prefix x p) (same_codes-eq s t e) ∙ k)
  | inr e ↦ e
]

elsewhere_too :
    (p s t : Bytes) → has_prefix s p ≡ true → has_prefix t p ≡ false → same_codes t s ≡ false
elsewhere_too p s t h k = elim (Bool-cases (same_codes t s)) [
  | inl e ↦ cc (sym h ∙ ap (λ x. has_prefix x p) (sym (same_codes-eq t s e)) ∙ k)
  | inr e ↦ e
]

module _ (m : Machine) (q : Request) (files : Files)
    (apart : (name : Bytes)
      → has_prefix (in_dir q.download_dir name) (job_dir q ++ b'/' ∷ []) ≡ false) where
  -- The same before the work directory is removed.
  Placed : Ran → Type 0
  Placed (err e, after) = Unit
  Placed (ok (dst, title), after) =
      (es : List Entry) × (produced : Bytes) × (m.entries ≡ some es)
      × IsLargest m.reader (job_dir q) es produced
      × (dst ≡ output_path m q title produced)
      × (after dst ≡ files produced)

  apart_from :
      (name : Bytes) (title produced : Bytes)
      → produced ≡ in_dir (job_dir q) name
      → (same_codes produced (output_path m q title produced) ≡ false)
        × (same_codes (output_path m q title produced) produced ≡ false)
  unfolding output_path
  apart_from name title produced h =
      let dst = output_path m q title produced in
      let inside : has_prefix produced (job_dir q ++ b'/' ∷ []) ≡ true =
        rw h (in_dir-below (job_dir q) name) in
      let outside : has_prefix dst (job_dir q ++ b'/' ∷ []) ≡ false = apart _ in
      (elsewhere _ produced dst inside outside, elsewhere_too _ produced dst inside outside)

  -- The work directory goes, and the output does not stand in it.
  cleared :
      (r : Result RunFailure (Bytes × Bytes)) (left : Files)
      → Placed (r, left)
      → IsDelivered m q files (r, clear_dir (job_dir q) left)
  unfolding Placed output_path
  cleared (err e) left h = tt
  cleared (ok (dst, title)) left (es, produced, e, largest, d, content) =
      (es, produced, e, largest, d, rw (d, apart) (rw d at content), λ path h. rw h refl)

  -- The move of a file that is there, or that is not.
  placed-Placed :
      (es : List Entry) (title produced : Bytes) (mv : Moved)
      → m.entries ≡ some es
      → IsLargest m.reader (job_dir q) es produced
      → (content : Bytes) → files produced ≡ some content
      → IsMove m.moving produced (output_path m q title produced) content files mv
      → Placed (placed (output_path m q title produced) title mv)
  unfolding Placed
  placed-Placed es title produced (ok u, after) h largest content there (at, _, _) =
      (es, produced, h, largest, refl, at ∙ sym there)
  placed-Placed es title produced (err e, after) h largest content there w = tt

  moved :
      (es : List Entry) (title produced : Bytes)
      → m.entries ≡ some es
      → IsLargest m.reader (job_dir q) es produced
      → Placed (after_collect m q (ok (title, produced)) files)
  unfolding Placed
  moved es title produced h (front, back, e, n, same, at, sized, fs, bs) =
      let dst = output_path m q title produced in
      let (a, b) = apart_from e.name title produced at in
      elim (Option-cases (files produced)) [
        | inl none_there ↦
            let (f, stays) = move_file_absent m.moving produced dst files none_there in
            subst (λ mv. Placed (placed dst title mv)) (sym stays) tt
        | inr (content, there) ↦
            placed-Placed es title produced (move_file m.moving produced dst files) h
              (front, back, e, n, same, at, sized, fs, bs) content there
              (move_file-IsMove m.moving produced dst content files a b there)
      ]

  Collected-Placed :
      (es : List Entry) (c : Result CollectError (Bytes × Bytes))
      → m.entries ≡ some es
      → Collected m.reader (job_dir q) es c
      → Placed (after_collect m q c files)
  Collected-Placed es (ok (title, produced)) h k = moved es title produced h k
  Collected-Placed es (err e) h k = unfold Placed in tt

  -- What follows the end of yt-dlp.
  collect-Placed :
      (o : Option (List Entry))
      → m.entries ≡ o
      → Placed (after_collect m q (collect_download m.reader (job_dir q) o) files)
  collect-Placed none h = unfold Placed collect_download in tt
  collect-Placed (some es) h =
      Collected-Placed es (collect_download m.reader (job_dir q) (some es)) h
        (collect_download-Collected m.reader (job_dir q) es)

  ended-Placed :
      (b : Bool)
      → Placed (
          if not b
          then (err failed, files)
          else after_collect m q (collect_download m.reader (job_dir q) m.entries) files)
  ended-Placed false = unfold Placed in tt
  ended-Placed true = collect-Placed m.entries refl

  run_in_dir-IsDelivered :
      (p : DownloadParams) (url : Bytes) → IsDelivered m q files (run_in_dir m q p url files)
  unfolding run_in_dir
  run_in_dir-IsDelivered p url =
      let ran =
        if not
          (m.run_ok (yt_dlp_args p (in_dir (job_dir q) (codes "%(title).80B-%(id)s.%(ext)s")) url))
        then (err failed, files)
        else after_collect m q (collect_download m.reader (job_dir q) m.entries) files in
      cleared ran.0 ran.1 (ended-Placed _)

  in_work_dir-IsDelivered :
      (p : DownloadParams) (url : Bytes) (b : Bool)
      → IsDelivered m q files
          (if not b then (err no_work_dir, files) else run_in_dir m q p url files)
  in_work_dir-IsDelivered p url true = run_in_dir-IsDelivered p url
  in_work_dir-IsDelivered p url false = tt

  run_checked-IsDelivered :
      (c : Checked (DownloadParams × Bytes)) → IsDelivered m q files (run_checked m q c files)
  run_checked-IsDelivered (err e) = tt
  run_checked-IsDelivered (ok (p, url)) = in_work_dir-IsDelivered p url m.work_dir_ok

  -- If the directory of outputs is not below the work directory of the job, a download that succeeds has put the
  -- whole of the first of the largest media files that yt-dlp left at the path it answers with, and has removed
  -- everything below the work directory.
  pub run-IsDelivered : IsDelivered m q files (run m q files)
  unfolding run
  run-IsDelivered = run_checked-IsDelivered (checked m q)
