-- ===== src/Presets/Download/Laws.antt =====
-- What the accepted parameters of a download job satisfy.
use aiofiles.Prelude.{
  ℕ, ◌≤◌, ◌≡◌, refl, ◌⊎◌, inl, inr, List, [], ◌∷◌, length, ok, arith, Bool-cases, >>-ok, >>=-ok,
  ok-injective,
}
use mathlib.Core.Path.{subst}
use aiofiles.Prelude.Int.{ℤ}
use aiofiles.Presets.Checks.{check_retention, Decoder, decode}
use aiofiles.Presets.Download.FormatId.{IsFormatId, matches, matches-IsFormatId}
use aiofiles.Presets.Download.{
  DownloadParams, download_defaults, check_mode, check_format_id, check_streams, check_download,
  parse_download,
}

-- A selector that is absent, or an id or a merge of two, and at most 64 bytes long.
abbrev pub IsSelector : List ℕ → Type 0
IsSelector s = ((s ≡ []) ⊎ IsFormatId s) × (length s ≤ 64)

check_format_id-IsSelector : (s : List ℕ) → check_format_id s ≡ ok tt → IsSelector s
unfolding check_format_id
check_format_id-IsSelector [] h = (inl refl, omega arith)
check_format_id-IsSelector (c ∷ s) h = elim (Bool-cases (matches (c ∷ s))) [
  | inl e ↦ (inr (matches-IsFormatId (c ∷ s) e), ground arith)
  | inr e ↦ absurd (ground arith)
]

check_download-IsSelector :
    (p : DownloadParams) {q : DownloadParams} → check_download p ≡ ok q → IsSelector q.format_id
unfolding check_download
check_download-IsSelector p h =
    let (_, h) = >>-ok (check_mode p.mode) _ h in
    let (a, h) = >>-ok (check_format_id p.format_id) _ h in
    let (_, h) = >>-ok (check_streams p) _ h in
    let (_, h) = >>-ok (check_retention p.retention_days) _ h in
    subst (λ r. IsSelector r.format_id) (ok-injective h) (check_format_id-IsSelector p.format_id a)

-- What the runner relies on of an accepted download beside its selector.
pub parse_download-streams :
    (json : Decoder DownloadParams) (raw : List ℕ) (retention : ℤ) {q : DownloadParams}
    → parse_download json raw retention ≡ ok q
    → check_streams q ≡ ok tt
unfolding parse_download check_download
parse_download-streams json raw retention h =
    let (p, _, h) = >>=-ok (decode json raw (download_defaults retention)) check_download h in
    let (_, h) = >>-ok (check_mode p.mode) _ h in
    let (_, h) = >>-ok (check_format_id p.format_id) _ h in
    let (a, h) = >>-ok (check_streams p) _ h in
    let (_, h) = >>-ok (check_retention p.retention_days) _ h in
    subst (λ r. check_streams r ≡ ok tt) (ok-injective h) a

-- The format selector of an accepted download is empty, or it is one id or two ids joined by a plus
-- sign, each of which opens with a letter or a digit, so that no part can be read as an option; and
-- it has at most 64 bytes.
pub parse_download-IsSelector :
    (json : Decoder DownloadParams) (raw : List ℕ) (retention : ℤ) {q : DownloadParams}
    → parse_download json raw retention ≡ ok q
    → IsSelector q.format_id
unfolding parse_download
parse_download-IsSelector json raw retention h =
    let (p, _, e) = >>=-ok (decode json raw (download_defaults retention)) check_download h in
    check_download-IsSelector p e
