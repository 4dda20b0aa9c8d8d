-- ===== src/Runner/YtDlp/Vetted.antt =====
-- That no parameter of a download reads as an option of yt-dlp.
use aiofiles.Prelude.{
  ℕ, true, false, ◌≡◌, refl, sym, ◌⊎◌, inl, inr, List, [], ◌∷◌, ◌++◌, if◌then◌else◌, str_eq, codes,
  ok, arith, Bool-cases, >>-ok,
}
use mathlib.Core.Path.{subst}
use mathlib.Core.List.{append-nil}
use aiofiles.Prelude.Int.{ℤ}
use aiofiles.Prelude.Bytes.{Bytes, has_byte}
use aiofiles.Presets.Tables.{audio_formats, audio_bitrates, video_containers}
use aiofiles.Presets.Checks.{Decoder, one_of, one_of_sound}
use aiofiles.Presets.Download.{DownloadParams, parse_download, check_streams, check_audio}
use aiofiles.Presets.Download.FormatId.{IsFormatId, IsId, id, single, merge}
use aiofiles.Presets.Download.Laws.{IsSelector, parse_download-IsSelector, parse_download-streams}
use aiofiles.Runner.Numerals.{starts_dash, starts_dash-append}
use aiofiles.Runner.Arguments.{AllVetted, plain, AllVetted-append, one_of_plain}
use aiofiles.Runner.YtDlp.{
  Args, video_format_selector, audio_mode, video_mode, embeds, front_args, yt_dlp_args,
}

-- The options that the program gives yt-dlp. The end of the options is none of them.
abbrev options : List Bytes
options =
    codes "--no-playlist"
    ∷ codes "--no-warnings"
    ∷ codes "--newline"
    ∷ codes "--progress"
    ∷ codes "--no-part"
    ∷ codes "--restrict-filenames"
    ∷ codes "--write-info-json"
    ∷ codes "-o"
    ∷ codes "-x"
    ∷ codes "--audio-format"
    ∷ codes "--audio-quality"
    ∷ codes "-f"
    ∷ codes "--merge-output-format"
    ∷ codes "--embed-subs"
    ∷ codes "--embed-thumbnail"
    ∷ codes "--embed-metadata"
    ∷ []

abbrev pub Known : Args → Type 0
Known args = AllVetted options args

Known-audio_mode : (p : DownloadParams) → check_audio p ≡ ok tt → Known (audio_mode p)
unfolding check_audio
Known-audio_mode p h =
    let (a, h) = >>-ok (one_of "audio_format" p.audio_format audio_formats) _ h in
    let format = plain options (codes p.audio_format) (
      one_of_plain p.audio_format audio_formats (refl, (refl, (refl, (refl, (refl, tt)))))
        (one_of_sound "audio_format" p.audio_format audio_formats a)) in
    elim (Bool-cases (str_eq p.audio_bitrate "")) [
      | inl e ↦ rw e (refl, (refl, (format, tt)))
      | inr e ↦
          let b =
            one_of_plain p.audio_bitrate audio_bitrates
              (refl, (refl, (refl, (refl, (refl, (refl, tt))))))
              (one_of_sound "audio_bitrate" p.audio_bitrate audio_bitrates (rw e at h)) in
          rw e (
            refl,
            (
              refl,
              (
                format,
                (
                  refl,
                  (
                    plain options (codes p.audio_bitrate ++ codes "K")
                        (starts_dash-append (codes p.audio_bitrate) (codes "K") b refl),
                    tt,
                  ),
                ),
              ),
            ),
          )
    ]

IsId-undashed : {s : List ℕ} (m : List ℕ) → IsId s → starts_dash (s ++ m) ≡ false
IsId-undashed m (id {c} e h) = ground (arith, e)

IsFormatId-undashed : (s : Bytes) → IsFormatId s → starts_dash s ≡ false
IsFormatId-undashed s (single h) =
    subst (λ x. starts_dash x ≡ false) (append-nil s) (IsId-undashed [] h)
IsFormatId-undashed s (merge a b h k e) =
    subst (λ x. starts_dash x ≡ false) (sym e) (IsId-undashed (b'+' ∷ b) h)

selector_undashed : (s : Bytes) → IsSelector s → starts_dash (video_format_selector s) ≡ false
unfolding video_format_selector
selector_undashed [] h = refl
selector_undashed (c ∷ s) (inl e, l) = absurd cc
selector_undashed (c ∷ s) (inr f, l) =
    let e = IsFormatId-undashed (c ∷ s) f in
    elim (Bool-cases (has_byte b'+' (c ∷ s))) [
      | inl b ↦ rw (b, video_format_selector) e
      | inr b ↦ rw (b, video_format_selector) e
    ]

Known-video_mode :
    (p : DownloadParams)
    → IsSelector p.format_id
    → (str_eq p.container "" ≡ true) ⊎ (one_of "container" p.container video_containers ≡ ok tt)
    → Known (video_mode p)
unfolding video_mode
Known-video_mode p h (inl e) = rw e (
  refl,
  (plain options (video_format_selector p.format_id) (selector_undashed p.format_id h), tt),
)
Known-video_mode p h (inr e) =
    let f = plain options (video_format_selector p.format_id) (selector_undashed p.format_id h) in
    let c = plain options (codes p.container) (
      one_of_plain p.container video_containers (refl, (refl, (refl, (refl, tt))))
        (one_of_sound "container" p.container video_containers e)) in
    elim (Bool-cases (str_eq p.container "")) [
      | inl g ↦ rw g (refl, (f, tt))
      | inr g ↦ rw g (refl, (f, (refl, (c, tt))))
    ]

Known-embeds : (p : DownloadParams) → Known (embeds p)
Known-embeds p = ground arith

Known-mode :
    (p : DownloadParams)
    → IsSelector p.format_id
    → check_streams p ≡ ok tt
    → Known (if str_eq p.mode "audio" then audio_mode p else video_mode p)
unfolding check_streams
Known-mode p s h = elim (Bool-cases (str_eq p.mode "audio")) [
  | inl e ↦ rw e (Known-audio_mode p (rw (e, check_streams) at h))
  | inr e ↦ elim (Bool-cases (str_eq p.container "")) [
    | inl f ↦ rw e (Known-video_mode p s (inl f))
    | inr f ↦ rw e (Known-video_mode p s (inr (rw (e, f, check_streams) at h)))
  ]
]

-- A command whose last argument is the address, behind the end of the options, and whose other arguments
-- are known: the end of the options is none of those.
abbrev pub EndsWith : Bytes → Args → Type 0
EndsWith url args = (front : Args) × (args ≡ front ++ (codes "--" ∷ url ∷ [])) × Known front

-- Of the command that an accepted download leads to, every argument in front of the end of the options is one
-- of the program's own options or does not begin with a dash, and what stands behind it is the address alone,
-- if the template of the output names begins with no dash.
pub yt_dlp_args-EndsWith :
    (json : Decoder DownloadParams) (raw : List ℕ) (retention : ℤ) (tmpl url : Bytes)
    {p : DownloadParams}
    → parse_download json raw retention ≡ ok p
    → starts_dash tmpl ≡ false
    → EndsWith url (yt_dlp_args p tmpl url)
unfolding yt_dlp_args front_args
yt_dlp_args-EndsWith json raw retention tmpl url {p} h t =
    let selector = parse_download-IsSelector json raw retention h in
    let streams = parse_download-streams json raw retention h in
    (
      front_args p tmpl,
      refl,
      (
        refl,
        (
          refl,
          (
            refl,
            (
              refl,
              (
                refl,
                (
                  refl,
                  (
                    refl,
                    (
                      refl,
                      (
                        plain options tmpl t,
                        AllVetted-append options
                            (if str_eq p.mode "audio" then audio_mode p else video_mode p)
                            (embeds p) (Known-mode p selector streams) (Known-embeds p),
                      ),
                    ),
                  ),
                ),
              ),
            ),
          ),
        ),
      ),
    )
