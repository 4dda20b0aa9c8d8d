-- ===== src/Runner/YtDlp/Probe/Looked.antt =====
-- What a lookup tells, and what its errors do not tell.
use aiofiles.Prelude.{
  Bool, true, false, ◌≡◌, refl, ap, ◌∙◌, List, [], ◌∷◌, ◌==◌, none, some, ok, Bool-cases, inl, inr,
  concat, take,
}
use aiofiles.Prelude.Bytes.{Bytes, has_byte}
use aiofiles.Presets.Source.{validate_source_url}
use aiofiles.Runner.Capped.{write_all, write_all-take}
use aiofiles.Runner.Process.{Outcome, clean, to_writer, run_proc}
use aiofiles.Runner.Process.Report.{run_proc-clean}
use aiofiles.Runner.YtDlp.Formats.{Numbers}
use aiofiles.Runner.YtDlp.Media.{RawInfo, build_media_info}
use aiofiles.Runner.YtDlp.Probe.{
  before_query, redact_url, Prober, read_media, read_outcome, probe_checked, probe, probe_args,
  max_probe_bytes,
}

before_query-has_byte : (s : Bytes) → has_byte b'?' (before_query s) ≡ false
before_query-has_byte [] = refl
before_query-has_byte (c ∷ s) = elim (Bool-cases (c == b'?')) [
  | inl e ↦ rw (e, before_query) refl
  | inr e ↦ rw (e, before_query, e) (before_query-has_byte s)
]

abbrev pub opens_query : Bytes → Bool
opens_query [] = false
opens_query (c ∷ s) = c == b'?'

-- A redacted address has no query.
pub redact_url-has_byte : (u : Bytes) → opens_query u ≡ false → has_byte b'?' (redact_url u) ≡ false
unfolding redact_url
redact_url-has_byte [] h = refl
redact_url-has_byte (c ∷ s) h = rw (h, redact_url, h) (before_query-has_byte s)

module _ {F : Type 0} (num : Numbers F) (m : Prober num) where
  -- An outcome without an error is read from the first bytes that were written.
  read_outcome-written :
      (u : Bytes) (o : Outcome) (chunks : List Bytes)
      → o.error ≡ none
      → o.written ≡ chunks
      → read_outcome num m u o o.error
        ≡ read_media num u (m.unmarshal (take max_probe_bytes (concat chunks)))
  unfolding read_outcome
  read_outcome-written u o chunks h k =
      ap (λ e. read_outcome num m u o e) h
      ∙ ap
          (λ ls.
            read_media num u
              (m.unmarshal (write_all (record { buf = []; max = max_probe_bytes }) ls).buf))
          k
      ∙ ap (λ b. read_media num u (m.unmarshal b)) (write_all-take max_probe_bytes chunks)

  -- The lookup of an accepted address, if yt-dlp starts and ends well, tells what its output says, of which it reads
  -- the first 32 MiB.
  pub probe-build_media_info :
      (raw u : Bytes) (i : RawInfo F)
      → validate_source_url m.net raw ≡ ok u
      → ((m.start (probe_args u)).out_pipe_ok ≡ true)
        × ((m.start (probe_args u)).err_pipe_ok ≡ true)
        × ((m.start (probe_args u)).start_ok ≡ true)
      → (m.start (probe_args u)).wait ≡ clean
      → m.unmarshal (take max_probe_bytes (concat (m.start (probe_args u)).out)) ≡ some i
      → probe num m raw ≡ ok (build_media_info num i)
  unfolding probe probe_checked read_media
  probe-build_media_info raw u i h up well parsed =
      let c = m.start (probe_args u) in
      let (no_error, written) = run_proc-clean m.valid m.bin to_writer c up well in
      ap (λ x. probe_checked num m x) h
      ∙ read_outcome-written u (run_proc m.valid m.bin to_writer c) c.out no_error written
      ∙ ap (λ x. read_media num u x) parsed
