-- ===== src/Runner/YtDlp/Probe.antt =====
-- internal/runner/ytdlp.go: the lookup of an address.
pub mod Looked
use aiofiles.Prelude.{
  ℕ, String, Bool, true, false, List, [], ◌∷◌, ◌++◌, ◌==◌, if◌then◌else◌, codes, Option, none, some,
  Result, ok, err, ◌*◌, ◌^◌,
}
use aiofiles.Prelude.Bytes.{Bytes}
use aiofiles.Presets.Checks.{ValidationError, Checked}
use aiofiles.Presets.Source.{Lookup, validate_source_url}
use aiofiles.Runner.Capped.{CapWriter, write_all}
use aiofiles.Runner.Process.{Child, Outcome, ProcError, to_writer, run_proc}
use aiofiles.Runner.YtDlp.{Args}
use aiofiles.Runner.YtDlp.Formats.{Numbers}
use aiofiles.Runner.YtDlp.Media.{RawInfo, MediaInfo, build_media_info}

abbrev pub max_probe_bytes : ℕ
max_probe_bytes = 32 * 2 ^ 20

abbrev pub before_query : Bytes → Bytes
before_query [] = []
before_query (c ∷ s) = if c == b'?' then [] else c ∷ before_query s

-- A question mark at the very start cuts nothing off.
unfoldable pub redact_url : Bytes → Bytes
redact_url [] = []
redact_url (c ∷ s) = if c == b'?' then c ∷ s else c ∷ before_query s

unfoldable pub probe_args : Bytes → Args
probe_args u =
    codes "-J"
    ∷ codes "--no-warnings"
    ∷ codes "--no-playlist"
    ∷ codes "--no-download"
    ∷ codes "--"
    ∷ u
    ∷ []

-- The address in an error is the redacted one; the error of the process comes with it.
pub data ProbeError : Type 0 where
  refused : ValidationError → ProbeError
  failed : Bytes → ProcError → ProbeError
  unparsed : Bytes → ProbeError

module _ {F : Type 0} (num : Numbers F) where
  -- What yt-dlp does when it is started with some arguments, and `json.Unmarshal`.
  pub record Prober : Type 0 where
    pub valid : Bytes → Bytes
    pub bin : Bytes
    pub net : Lookup
    pub start : Args → Child
    pub unmarshal : Bytes → Option (RawInfo F)

  abbrev pub read_media : Bytes → Option (RawInfo F) → Result ProbeError (MediaInfo F)
  unfolding build_media_info
  read_media u none = err (unparsed (redact_url u))
  read_media u (some i) = ok (build_media_info num i)

  abbrev pub read_outcome :
      Prober → Bytes → Outcome → Option ProcError → Result ProbeError (MediaInfo F)
  unfolding write_all
  read_outcome m u o (some e) = err (failed (redact_url u) e)
  read_outcome m u o none =
      let out = write_all (record { buf = []; max = max_probe_bytes }) o.written in
      read_media u (m.unmarshal out.buf)

  abbrev pub probe_checked : Prober → Checked Bytes → Result ProbeError (MediaInfo F)
  unfolding run_proc
  probe_checked m (err e) = err (refused e)
  probe_checked m (ok u) =
      let o = run_proc m.valid m.bin to_writer (m.start (probe_args u)) in
      read_outcome m u o o.error

  unfoldable pub probe : Prober → Bytes → Result ProbeError (MediaInfo F)
  unfolding validate_source_url probe_checked
  probe m raw = probe_checked m (validate_source_url m.net raw)
