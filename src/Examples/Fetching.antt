-- ===== src/Examples/Fetching.antt =====
-- The runs of yt-dlp, the moves of files and the reports of processes at concrete inputs.
use aiofiles.Prelude.{
  ℕ, ◌+◌, ◌≤◌, String, true, false, ◌≡◌, refl, ◌⊎◌, List, [], ◌∷◌, ◌++◌, ◌==◌, codes, some, none,
  ok, Option, length, ltb, if◌then◌else◌, arith,
}
use aiofiles.Prelude.Int.{ℤ, pos}
use aiofiles.Prelude.Bytes.{Bytes, same_codes}
use aiofiles.Jobs.Types.{Progress, at}
use aiofiles.Presets.Source.{v4, quad}
use aiofiles.Runner.Names.{squeeze}
use aiofiles.Runner.Names.Ends.{Loop, squeeze-Loop}
use aiofiles.Runner.Moves.{Files, System, move_file, cross_device, renamed}
use aiofiles.Runner.Moves.Outcome.{IsMove, move_file-IsMove}
use aiofiles.Runner.Ring.{max_stderr_bytes}
use aiofiles.Runner.Lines.Split.{text_lines}
use aiofiles.Runner.Process.{Child, run_proc, exit_error, by_line, exited}
use aiofiles.Runner.Process.Report.{error_lines, tail_text, run_proc-tail_text}
use aiofiles.Runner.YtDlp.{yt_dlp_stage}
use aiofiles.Runner.YtDlp.Formats.{RawFormat, Numbers}
use aiofiles.Runner.YtDlp.Formats.Order.{IsLinear}
use aiofiles.Runner.YtDlp.Media.{RawInfo, info, no_entries}
use aiofiles.Runner.YtDlp.Progress.{
  parse_progress, progress_of, reports, leftmost, percent_here, clamp_percent, span, blanks, number,
}
use aiofiles.Runner.YtDlp.Progress.Reports.{last_banner, InBar, IsStage, reports-told}
use aiofiles.Runner.YtDlp.Collect.{Entry, Reader, collect_download}
use aiofiles.Runner.YtDlp.Collect.Largest.{Collected, collect_download-Collected}
use aiofiles.Runner.YtDlp.Run.{Request, Machine, job_dir, run}
use aiofiles.Runner.YtDlp.Run.Delivered.{IsDelivered, run-IsDelivered}

squeeze-Loop_example : (n : ℕ) × (n ≤ 5) × Loop n (codes "a...b") (squeeze 5 (codes "a...b"))
squeeze-Loop_example = squeeze-Loop 5 (codes "a...b") (omega arith)

abbrev numbers : Numbers ℕ
numbers = record { above = λ a b. ltb b a; nought = λ n. n == 0 }

ltb_asym : (a b : ℕ) → ltb b a ≡ true → ltb a b ≡ false
ltb_asym a b h = ground (arith, h)

ltb_split : (a b c : ℕ) → ltb c a ≡ true → (ltb b a ≡ true) ⊎ (ltb c b ≡ true)
ltb_split a b c h = ground (arith, h)

abbrev linear : IsLinear numbers
linear = record { asym = ltb_asym; split = ltb_split }

abbrev sound_only : RawFormat ℕ
sound_only = record {
  format_id = codes "140";
  ext = codes "m4a";
  resolution = [];
  width = pos 0;
  height = pos 0;
  fps = 0;
  vcodec = codes "none";
  acodec = codes "mp4a";
  filesize = pos 0;
  filesize_approx = pos 9;
  tbr = 128;
  format_note = [];
}

abbrev film : RawFormat ℕ
film = record sound_only {
  format_id = codes "137";
  vcodec = codes "avc1";
  resolution = codes "1920x1080";
}

abbrev page : RawInfo ℕ
page =
    info
      (record {
        kind = codes "video";
        title = codes "Clip";
        uploader = [];
        channel = codes "me";
        uploader_id = [];
        duration = 12;
        thumbnail = [];
        webpage_url = [];
        extractor = [];
        extractor_lc = codes "web";
        formats = sound_only ∷ film ∷ [];
      })
      no_entries

abbrev read_number : Bytes → Option ℤ
read_number s = some (pos 42300)

abbrev a_text : Bytes → String
a_text s = "t"

abbrev banner : Bytes
banner = codes "[Merger] Merging"

abbrev told : Bytes
told = codes "[download]  42.3% of 1MiB at 2MiB/s ETA 00:12"

abbrev at_42 : Progress
at_42 = record { percent = at 42300; stage = ""; speed = "t"; eta = "t" }

reports-told_example :
    (reports read_number a_text "downloading" ((banner ∷ []) ++ told ∷ [])
      ≡ reports read_number a_text "downloading" (banner ∷ [])
        ++ record at_42 { stage = last_banner "downloading" (banner ∷ []) } ∷ [])
    × InBar at_42.percent
    × IsStage (last_banner "downloading" (banner ∷ []))
unfolding yt_dlp_stage parse_progress progress_of leftmost percent_here clamp_percent span blanks
    number
reports-told_example = reports-told read_number a_text (banner ∷ []) told at_42 refl refl

abbrev reader : Reader
reader = record {
  lower = λ s. s;
  read_file = λ p. some (codes "{}");
  title_in = λ s. some (codes "Clip");
}

abbrev produced : List Entry
produced =
    record { name = codes "clip.info.json"; is_dir = false; size = some 90 }
    ∷ record { name = codes "clip.jpg"; is_dir = false; size = some 4 }
    ∷ record { name = codes "clip.mp4"; is_dir = false; size = some 70 }
    ∷ []

collect_download-Collected_example :
    Collected reader
      (codes "/tmp/dl")
      produced
      (collect_download reader (codes "/tmp/dl") (some produced))
collect_download-Collected_example = collect_download-Collected reader (codes "/tmp/dl") produced

abbrev on_disk : Files
on_disk p = if same_codes p (codes "/t/a") then some (codes "whole") else none

abbrev other_disk : System
other_disk = record {
  mkdir_ok = true;
  rename = cross_device;
  open_ok = true;
  create_ok = true;
  copied = some 2;
  sync_ok = true;
  close_ok = true;
  unlink_dst_ok = true;
  unlink_src_ok = true;
}

move_file-IsMove_example :
    IsMove other_disk
      (codes "/t/a")
      (codes "/o/a")
      (codes "whole")
      on_disk
      (move_file other_disk (codes "/t/a") (codes "/o/a") on_disk)
move_file-IsMove_example =
    move_file-IsMove other_disk (codes "/t/a") (codes "/o/a") (codes "whole") on_disk refl refl refl

abbrev machine : Machine
machine = record {
  decoder = λ raw p. ok p;
  net = record {
    parse_url = λ s. some (record {
      scheme = codes "https";
      host = codes "8.8.8.8";
      hostname = codes "8.8.8.8";
      text = s;
    });
    parse_addr = λ s. some (v4 (quad 8 8 8 8));
    lookup_addrs = λ s. none;
  };
  work_dir_ok = true;
  run_ok = λ args. true;
  entries = some produced;
  reader = reader;
  taken = λ name. false;
  draw = λ n. codes "0f";
  moving = record other_disk { rename = renamed };
}

abbrev request : Request
request = record {
  id = codes "a1b2";
  params = codes "{}";
  source = codes "https://8.8.8.8/v";
  title = codes "v";
  tmp_dir = codes "/tmp";
  download_dir = codes "/out";
}

abbrev left_behind : Files
left_behind p = if same_codes p (codes "/tmp/dl-a1/clip.mp4") then some (codes "film") else none

run-IsDelivered_example : IsDelivered machine request left_behind (run machine request left_behind)
unfolding job_dir
run-IsDelivered_example = run-IsDelivered machine request left_behind (λ name. refl)

abbrev failing : Child
failing = record {
  out_pipe_ok = true;
  err_pipe_ok = true;
  start_ok = true;
  out = [];
  errors = codes "ERROR: no su" ∷ codes "ch video\n" ∷ [];
  wait = exited (pos 1);
  canceled = false;
}

abbrev as_is : Bytes → Bytes
as_is s = s

run_proc-tail_text_example :
    ((run_proc as_is (codes "yt-dlp") by_line failing).error
      ≡ some (
          exit_error (record {
            bin = codes "yt-dlp";
            code = pos 1;
            stderr = tail_text as_is (error_lines failing);
          })))
    × (length (tail_text as_is (error_lines failing)) ≤ max_stderr_bytes + 3)
    × ((run_proc as_is (codes "yt-dlp") by_line failing).err_lines ≡ error_lines failing)
unfolding text_lines
run_proc-tail_text_example =
    run_proc-tail_text as_is (codes "yt-dlp") by_line failing (pos 1) (λ s. omega arith)
      (omega arith, tt) (refl, refl, refl) refl refl
