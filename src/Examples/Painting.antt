-- ===== src/Examples/Painting.antt =====
-- An image job at a concrete input.
use aiofiles.Prelude.{false, true, none, some, ok, codes, refl, if◌then◌else◌}
use aiofiles.Prelude.Bytes.{same_codes}
use aiofiles.Runner.Moves.{Files, renamed, put_file}
use aiofiles.Runner.Image.Run.{Request, Machine, run}
use aiofiles.Runner.Image.Run.Painted.{IsPainted, run-IsPainted}

abbrev request : Request
request = record {
  id = codes "a1b2";
  params = codes "{}";
  input = codes "/in/cat.jpg";
  source = codes "cat.jpg";
  title = codes "cat.jpg";
  tmp_dir = codes "/tmp";
  download_dir = codes "/out";
}

-- ImageMagick writes a picture at the temporary path of the job.
abbrev machine : Machine
machine = record {
  decoder = λ raw p. ok (record p { format = "png" });
  fold = λ s. s;
  source_ext = λ s. "jpg";
  stat = λ s. some false;
  tmp_ok = true;
  start = λ t args files. some (put_file (codes "/tmp/img-a1.png") (codes "picture") files);
  png_size = λ s. none;
  taken = λ name. false;
  draw = λ n. codes "0f";
  moving = record {
    mkdir_ok = true;
    rename = renamed;
    open_ok = true;
    create_ok = true;
    copied = none;
    sync_ok = true;
    close_ok = true;
    unlink_dst_ok = true;
    unlink_src_ok = true;
  };
}

abbrev on_disk : Files
on_disk path = if same_codes path (codes "/in/cat.jpg") then some (codes "cat") else none

run-IsPainted_example : IsPainted machine request on_disk (run machine request on_disk)
run-IsPainted_example = run-IsPainted machine request on_disk (λ s t. refl)
