-- ===== src/Examples/Samples.antt =====
-- A job that the examples share.
use aiofiles.Prelude.{none, some}
use aiofiles.Jobs.Types.{Job, image, done, at}

abbrev pub old_job : Job
old_job = record {
  id = "a";
  kind = image;
  title = "t";
  source = "s";
  params = "{}";
  input_path = "/u/x";
  output_path = "/d/a";
  output_name = "a";
  output_size = 7;
  status = done;
  progress = at 100000;
  stage = "";
  error = "";
  created_at = 1;
  updated_at = 1;
  started_at = none;
  finished_at = none;
  expires_at = some 10;
}
