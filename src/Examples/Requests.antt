-- ===== src/Examples/Requests.antt =====
-- A request for a job at a concrete input.
use aiofiles.Prelude.{ℕ, ltb, ◌-◌, true, refl, codes, ok, none, some}
use aiofiles.Prelude.Int.{pos}
use aiofiles.Prelude.Bytes.{trim_by, trim_right_by, trim_left_by}
use aiofiles.Prelude.Paths.{path_base, last_element}
use aiofiles.Jobs.Types.{convert, Job, valid}
use aiofiles.Presets.Tables.{entry, entry_of}
use aiofiles.Presets.Checks.{decode, one_of, is_one_of, check_retention, check_container_codec}
use aiofiles.Presets.Edit.{Seconds}
use aiofiles.Presets.Convert.{
  convert_defaults, parse_convert, check_convert, check_preset, check_bitrate, fold_preset,
  resolved,
}
use aiofiles.Runner.Names.{has_dots}
use aiofiles.Uploads.{original_name, after_dash}
use aiofiles.Uploads.Ids.{bad_id, eval_dir, resolve_in, resolve_upload}
use aiofiles.Api.Create.{
  CreateRequest, Codec, Server, for_convert, type_of, parse_params, upload_origin, upload_start,
  origin_of, new_job, requested_job,
}
use aiofiles.Api.Create.Accepted.{IsChecked, requested_job-IsChecked}

-- Times in tenths of a second.
abbrev tenths : Seconds
tenths = record {
  Time = ℕ;
  before = ltb;
  minus = λ a b. a - b;
  zero_time = 0;
  day = 864000;
  tenth = 1;
}

abbrev codec : Codec tenths
codec = record {
  of_download = λ raw p. ok p;
  of_convert = λ raw p. ok p;
  of_compress = λ raw p. ok p;
  of_image = λ raw p. ok p;
  of_edit = λ raw p. ok p;
  w_first = true;
  marshal = λ v. "{}";
}

abbrev server : Server tenths
server = record {
  codec = codec;
  net = record { parse_url = λ s. none; parse_addr = λ s. none; lookup_addrs = λ s. none };
  disk = record { abs_path = λ s. some s; real_path = λ s. some s; is_regular = λ s. true };
  clean = λ s. s;
  trim = λ s. s;
  encode = λ s. s;
  runes = λ s. s;
  text = λ s. "/u/a.mov";
  upload_dir = codes "/u";
  default_days = pos 7;
}

abbrev request : CreateRequest
request = record {
  kind = "convert";
  url = codes "";
  upload_id = codes "a.mov";
  params = codes "{}";
}

abbrev converted : Job
converted =
    new_job tenths server 5 convert (record { source = codes "a.mov"; input = codes "/u/a.mov" })
      (for_convert (convert_defaults (pos 7)), pos 7)

requested_job-IsChecked_example : IsChecked tenths server 5 request converted
unfolding requested_job type_of valid origin_of upload_start upload_origin parse_params
    parse_convert decode check_convert one_of is_one_of check_preset check_bitrate fold_preset
    resolved check_retention check_container_codec entry entry_of resolve_upload bad_id eval_dir
    resolve_in has_dots path_base last_element original_name after_dash trim_by trim_left_by
    trim_right_by
requested_job-IsChecked_example =
    requested_job-IsChecked tenths server 5 request {j = converted} refl
