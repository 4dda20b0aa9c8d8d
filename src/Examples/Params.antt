-- ===== src/Examples/Params.antt =====
-- The checks of job parameters at concrete inputs. Each decoder is one that reads any text as the given
-- parameters.
use aiofiles.Prelude.{ℕ, String, ◌≡◌, refl, List, codes, Result, ok}
use aiofiles.Prelude.Int.{pos}
use aiofiles.Presets.Tables.{entry, entry_of}
use aiofiles.Presets.Checks.{decode, one_of, is_one_of, check_retention, check_container_codec}
use aiofiles.Presets.Convert.{
  ConvertParams, convert_defaults, parse_convert, check_convert, check_preset, fold_preset,
  resolved,
}
use aiofiles.Presets.Convert.Laws.{parse_convert_again}
use aiofiles.Presets.Compress.{CompressParams, compress_defaults}
use aiofiles.Presets.Image.{ImageParams, image_defaults}
use aiofiles.Presets.Download.{DownloadParams, download_defaults}
use aiofiles.Presets.Edit.{Crop}

abbrev reads {ℓ} : {A : Type ℓ} → A → List ℕ → A → Result String A
reads a raw start = ok a

abbrev conversion : ConvertParams
conversion = convert_defaults (pos 7)

parse_convert_again_example : parse_convert (reads conversion) (codes "{}") (pos 0) ≡ ok conversion
unfolding parse_convert decode check_convert one_of is_one_of check_preset fold_preset resolved
    check_retention check_container_codec entry entry_of
parse_convert_again_example =
    parse_convert_again (reads conversion) (codes "{}") (codes "{}") (pos 7) (pos 0)
      {q = conversion} refl refl

abbrev compression : CompressParams
compression = compress_defaults (pos 7)

abbrev picture : ImageParams
picture = image_defaults (pos 7)

abbrev fetch : DownloadParams
fetch = record (download_defaults (pos 7)) { format_id = codes "137+140"; container = "mp4" }

abbrev crop : Crop
crop = record { crop_x = pos 0; crop_y = pos 2; crop_w = pos 101; crop_h = pos 50 }
