-- ===== src/Presets/Edit.antt =====
-- internal/presets/presets.go: the parameters of an edit job. The times are Go's float64, which the
-- record `Seconds` stands for: the type with the operations that the checks use.
pub mod Laws
use aiofiles.Prelude.{
  ℕ, String, Bool, true, false, not, ◌&&◌, ◌||◌, List, if◌then◌else◌, Result, ok, err, ◌>>=◌, ◌>>◌,
  refuse_if,
}
use aiofiles.Prelude.Int.{ℤ, pos, ltb_ℤ, is_zero, clear_low_bit}
use aiofiles.Presets.Checks.{
  Checked, ValidationError, invalid, passes, says, between, check_retention, Decoder, decode,
}

pub record Seconds : Type 1 where
  pub Time : Type 0
  pub before : Time → Time → Bool
  pub minus : Time → Time → Time
  pub zero_time : Time
  pub day : Time
  pub tenth : Time

-- The crop fields of `EditParams`.
pub record Crop : Type 0 where
  pub crop_x : ℤ
  pub crop_y : ℤ
  pub crop_w : ℤ
  pub crop_h : ℤ

abbrev pub crop_min_pixels : ℕ
crop_min_pixels = 16

abbrev pub crop_max_pixels : ℕ
crop_max_pixels = 20000

check_side : String → ℤ → Checked (Unit {0})
check_side field v =
    if ltb_ℤ v (pos crop_min_pixels) || ltb_ℤ (pos crop_max_pixels) v
    then invalid field (between crop_min_pixels crop_max_pixels "pixels")
    else passes

-- The loop ranges over a map, so either side may be checked first.
check_sides : Bool → ℤ → ℤ → Checked (Unit {0})
unfolding check_side
check_sides true w h = check_side "crop_w" w >> check_side "crop_h" h
check_sides false w h = check_side "crop_h" h >> check_side "crop_w" w

check_offset : Crop → Checked (Unit {0})
check_offset c =
    if ltb_ℤ c.crop_x (pos 0)
      || (ltb_ℤ c.crop_y (pos 0)
          || (ltb_ℤ (pos crop_max_pixels) c.crop_x || ltb_ℤ (pos crop_max_pixels) c.crop_y))
    then invalid "crop_x" (says "is outside the frame")
    else passes

abbrev pub even_sides : Crop → Crop
even_sides c = record c { crop_w = clear_low_bit c.crop_w; crop_h = clear_low_bit c.crop_h }

check_size : Bool → Crop → Checked Crop
unfolding check_sides check_offset
check_size w_first c = do check_sides w_first c.crop_w c.crop_h; check_offset c; ok c

check_uncropped : Crop → Checked Crop
check_uncropped c =
    if not (is_zero c.crop_x && is_zero c.crop_y)
    then invalid "crop_w" (says "an offset needs a crop size as well")
    else ok c

-- The crop that the check leaves, with each side cut to an even number of pixels.
unfoldable pub check_crop : Bool → Crop → Checked Crop
unfolding check_uncropped check_size
check_crop w_first c =
    if is_zero c.crop_w && is_zero c.crop_h
    then check_uncropped c
    else check_size w_first (even_sides c)

unfoldable pub has_crop : Crop → Bool
has_crop c = ltb_ℤ (pos 0) c.crop_w && ltb_ℤ (pos 0) c.crop_h

module _ (F : Seconds) where
  open F use {Time, before, minus, zero_time, day, tenth}

  pub record EditParams : Type 0 where
    pub start : Time
    pub end : Time
    pub crop : Crop
    pub open crop use *
    pub retention_days : ℤ

  abbrev pub edit_defaults : ℤ → EditParams
  edit_defaults retention = record {
    start = zero_time;
    end = zero_time;
    crop = record { crop_x = pos 0; crop_y = pos 0; crop_w = pos 0; crop_h = pos 0 };
    retention_days = retention;
  }

  check_start : EditParams → Checked (Unit {0})
  check_start p =
      if before p.start zero_time || before day p.start
      then invalid "start" (says "is outside the file")
      else passes

  check_end : EditParams → Checked (Unit {0})
  check_end p =
      if before p.end zero_time || before day p.end
      then invalid "end" (says "is outside the file")
      else if before zero_time p.end && before (minus p.end p.start) tenth
      then invalid "end" (says "must be at least a tenth of a second after the start")
      else passes

  unfoldable pub check_edit : Bool → EditParams → Checked EditParams
  unfolding check_start check_end
  check_edit w_first p = do
    check_start p
    check_end p
    c ← check_crop w_first p.crop
    check_retention p.retention_days
    ok (record p { crop = c })

  unfoldable pub parse_edit : Decoder EditParams → Bool → List ℕ → ℤ → Checked EditParams
  unfolding check_edit
  parse_edit json w_first raw retention = do
    p ← decode json raw (edit_defaults retention)
    check_edit w_first p

  -- The length of the output, zero when the cut runs to the end: `p.End <= p.Start` is false of two
  -- times only if the start is before the end.
  unfoldable pub span : EditParams → Time
  span p = if before p.start p.end then minus p.end p.start else zero_time
