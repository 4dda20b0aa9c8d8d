-- ===== src/Runner/YtDlp/Formats.antt =====
-- internal/runner/ytdlp.go: the streams that an extractor offers, their order and how they are shown. A text is
-- its code points, and a floating-point number is of a type `F`; JSON has no NaN.
pub mod Order
use aiofiles.Prelude.{
  ℕ, Bool, true, false, not, ◌&&◌, List, [], ◌∷◌, ◌++◌, ◌==◌, if◌then◌else◌, codes, Option, none,
  some,
}
use aiofiles.Prelude.Int.{ℤ, pos, ltb_ℤ, eq_ℤ, is_zero}
use aiofiles.Prelude.Bytes.{Bytes, same_codes}
use aiofiles.Prelude.Sorting.{stable_sort}
use aiofiles.Runner.Texts.{is_empty}
use aiofiles.Runner.Numerals.{atoi, itoa}

pub record RawFormat (F : Type 0) : Type 0 where
  pub format_id : Bytes
  pub ext : Bytes
  pub resolution : Bytes
  pub width : ℤ
  pub height : ℤ
  pub fps : F
  pub vcodec : Bytes
  pub acodec : Bytes
  pub filesize : ℤ
  pub filesize_approx : ℤ
  pub tbr : F
  pub format_note : Bytes

pub record Format (F : Type 0) : Type 0 where
  pub id : Bytes
  pub ext : Bytes
  pub resolution : Bytes
  pub fps : F
  pub vcodec : Bytes
  pub acodec : Bytes
  pub filesize : ℤ
  pub bitrate : F
  pub note : Bytes
  pub has_video : Bool
  pub has_audio : Bool

-- A codec that is named and is not "none".
unfoldable pub is_codec : Bytes → Bool
is_codec codec = not (is_empty codec) && not (same_codes codec (codes "none"))

-- What follows the first byte x, if there is one and something in front of it.
unfoldable pub behind_x : Bytes → Option Bytes
behind_x [] = none
behind_x (c ∷ s) = if c == b'x' then some s else behind_x s

unfoldable pub tail_of_size : Bytes → Option Bytes
unfolding behind_x
tail_of_size [] = none
tail_of_size (c ∷ s) = if c == b'x' then none else behind_x s

abbrev or_zero : ℤ × Bool → ℤ
or_zero (n, true) = n
or_zero (n, false) = pos 0

abbrev height_of : Option Bytes → ℤ
height_of none = pos 0
height_of (some s) = or_zero (atoi s)

module _ {F : Type 0} where
  -- The closure `height`: the field, or the number behind the x of "1920x1080".
  unfoldable pub format_height : RawFormat F → ℤ
  unfolding tail_of_size atoi
  format_height f =
      if ltb_ℤ (pos 0) f.height then f.height else height_of (tail_of_size f.resolution)

  unfoldable pub shown_resolution : RawFormat F → Bytes
  unfolding is_codec itoa
  shown_resolution f =
      if not (is_empty f.resolution)
      then f.resolution
      else if ltb_ℤ (pos 0) f.width && ltb_ℤ (pos 0) f.height
      then itoa f.width ++ (b'x' ∷ itoa f.height)
      else if ltb_ℤ (pos 0) f.height
      then itoa f.height ++ codes "p"
      else if not (is_codec f.vcodec) && is_codec f.acodec
      then codes "audio only"
      else []

  unfoldable pub shown_size : RawFormat F → ℤ
  shown_size f =
      let size = if is_zero f.filesize then f.filesize_approx else f.filesize in
      if ltb_ℤ size (pos 0) then pos 0 else size

  unfoldable pub convert_format : RawFormat F → Format F
  unfolding shown_resolution shown_size is_codec
  convert_format f = record {
    id = f.format_id;
    ext = f.ext;
    resolution = shown_resolution f;
    fps = f.fps;
    vcodec = f.vcodec;
    acodec = f.acodec;
    filesize = shown_size f;
    bitrate = f.tbr;
    note = f.format_note;
    has_video = is_codec f.vcodec;
    has_audio = is_codec f.acodec;
  }

-- Floating-point numbers: the order, and the test against 0.
pub record Numbers (F : Type 0) : Type 0 where
  pub above : F → F → Bool
  pub nought : F → Bool

module _ {F : Type 0} (num : Numbers F) where
  -- The test of `sort.SliceStable`: video first, then the taller, then the greater bitrate.
  unfoldable pub goes_before : RawFormat F → RawFormat F → Bool
  unfolding is_codec format_height
  goes_before f g =
      let vi = is_codec f.vcodec in
      let vj = is_codec g.vcodec in
      let hi = format_height f in
      let hj = format_height g in
      if not (if vi then vj else not vj)
      then vi
      else if vi && not (eq_ℤ hi hj)
      then ltb_ℤ hj hi
      else num.above f.tbr g.tbr

  unfoldable pub sort_raw_formats : List (RawFormat F) → List (RawFormat F)
  unfolding goes_before
  sort_raw_formats l = stable_sort goes_before l
