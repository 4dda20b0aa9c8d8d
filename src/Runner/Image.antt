-- ===== src/Runner/Image.antt =====
-- internal/runner/image.go: the arguments of ImageMagick and rsvg-convert.
pub mod Run
use aiofiles.Prelude.{
  String, Bool, ◌&&◌, ◌||◌, List, [], ◌∷◌, ◌++◌, if◌then◌else◌, str_eq, codes, length, take, ◌-◌,
}
use aiofiles.Prelude.Int.{ℤ, pos, ltb_ℤ}
use aiofiles.Prelude.Bytes.{Bytes, has_suffix, same_codes}
use aiofiles.Prelude.Paths.{path_ext}
use aiofiles.Presets.Image.{ImageParams}
use aiofiles.Runner.Numerals.{itoa}

abbrev pub Args : Type 0
Args = List Bytes

-- An ImageMagick geometry that only shrinks, or nothing.
unfoldable pub resize_geometry : ℤ → ℤ → Bytes
unfolding itoa
resize_geometry w h =
    if ltb_ℤ (pos 0) w && ltb_ℤ (pos 0) h
    then itoa w ++ (codes "x" ++ (itoa h ++ codes ">"))
    else if ltb_ℤ (pos 0) w
    then itoa w ++ codes "x>"
    else if ltb_ℤ (pos 0) h
    then codes "x" ++ (itoa h ++ codes ">")
    else []

-- `strings.TrimSuffix(geom, ">")`
abbrev may_grow : Bytes → Bytes
unfolding has_suffix
may_grow g = if has_suffix g (codes ">") then take (length g - 1) g else g

abbrev limits : Args
limits =
    codes "-limit"
    ∷ codes "memory"
    ∷ codes "512MiB"
    ∷ codes "-limit"
    ∷ codes "map"
    ∷ codes "1GiB"
    ∷ codes "-limit"
    ∷ codes "disk"
    ∷ codes "1GiB"
    ∷ codes "-limit"
    ∷ codes "area"
    ∷ codes "128MP"
    ∷ codes "-limit"
    ∷ codes "width"
    ∷ codes "32KP"
    ∷ codes "-limit"
    ∷ codes "height"
    ∷ codes "32KP"
    ∷ codes "-limit"
    ∷ codes "list-length"
    ∷ codes "512"
    ∷ codes "-limit"
    ∷ codes "thread"
    ∷ codes "2"
    ∷ codes "-limit"
    ∷ codes "time"
    ∷ codes "60"
    ∷ []

resize_args : Bool → Bytes → Args
unfolding may_grow
resize_args exact [] = []
resize_args exact (c ∷ g) = codes "-resize" ∷ (if exact then may_grow (c ∷ g) else c ∷ g) ∷ []

format_args : String → ImageParams → Args
unfolding itoa
format_args format p =
    if str_eq format "jpg" || (str_eq format "webp" || str_eq format "avif")
    then (if ltb_ℤ (pos 0) p.quality then codes "-quality" ∷ itoa p.quality ∷ [] else [])
    else if str_eq format "png"
    then codes "-define" ∷ codes "png:compression-level=9" ∷ []
    else if str_eq format "gif"
    then codes "-layers" ∷ codes "optimize" ∷ []
    else if str_eq format "pbm"
    then (codes "-colorspace"
        ∷ codes "gray"
        ∷ codes "-normalize"
        ∷ codes "-auto-threshold"
        ∷ codes "OTSU"
        ∷ [])
      ++ (if str_eq p.trace "light" then codes "-negate" ∷ [] else [])
    else []

unfoldable pub magick_args : Bytes → Bytes → String → ImageParams → Bool → Args
unfolding resize_geometry resize_args format_args
magick_args input output format p exact_size =
    limits
    ++ ((input ∷ codes "-auto-orient" ∷ [])
        ++ (resize_args exact_size (resize_geometry p.width p.height)
            ++ ((if p.strip_metadata then codes "-strip" ∷ [] else [])
                ++ (format_args format p ++ output ∷ []))))

abbrev pub output_ext : String → String
output_ext format = if str_eq format "svg_trace" then "svg" else format

-- `fold` is the simple case folding of `strings.EqualFold`.
unfoldable pub is_svg_path : (Bytes → Bytes) → Bytes → Bool
unfolding path_ext
is_svg_path fold p = same_codes (fold (path_ext p)) (fold (codes ".svg"))

unfoldable pub rsvg_args : Bytes → Bytes → ImageParams → Args
unfolding itoa
rsvg_args input output p =
    (codes "--format=png" ∷ codes "--background-color=none" ∷ codes "--keep-aspect-ratio" ∷ [])
    ++ ((if ltb_ℤ (pos 0) p.width then codes "--width" ∷ itoa p.width ∷ [] else [])
        ++ ((if ltb_ℤ (pos 0) p.height then codes "--height" ∷ itoa p.height ∷ [] else [])
            ++ (codes "--output" ∷ output ∷ codes "--" ∷ input ∷ [])))
