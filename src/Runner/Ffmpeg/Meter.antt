-- ===== src/Runner/Ffmpeg/Meter.antt =====
-- internal/runner/ffmpeg.go: ffProgress, which reads the lines that ffmpeg writes while it works. Times are
-- in microseconds and percentages in thousandths, both rounded down.
pub mod Bounds
use aiofiles.Prelude.{
  ℕ, zero, suc, ◌+◌, ◌*◌, ◌/◌, min, String, Bool, true, false, not, ◌&&◌, ◌||◌, List, [], ◌∷◌, ◌==◌,
  ltb, if◌then◌else◌, codes, Option, none, some,
}
use aiofiles.Prelude.Bytes.{Bytes, same_codes, trim_by}
use aiofiles.Jobs.Types.{Percent, unknown, at}

pub record Meter : Type 0 where
  pub duration : ℕ
  pub stage : String
  pub base : ℕ
  pub span : ℕ
  pub out_us : ℕ
  pub speed : Bytes
  pub have_time : Bool

-- The fields of `jobs.Progress` that are set.
pub record Update : Type 0 where
  pub percent : Percent
  pub stage : String
  pub speed : Bytes

-- A meter as the runs make it. The span 0 stands for the whole bar.
abbrev pub start_meter : ℕ → String → ℕ → ℕ → Meter
start_meter duration stage base span = record {
  duration = duration;
  stage = stage;
  base = base;
  span = span;
  out_us = 0;
  speed = [];
  have_time = false;
}

abbrev pub width : Meter → ℕ
width m = if m.span == 0 then 100 else m.span

-- The position `num / den` within the run on the whole bar.
unfoldable pub scale : Meter → ℕ → ℕ → Percent
scale m num den = at (min (m.base * 1000 + width m * 1000 * num / den) 100000)

-- The spaces of ASCII, which `strings.TrimSpace` removes.
abbrev pub is_space : ℕ → Bool
is_space c = c == b' ' || c == b'\t' || c == b'\n' || c == b'\r' || c == 11 || c == 12

abbrev cut_after : ℕ → Option (Bytes × Bytes) → Option (Bytes × Bytes)
cut_after c none = none
cut_after c (some (k, v)) = some (c ∷ k, v)

-- `strings.Cut` at one byte.
unfoldable pub cut : ℕ → Bytes → Option (Bytes × Bytes)
cut b [] = none
cut b (c ∷ s) = if c == b then some ([], s) else cut_after c (cut b s)

abbrev pub set_time : Option ℕ → Meter → Meter
set_time none m = m
set_time (some n) m = record m { out_us = n; have_time = true }

abbrev position : Meter → Percent
position m = if ltb 0 m.duration && m.have_time then scale m m.out_us m.duration else unknown

unfoldable pub block_end : Meter → Bytes → Update
unfolding scale
block_end m v = record {
  percent = if same_codes v (codes "end") then scale m 1 1 else position m;
  stage = m.stage;
  speed = m.speed;
}

-- `number` is `strconv.ParseFloat` of a number that is not negative, rounded down.
unfoldable pub field_line : (Bytes → Option ℕ) → Meter → Bytes → Bytes → Meter × Option Update
unfolding block_end
field_line number m k v =
    if same_codes k (codes "out_time_us") || same_codes k (codes "out_time_ms")
    then (if same_codes v (codes "N/A") then m else set_time (number v) m, none)
    else if same_codes k (codes "speed")
    then (
      if not (same_codes v (codes "N/A")) && not (same_codes v (codes "0x"))
          then record m { speed = v }
          else m,
      none,
    )
    else if same_codes k (codes "progress")
    then (m, some (block_end m v))
    else (m, none)

unfoldable pub line : (Bytes → Option ℕ) → Meter → Bytes → Meter × Option Update
unfolding field_line cut trim_by
line number m s = elim (cut b'=' (trim_by is_space s)) [
  | none ↦ (m, none)
  | some (k, v) ↦ field_line number m (trim_by is_space k) (trim_by is_space v)
]

abbrev pub with_update : Option Update → List Update → List Update
with_update none us = us
with_update (some u) us = u ∷ us

-- What a run emits for the lines of one ffmpeg.
unfoldable pub updates : (Bytes → Option ℕ) → Meter → List Bytes → List Update
unfolding line
updates number m [] = []
updates number m (s ∷ ls) = with_update (line number m s).1 (updates number (line number m s).0 ls)
