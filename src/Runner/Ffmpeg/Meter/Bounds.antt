-- ===== src/Runner/Ffmpeg/Meter/Bounds.antt =====
-- The percentages of a run.
use aiofiles.Prelude.{
  ℕ, ◌+◌, ◌*◌, ◌/◌, ◌≤◌, ◌<◌, ◌≡◌, refl, String, not, List, [], ◌∷◌, All, Option, none, some, codes,
  ltb, Bool, if◌then◌else◌, ◌&&◌, ◌||◌, inl, inr, arith, Bool-cases, Option-cases,
}
use mathlib.Core.Path.{subst}
use native.Mathlib.Nat.{div-le_of_le-mul, mul-le-mul_left}
use aiofiles.Prelude.Bytes.{Bytes, same_codes, trim_by}
use aiofiles.Jobs.Types.{Percent, unknown, at}
use aiofiles.Runner.Ffmpeg.Meter.{
  Meter, Update, start_meter, set_time, width, scale, is_space, cut, block_end, field_line,
  with_update, line, updates,
}

-- A percentage that is unknown, or lies between two bounds, in thousandths.
abbrev pub Within : ℕ → ℕ → Percent → Type 0
Within lo hi unknown = Unit
Within lo hi (at n) = (lo ≤ n) × (n ≤ hi)

abbrev pub is_time : Bytes → Bool
is_time k = same_codes k (codes "out_time_us") || same_codes k (codes "out_time_ms")

abbrev pub time_in : (Bytes → Option ℕ) → Option (Bytes × Bytes) → Option ℕ
time_in number none = none
time_in number (some (k, v)) =
    if is_time (trim_by is_space k) then number (trim_by is_space v) else none

-- The time that a line tells of.
unfoldable pub written_time : (Bytes → Option ℕ) → Bytes → Option ℕ
unfolding cut
written_time number s = time_in number (cut b'=' (trim_by is_space s))

-- A time, if there is one, up to a bound.
abbrev pub UpTo : ℕ → Option ℕ → Type 0
UpTo bound none = Unit
UpTo bound (some n) = n ≤ bound

module _ (base span duration : ℕ) where
  -- A meter of the run that was started with these, at a time within the file.
  record IsSteady (m : Meter) : Type 0 where
    pub base_kept : m.base ≡ base
    pub span_kept : m.span ≡ span
    pub duration_kept : m.duration ≡ duration
    pub timely : m.out_us ≤ duration

  -- The part of the bar that a run with a span of its own covers.
  abbrev Covers : Update → Type 0
  Covers u = Within (base * 1000) ((base + span) * 1000) u.percent

  module _ (own : 0 < span) (fits : base + span ≤ 100) where
    scale-Within :
        (m : Meter) (num den : ℕ)
        → IsSteady m
        → num ≤ den
        → Within (base * 1000) ((base + span) * 1000) (scale m num den)
    unfolding scale
    scale-Within m num den v h =
        let k : span * 1000 * num / den ≤ span * 1000 =
          div-le_of_le-mul den (omega (arith, mul-le-mul_left (span * 1000) h)) in
        let w : width m ≡ span = rw v.span_kept (ground arith) in
        rw (v.base_kept, w) (omega (arith, k))

    block_end-Covers : (m : Meter) (v : Bytes) → IsSteady m → Covers (block_end m v)
    unfolding block_end
    block_end-Covers m v steady = elim (Bool-cases (same_codes v (codes "end"))) [
      | inl e ↦ rw (e, block_end) (scale-Within m 1 1 steady (omega arith))
      | inr e ↦ elim (Bool-cases (ltb 0 m.duration && m.have_time)) [
        | inl f ↦ rw (e, f, block_end) (scale-Within m m.out_us m.duration steady (omega arith))
        | inr f ↦ rw (e, f, block_end) tt
      ]
    ]

    module _ (number : Bytes → Option ℕ) where
      set_time-IsSteady :
          (m : Meter) (o : Option ℕ) → UpTo duration o → IsSteady m → IsSteady (set_time o m)
      set_time-IsSteady m none h steady = steady
      set_time-IsSteady m (some n) h steady = record {
        base_kept = steady.base_kept;
        span_kept = steady.span_kept;
        duration_kept = steady.duration_kept;
        timely = h;
      }

      abbrev Steps : Meter × Option Update → Type 0
      Steps (m, none) = IsSteady m
      Steps (m, some u) = IsSteady m × Covers u

      field_line-Steps :
          (m : Meter) (k v : Bytes)
          → UpTo duration (if is_time k then number v else none)
          → IsSteady m
          → Steps (field_line number m k v)
      unfolding field_line
      field_line-Steps m k v up_to steady =
          let c = block_end-Covers m v steady in
          let spoken : IsSteady (record m { speed = v }) = record {
            base_kept = steady.base_kept;
            span_kept = steady.span_kept;
            duration_kept = steady.duration_kept;
            timely = steady.timely;
          } in
          elim (Bool-cases
            (same_codes k (codes "out_time_us") || same_codes k (codes "out_time_ms"))) [
              | inl e ↦ elim (Bool-cases (same_codes v (codes "N/A"))) [
                | inl f ↦ rw (e, f, field_line) steady
                | inr f ↦
                    rw (e, f, field_line)
                      (set_time-IsSteady m (number v)
                        (subst (λ b. UpTo duration (if b then number v else none)) e up_to) steady)
              ]
              | inr e ↦ elim (Bool-cases (same_codes k (codes "speed"))) [
                | inl f ↦
                    elim (Bool-cases
                      (not (same_codes v (codes "N/A")) && not (same_codes v (codes "0x")))) [
                        | inl g ↦ rw (e, f, g, field_line) spoken
                        | inr g ↦ rw (e, f, g, field_line) steady
                      ]
                | inr f ↦ elim (Bool-cases (same_codes k (codes "progress"))) [
                  | inl g ↦ rw (e, f, g, field_line) (steady, c)
                  | inr g ↦ rw (e, f, g, field_line) steady
                ]
              ]
            ]

      line-Steps :
          (m : Meter) (s : Bytes)
          → UpTo duration (written_time number s)
          → IsSteady m
          → Steps (line number m s)
      unfolding line written_time
      line-Steps m s up_to steady = elim (Option-cases (cut b'=' (trim_by is_space s))) [
        | inl e ↦ rw (e, line) steady
        | inr ((k, v), e) ↦
            rw (e, line)
              (field_line-Steps m (trim_by is_space k) (trim_by is_space v)
                (subst (λ o. UpTo duration (time_in number o)) e up_to) steady)
      ]

      carry :
          (r : Meter × Option Update) (us : List Update)
          → Steps r
          → (IsSteady r.0 → All Covers us)
          → All Covers (with_update r.1 us)
      carry (m, none) us h k = k h
      carry (m, some u) us (h, c) k = (c, k h)

      updates-Covers :
          (m : Meter) (ls : List Bytes)
          → All (λ s. UpTo duration (written_time number s)) ls
          → IsSteady m
          → All Covers (updates number m ls)
      unfolding updates
      updates-Covers m [] up_to steady = tt
      updates-Covers m (s ∷ ls) (u, us) steady =
          carry (line number m s) (updates number (line number m s).0 ls) (line-Steps m s u steady)
            (λ h. updates-Covers (line number m s).0 ls us h)

-- The percentages that two texts of lines give in the two halves of a run with a size target, if no time that
-- one of the lines tells of lies behind the end of the file: the first pass stays in the first half of the bar, and the
-- second in the second half, so that none walks back over the other.
pub updates-Halves :
    (number : Bytes → Option ℕ) (duration : ℕ) (first second : List Bytes)
    → All (λ s. UpTo duration (written_time number s)) first
    → All (λ s. UpTo duration (written_time number s)) second
    → All
        (λ (u : Update). Within 0 50000 u.percent)
        (updates number (start_meter duration "analyzing" 0 50) first)
      × All
          (λ (u : Update). Within 50000 100000 u.percent)
          (updates number (start_meter duration "encoding" 50 50) second)
updates-Halves number duration first second us vs = (
  updates-Covers 0 50 duration (omega arith) (omega arith) number
      (start_meter duration "analyzing" 0 50) first us (started 0),
  updates-Covers 50 50 duration (omega arith) (omega arith) number
      (start_meter duration "encoding" 50 50) second vs (started 50),
)
  where
    started :
        (base : ℕ) {stage : String} → IsSteady base 50 duration (start_meter duration stage base 50)
    started base = record {
      base_kept = refl;
      span_kept = refl;
      duration_kept = refl;
      timely = omega arith;
    }
