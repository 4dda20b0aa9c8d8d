-- ===== src/Runner/Ffmpeg/Budget.antt =====
-- What an encode with a size target may spend.
use aiofiles.Prelude.{
  ℕ, suc, ◌+◌, ◌-◌, ◌*◌, ◌/◌, ◌≤◌, ◌<◌, inl, inr, ok, err, Result, arith, ltb, leb, min, Bool-cases,
}
use aiofiles.Prelude.Int.{pos}
use native.Mathlib.Nat.{le-div_iff_mul-le, div-lt_iff_lt-mul}
use aiofiles.Runner.Ffmpeg.{RunError, min_video_kbps, max_video_kbps, target_video_kbps}

-- What a bitrate for the video must satisfy: it is watchable, the arithmetic is bounded, and both streams
-- fill at most 98% of the target. In kilobits and microseconds, a megabyte is 8 * 10^9.
abbrev pub Fits : ℕ → ℕ → ℕ → ℕ → Type 0
Fits mb us audio kbps =
    (min_video_kbps ≤ kbps)
    × (kbps ≤ max_video_kbps)
    × ((kbps + audio) * us * 100 ≤ mb * 8000000000 * 98)

abbrev pub Outcome : ℕ → ℕ → ℕ → Result RunError ℕ → Type 0
Outcome mb us audio (ok kbps) = Fits mb us audio kbps
Outcome mb us audio (err e) = mb * 8000000000 * 98 < (min_video_kbps + audio) * us * 100

spent :
    (mb us audio n : ℕ)
    → n + audio ≤ mb * 7840000000 / suc us
    → (n + audio) * suc us * 100 ≤ mb * 8000000000 * 98
spent mb us audio n h =
    let k =
      (le-div_iff_mul-le {k = suc us} {x = n + audio} {y = mb * 7840000000} (omega arith)).0 h in
    omega (arith, k)

short :
    (mb us audio : ℕ)
    → mb * 7840000000 / suc us < min_video_kbps + audio
    → mb * 8000000000 * 98 < (min_video_kbps + audio) * suc us * 100
short mb us audio h =
    let k =
      (div-lt_iff_lt-mul {k = suc us} {x = mb * 7840000000} {y = min_video_kbps + audio}
          (omega arith)).0
        h in
    omega (arith, k)

-- A size target gets a bitrate for the video that keeps both streams under it, or is refused, and then even the
-- least bitrate would exceed it. The length of the file is known and the audio's bitrate is not negative.
pub target_video_kbps-Outcome :
    (mb us audio : ℕ) → Outcome mb (suc us) audio (target_video_kbps mb (suc us) (pos audio))
unfolding target_video_kbps
target_video_kbps-Outcome mb us audio =
    let total = mb * 7840000000 / suc us in
    elim (Bool-cases (leb audio total)) [
      | inl e ↦ elim (Bool-cases (ltb (total - audio) min_video_kbps)) [
        | inl f ↦ ground (arith, e, f, short mb us audio (ground arith))
        | inr f ↦
            ground
              (arith, e, f, spent mb us audio (min (total - audio) max_video_kbps) (ground arith))
      ]
      | inr e ↦ ground (arith, e, short mb us audio (ground arith))
    ]
