-- ===== src/Runner/Ffmpeg/Edit/Plan.antt =====
-- The containers of edits.
use aiofiles.Prelude.{
  Bool, true, false, ◌||◌, ◌≡◌, refl, ◌⊎◌, inl, inr, any, codes, length, ltb, Bool-cases,
}
use aiofiles.Prelude.Bytes.{Bytes, same_codes}
use aiofiles.Prelude.Paths.{path_ext}
use aiofiles.Runner.Names.{sanitize_name, trim_dot}
use aiofiles.Runner.Ffmpeg.Edit.{audio_only_ext, plan_for, edit_plan, is_empty}

-- Streams are copied only into a container that holds no video, and video is encoded only into two containers
-- that hold H.264.
abbrev pub IsPlan : Bytes × Bool → Type 0
IsPlan (container, true) = any (same_codes container) audio_only_ext ≡ true
IsPlan (container, false) = (container ≡ codes "mp4") ⊎ (container ≡ codes "mkv")

plan_for-IsPlan : (ext : Bytes) → IsPlan (plan_for ext)
unfolding plan_for
plan_for-IsPlan ext = elim (Bool-cases (any (same_codes ext) audio_only_ext)) [
  | inl e ↦ rw (e, plan_for) e
  | inr e ↦
      elim (Bool-cases (
        same_codes ext (codes "mp4")
        || (same_codes ext (codes "mov") || same_codes ext (codes "m4v")))) [
          | inl f ↦ rw (e, f, plan_for) (inl refl)
          | inr f ↦ rw (e, f, plan_for) (inr refl)
        ]
]

-- Whatever file is edited, its streams are copied only into one of the nine audio containers, and its video is encoded
-- only into MP4 or MKV.
pub edit_plan-IsPlan : (lower : Bytes → Bytes) (input : Bytes) → IsPlan (edit_plan lower input)
unfolding edit_plan
edit_plan-IsPlan lower input =
    let ext = lower (trim_dot (path_ext input)) in
    elim (Bool-cases (is_empty ext || ltb 5 (length ext))) [
      | inl e ↦ rw (e, edit_plan) (inl refl)
      | inr e ↦ rw (e, edit_plan) (plan_for-IsPlan (sanitize_name ext))
    ]
