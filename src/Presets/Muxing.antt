-- ===== src/Presets/Muxing.antt =====
-- Which streams a container can hold, as checkContainerCodec of internal/presets/presets.go has it.
use aiofiles.Prelude.{String, ◌≡◌, ◌≢◌, ◌⊎◌, str_eq_iff, ok, arith}
use aiofiles.Presets.Checks.{check_container_codec}

-- A copied stream is left to ffmpeg. WebM takes VP9 or AV1 with Opus or no audio; MP4 and MOV take
-- anything but VP9 and FLAC.
pub record CanMux (container vcodec acodec : String) : Type 0 where
  pub webm_video : container ≡ "webm" → (vcodec ≡ "vp9") ⊎ (vcodec ≡ "av1")
  pub webm_audio : container ≡ "webm" → (acodec ≡ "opus") ⊎ (acodec ≡ "none")
  pub mp4_video : (container ≡ "mp4") ⊎ (container ≡ "mov") → vcodec ≢ "vp9"
  pub mp4_audio : (container ≡ "mp4") ⊎ (container ≡ "mov") → acodec ≢ "flac"

module _ (container vcodec acodec : String) where
  -- An accepted combination that copies no stream is one that the container can hold.
  pub check_container_codec-CanMux :
      check_container_codec container vcodec acodec ≡ ok tt
      → vcodec ≢ "copy"
      → acodec ≢ "copy"
      → CanMux container vcodec acodec
  unfolding check_container_codec
  check_container_codec-CanMux h v a = ground (
    arith,
    str_eq_iff container "webm",
    str_eq_iff container "mp4",
    str_eq_iff container "mov",
    str_eq_iff vcodec "copy",
    str_eq_iff acodec "copy",
    str_eq_iff vcodec "vp9",
    str_eq_iff vcodec "av1",
    str_eq_iff acodec "opus",
    str_eq_iff acodec "none",
    str_eq_iff acodec "flac",
    str_eq_iff "webm" "mp4",
    str_eq_iff "webm" "mov",
  )
