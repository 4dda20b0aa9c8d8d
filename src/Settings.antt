-- ===== src/Settings.antt =====
-- internal/config/config.go: the settings, read from the environment. A text is bytes; `look` is
-- `os.LookupEnv`, `lower` is `strings.ToLower`, and the directories that Load makes are not modelled.
pub mod Hosts
pub mod Bounds
use aiofiles.Prelude.{
  ℕ, zero, suc, ◌+◌, ◌-◌, ◌*◌, ◌/◌, ◌%◌, ◌^◌, Bool, true, false, not, ◌&&◌, ◌||◌, Option, none,
  some, List, [], ◌∷◌, ◌++◌, ◌==◌, leb, ltb, any, if◌then◌else◌, codes, String, Result, ok, err,
  ◌>>=◌, ◌>>◌,
}
use aiofiles.Prelude.Int.{ℤ, pos, negsuc, ltb_ℤ}
use aiofiles.Prelude.Bytes.{Bytes, same_codes, has_prefix, trim_by}
use aiofiles.Presets.Checks.{allowed_days}
use aiofiles.Runner.Numerals.{atoi}
use aiofiles.Settings.Hosts.{NetIp, parse_hosts, parse_prefixes, is_bracketed_ipv6, is_space}

abbrev pub max_upload_mib_ceiling : ℕ
max_upload_mib_ceiling = (2 ^ 63 - 1) / 2 ^ 20

-- A minute has 60,000,000,000 nanoseconds.
abbrev pub job_timeout_minutes_ceiling : ℕ
job_timeout_minutes_ceiling = (2 ^ 63 - 1) / 60000000000

pub data Level : Type 0 where
  debug info warn error : Level

-- A setting that Load refuses, by its name.
pub data BadSetting : Type 0 where
  bad : String → BadSetting

pub record Config (Prefix : Type 0) : Type 0 where
  pub addr : Bytes
  pub log_level : Level
  pub data_dir : Bytes
  pub db_path : Bytes
  pub download_dir : Bytes
  pub tmp_dir : Bytes
  pub upload_dir : Bytes
  pub max_upload_mib : ℤ
  pub max_concurrent_jobs : ℤ
  pub queue_depth : ℤ
  pub default_retention_days : ℤ
  pub job_timeout_minutes : ℤ
  pub disable_update_checks : Bool
  pub auth_username : Bytes
  pub auth_password_hash : Bytes
  pub session_ttl_hours : ℤ
  pub trusted_proxies : List Prefix
  pub allowed_hosts : List Bytes
  pub proxy_only : Bool
  pub xaccel_prefix : Bytes
  pub ytdlp_bin : Bytes
  pub ffmpeg_bin : Bytes
  pub ffprobe_bin : Bytes
  pub magick_bin : Bytes
  pub rsvg_bin : Bytes
  pub potrace_bin : Bytes

abbrev pub is_empty : Bytes → Bool
is_empty [] = true
is_empty (c ∷ s) = false

abbrev pub or_default : Option Bytes → Bytes → Bytes
or_default none def = def
or_default (some []) def = def
or_default (some (c ∷ v)) def = c ∷ v

abbrev pub number_or : ℤ → ℤ × Bool → ℤ
number_or def (n, true) = n
number_or def (n, false) = def

unfoldable pub int_or : Option Bytes → ℤ → ℤ
unfolding atoi trim_by
int_or none def = def
int_or (some []) def = def
int_or (some (c ∷ v)) def = number_or def (atoi (trim_by is_space (c ∷ v)))

abbrev pub among : Bytes → List Bytes → Bool
among v l = any (same_codes v) l

abbrev pub switch : Bytes → Bool → Bool
switch v def =
    if among v (codes "1" ∷ codes "true" ∷ codes "yes" ∷ codes "on" ∷ [])
    then true
    else if among v (codes "0" ∷ codes "false" ∷ codes "no" ∷ codes "off" ∷ [])
    then false
    else def

unfoldable pub bool_or : (Bytes → Bytes) → Option Bytes → Bool → Bool
unfolding trim_by
bool_or lower none def = def
bool_or lower (some []) def = def
bool_or lower (some (c ∷ v)) def = switch (lower (trim_by is_space (c ∷ v))) def

unfoldable pub parse_level : (Bytes → Bytes) → Bytes → Result BadSetting Level
unfolding trim_by
parse_level lower s =
    let v = lower (trim_by is_space s) in
    if same_codes v (codes "debug")
    then ok debug
    else if same_codes v (codes "info")
    then ok info
    else if same_codes v (codes "warn") || same_codes v (codes "warning")
    then ok warn
    else if same_codes v (codes "error")
    then ok error
    else err (bad "LOG_LEVEL")

abbrev pub require : Bool → String → Result BadSetting (Unit {0})
require holds name = if holds then ok tt else err (bad name)

-- The checks behind the parsing, in their order.
unfoldable pub check_config : {Prefix : Type 0} → Config Prefix → Result BadSetting (Config Prefix)
check_config c = do
  require (not (ltb_ℤ c.max_concurrent_jobs (pos 1))) "MAX_CONCURRENT_JOBS"
  require
      (not (ltb_ℤ c.max_upload_mib (pos 0) || ltb_ℤ (pos max_upload_mib_ceiling) c.max_upload_mib))
      "MAX_UPLOAD_MIB"
  require
      (not (
        ltb_ℤ c.job_timeout_minutes (pos 0)
        || ltb_ℤ (pos job_timeout_minutes_ceiling) c.job_timeout_minutes))
      "JOB_TIMEOUT_MINUTES"
  require (not (not (is_empty c.xaccel_prefix) && not (has_prefix c.xaccel_prefix (codes "/"))))
      "XACCEL_PREFIX"
  require (allowed_days c.default_retention_days) "DEFAULT_RETENTION_DAYS"
  require
      ((is_empty c.auth_username && is_empty c.auth_password_hash)
        || (not (is_empty c.auth_username) && not (is_empty c.auth_password_hash)))
      "AUTH_PASSWORD_HASH"
  ok c

-- What Load asks of the standard library; `join` is `filepath.Join`.
pub record Outside (Addr Prefix : Type 0) : Type 0 where
  pub look : String → Option Bytes
  pub lower : Bytes → Bytes
  pub join : List Bytes → Bytes
  pub net : NetIp Addr Prefix

abbrev pub or_bad {ℓ} : {A : Type ℓ} → String → Option A → Result BadSetting A
or_bad name none = err (bad name)
or_bad name (some a) = ok a

module _ {Addr Prefix : Type 0} (out : Outside Addr Prefix) where
  open out use {look, lower, join, net}

  abbrev pub env : String → Bytes → Bytes
  env key def = or_default (look key) def

  unfoldable pub env_int : String → ℤ → ℤ
  unfolding int_or
  env_int key def = int_or (look key) def

  unfoldable pub env_bool : String → Bool → Bool
  unfolding bool_or
  env_bool key def = bool_or lower (look key) def

  -- An empty XACCEL_PREFIX that is set is kept.
  unfoldable pub xaccel_setting : Option Bytes → Bytes
  unfolding trim_by
  xaccel_setting none = codes "/_protected"
  xaccel_setting (some v) = trim_by is_space v

  unfoldable pub settings : Level → List Prefix → List Bytes → Config Prefix
  unfolding env_int env_bool xaccel_setting
  settings level proxies hosts =
      let data_dir = env "DATA_DIR" (codes "/data") in
      record {
        addr = env "LISTEN_ADDR" (codes "127.0.0.1:1144");
        log_level = level;
        data_dir = data_dir;
        db_path = env "DB_PATH" (join (data_dir ∷ codes "db" ∷ codes "aiofiles.db" ∷ []));
        download_dir = env "DOWNLOAD_DIR" (join (data_dir ∷ codes "downloads" ∷ []));
        tmp_dir = env "TMP_DIR" (join (data_dir ∷ codes "tmp" ∷ []));
        upload_dir = env "UPLOAD_DIR" (join (data_dir ∷ codes "uploads" ∷ []));
        max_upload_mib = env_int "MAX_UPLOAD_MIB" (pos 4096);
        max_concurrent_jobs = env_int "MAX_CONCURRENT_JOBS" (pos 2);
        queue_depth = env_int "QUEUE_DEPTH" (pos 256);
        default_retention_days = env_int "DEFAULT_RETENTION_DAYS" (pos 7);
        job_timeout_minutes = env_int "JOB_TIMEOUT_MINUTES" (pos 720);
        disable_update_checks = env_bool "DISABLE_UPDATE_CHECKS" false;
        auth_username = env "AUTH_USERNAME" [];
        auth_password_hash = env "AUTH_PASSWORD_HASH" [];
        session_ttl_hours = env_int "SESSION_TTL_HOURS" (pos 720);
        trusted_proxies = proxies;
        allowed_hosts = hosts;
        proxy_only = env_bool "PROXY_ONLY" false;
        xaccel_prefix = xaccel_setting (look "XACCEL_PREFIX");
        ytdlp_bin = env "YTDLP_BIN" (codes "yt-dlp");
        ffmpeg_bin = env "FFMPEG_BIN" (codes "ffmpeg");
        ffprobe_bin = env "FFPROBE_BIN" (codes "ffprobe");
        magick_bin = env "MAGICK_BIN" (codes "magick");
        rsvg_bin = env "RSVG_BIN" (codes "rsvg-convert");
        potrace_bin = env "POTRACE_BIN" (codes "potrace");
      }

  unfoldable pub load : Result BadSetting (Config Prefix)
  unfolding check_config parse_level parse_hosts parse_prefixes is_bracketed_ipv6 env_int env_bool
      xaccel_setting settings
  load = do
    level ← parse_level lower (env "LOG_LEVEL" (codes "warn"))
    proxies ← or_bad "TRUSTED_PROXIES" (parse_prefixes net (env "TRUSTED_PROXIES" []))
    hosts ←
        or_bad "ALLOWED_HOSTS" (parse_hosts lower (is_bracketed_ipv6 net) (env "ALLOWED_HOSTS" []))
    check_config (settings level proxies hosts)

-- What is left of a product in 64 bits, with a sign.
abbrev pub wrap_64 : ℕ → ℤ
wrap_64 n = if ltb (n % 2 ^ 64) (2 ^ 63) then pos (n % 2 ^ 64) else negsuc (2 ^ 64 - 1 - n % 2 ^ 64)

-- `c.MaxUploadMiB << 20`, of a setting that is not negative.
abbrev pub mib_bytes : ℤ → ℤ
mib_bytes (pos n) = wrap_64 (n * 2 ^ 20)
mib_bytes (negsuc n) = wrap_64 (2 ^ 64 - suc n * 2 ^ 20 % 2 ^ 64)

abbrev pub minutes_ns : ℤ → ℤ
minutes_ns (pos n) = wrap_64 (n * 60000000000)
minutes_ns (negsuc n) = wrap_64 (2 ^ 64 - suc n * 60000000000 % 2 ^ 64)

unfoldable pub max_upload_bytes : {Prefix : Type 0} → Config Prefix → ℤ
max_upload_bytes c = mib_bytes c.max_upload_mib

unfoldable pub job_timeout : {Prefix : Type 0} → Config Prefix → ℤ
job_timeout c = minutes_ns c.job_timeout_minutes

unfoldable pub auth_enabled : {Prefix : Type 0} → Config Prefix → Bool
auth_enabled c = not (is_empty c.auth_username) && not (is_empty c.auth_password_hash)
