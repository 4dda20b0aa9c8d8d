-- ===== src/Settings/Bounds.antt =====
-- What the settings that the server starts with satisfy.
use aiofiles.Prelude.{
  ℕ, ◌*◌, ◌%◌, ◌^◌, ◌<◌, Bool, true, false, not, ◌&&◌, ◌||◌, ◌≡◌, refl, ap, ◌⊎◌, inl, inr, [], All,
  codes, String, ok, arith, >>-ok, >>=-ok, ok-injective, Option, none, some,
}
use mathlib.Core.Path.{subst}
use native.Mathlib.Nat.{mod-eq_of_lt}
use aiofiles.Prelude.Int.{ℤ, pos, negsuc, ltb_ℤ, ◌≤ℤ◌}
use aiofiles.Prelude.Bytes.{has_prefix}
use aiofiles.Presets.Checks.{allowed_days}
use aiofiles.Settings.Hosts.{
  IsEntry, parse_hosts-IsEntry, is_bracketed_ipv6, parse_hosts, parse_prefixes,
}
use aiofiles.Settings.{
  max_upload_mib_ceiling, job_timeout_minutes_ceiling, Config, Outside, is_empty, require,
  check_config, or_bad, env, settings, load, parse_level, wrap_64, mib_bytes, minutes_ns,
  max_upload_bytes, job_timeout, auth_enabled,
}

-- A product that is the number of units times its size, without a wrap.
abbrev Exactly : ℤ → ℕ → ℤ → Type 0
Exactly (pos n) unit v = v ≡ pos (n * unit)
Exactly (negsuc n) unit v = ⊥

pub record IsValid {Prefix : Type 0} (c : Config Prefix) : Type 0 where
  pub workers : pos 1 ≤ℤ c.max_concurrent_jobs
  pub upload_limit : Exactly c.max_upload_mib (2 ^ 20) (max_upload_bytes c)
  pub time_limit : Exactly c.job_timeout_minutes 60000000000 (job_timeout c)
  pub prefix : (is_empty c.xaccel_prefix ≡ true) ⊎ (has_prefix c.xaccel_prefix (codes "/") ≡ true)
  pub retention : allowed_days c.default_retention_days ≡ true
  pub login :
      (auth_enabled c ≡ true)
      ⊎ ((is_empty c.auth_username ≡ true) × (is_empty c.auth_password_hash ≡ true))

require-ok : (b : Bool) (name : String) → require b name ≡ ok tt → b ≡ true
require-ok true name h = refl
require-ok false name h = absurd cc

wrap_64_small : (n : ℕ) → n < 2 ^ 63 → wrap_64 n ≡ pos n
wrap_64_small n h = let e : n % 2 ^ 64 ≡ n = mod-eq_of_lt (omega arith) in ground (arith, e)

mib_exact :
    (v : ℤ)
    → not (ltb_ℤ v (pos 0) || ltb_ℤ (pos max_upload_mib_ceiling) v) ≡ true
    → Exactly v (2 ^ 20) (mib_bytes v)
mib_exact (pos n) h = wrap_64_small (n * 2 ^ 20) (ground arith)
mib_exact (negsuc n) h = absurd (ground arith)

minutes_exact :
    (v : ℤ)
    → not (ltb_ℤ v (pos 0) || ltb_ℤ (pos job_timeout_minutes_ceiling) v) ≡ true
    → Exactly v 60000000000 (minutes_ns v)
minutes_exact (pos n) h = wrap_64_small (n * 60000000000) (ground arith)
minutes_exact (negsuc n) h = absurd (ground arith)

check_config-IsValid :
    {Prefix : Type 0} (c : Config Prefix) {d : Config Prefix}
    → check_config c ≡ ok d
    → IsValid c × (c ≡ d)
unfolding check_config max_upload_bytes job_timeout auth_enabled
check_config-IsValid c h =
    let (a1, h) =
      >>-ok (require (not (ltb_ℤ c.max_concurrent_jobs (pos 1))) "MAX_CONCURRENT_JOBS") _ h in
    let (a2, h) = >>-ok (require _ "MAX_UPLOAD_MIB") _ h in
    let (a3, h) = >>-ok (require _ "JOB_TIMEOUT_MINUTES") _ h in
    let (a4, h) = >>-ok (require _ "XACCEL_PREFIX") _ h in
    let (a5, h) =
      >>-ok (require (allowed_days c.default_retention_days) "DEFAULT_RETENTION_DAYS") _ h in
    let (a6, h) = >>-ok (require _ "AUTH_PASSWORD_HASH") _ h in
    let b1 = require-ok (not (ltb_ℤ c.max_concurrent_jobs (pos 1))) "MAX_CONCURRENT_JOBS" a1 in
    let b4 = require-ok _ "XACCEL_PREFIX" a4 in
    let b6 = require-ok _ "AUTH_PASSWORD_HASH" a6 in
    (
      record {
        workers = ground (arith, b1);
        upload_limit = mib_exact c.max_upload_mib (require-ok _ "MAX_UPLOAD_MIB" a2);
        time_limit = minutes_exact c.job_timeout_minutes (require-ok _ "JOB_TIMEOUT_MINUTES" a3);
        prefix = prefix_of (is_empty c.xaccel_prefix) (has_prefix c.xaccel_prefix (codes "/")) b4;
        retention = require-ok _ "DEFAULT_RETENTION_DAYS" a5;
        login = login_of (is_empty c.auth_username) (is_empty c.auth_password_hash) b6;
      },
      ok-injective h,
    )
  where
    prefix_of : (a b : Bool) → not (not a && not b) ≡ true → (a ≡ true) ⊎ (b ≡ true)
    prefix_of true b h = inl refl
    prefix_of false true h = inr refl
    prefix_of false false h = absurd cc

    login_of :
        (a b : Bool)
        → ((a && b) || (not a && not b)) ≡ true
        → ((not a && not b) ≡ true) ⊎ ((a ≡ true) × (b ≡ true))
    login_of true true h = inr (refl, refl)
    login_of true false h = absurd cc
    login_of false true h = absurd cc
    login_of false false h = inl refl

or_bad-ok : {A : Type 0} (name : String) (o : Option A) {a : A} → or_bad name o ≡ ok a → o ≡ some a
or_bad-ok name none h = absurd cc
or_bad-ok name (some a) h = ap some (ok-injective h)

-- The settings that the server starts with: at least one worker; limits in bytes and in nanoseconds that are the
-- numbers given and not what is left of them in 64 bits; an internal location that is empty or begins with a slash; a
-- retention from the menu; and a login that is whole or absent. Each of the allowed hosts is one that can match.
pub load-IsValid :
    {Addr Prefix : Type 0} (out : Outside Addr Prefix) {c : Config Prefix}
    → load out ≡ ok c
    → IsValid c × All (IsEntry (is_bracketed_ipv6 out.net)) c.allowed_hosts
unfolding load settings
load-IsValid out h =
    let (level, _, h) = >>=-ok (parse_level out.lower (env out "LOG_LEVEL" (codes "warn"))) _ h in
    let (proxies, _, h) =
      >>=-ok (or_bad "TRUSTED_PROXIES" (parse_prefixes out.net (env out "TRUSTED_PROXIES" []))) _
        h in
    let (hosts, e, h) =
      >>=-ok
        (or_bad "ALLOWED_HOSTS"
          (parse_hosts out.lower (is_bracketed_ipv6 out.net) (env out "ALLOWED_HOSTS" [])))
        _ h in
    let (v, same) = check_config-IsValid (settings out level proxies hosts) h in
    let entries =
      parse_hosts-IsEntry out.lower (is_bracketed_ipv6 out.net) (env out "ALLOWED_HOSTS" [])
        (or_bad-ok "ALLOWED_HOSTS" _ e) in
    subst (λ d. IsValid d × All (IsEntry (is_bracketed_ipv6 out.net)) d.allowed_hosts) same
      (v, entries)
