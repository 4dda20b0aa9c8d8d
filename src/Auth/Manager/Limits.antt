-- ===== src/Auth/Manager/Limits.antt =====
-- The limits on failed logins.
use aiofiles.Prelude.{ℕ, ◌≤◌, String, Bool, not, inl, inr, length, Result, arith, Option-cases}
use aiofiles.Prelude.Dict.{
  lookup, keep_values, length-put-le, length-put_found, length-drop_key-le, length-keep_values-le,
}
use aiofiles.Auth.Manager.{
  Manager, LoginError, fail_window, max_failure_entries, stale, check_address, rate_limited,
  one_failure, next_failure, count_global, track, record_failure, grant, open_session, login,
}

-- The map of failures is within its ceiling.
abbrev pub IsBounded : Manager → Type 0
IsBounded m = length m.failures ≤ max_failure_entries

check_address-IsBounded :
    (now : ℕ) (ip : String) (m : Manager) → IsBounded m → IsBounded (check_address now ip m).0
unfolding check_address
check_address-IsBounded now ip m h = ground (arith, length-drop_key-le ip m.failures)

rate_limited-IsBounded :
    (now : ℕ) (ip : String) (m : Manager) → IsBounded m → IsBounded (rate_limited now ip m).0
unfolding rate_limited
rate_limited-IsBounded now ip m h = ground (
  arith,
  check_address-IsBounded now ip m,
  check_address-IsBounded now ip (record m { global = record { count = 0; first = 0 } }),
)

track-IsBounded : (now : ℕ) (ip : String) (m : Manager) → IsBounded m → IsBounded (track now ip m)
unfolding track
track-IsBounded now ip m h = ground (
  arith,
  length-put-le ip (one_failure now) m.failures,
  length-put-le ip (one_failure now) (keep_values (λ f. not (stale fail_window now f)) m.failures),
  length-keep_values-le (λ f. not (stale fail_window now f)) m.failures,
)

record_failure-IsBounded :
    (now : ℕ) (ip : String) (m : Manager) → IsBounded m → IsBounded (record_failure now ip m)
unfolding record_failure
record_failure-IsBounded now ip m h = elim (Option-cases (lookup ip m.failures)) [
  | inl e ↦ rw (e, record_failure) (track-IsBounded now ip (count_global now m) h)
  | inr (f, e) ↦
      rw (e, record_failure)
        (omega (arith, length-put_found ip (next_failure fail_window now f) f m.failures e))
]

-- A login leaves the map of failed logins within `max_failure_entries`, if it was within it: the call
-- may be refused, may record a failure of an address that the map does not know, or may succeed.
pub login-IsBounded :
    (up : Bool) (now : ℕ) (https : Bool) (ip user : String) (verified : Result LoginError Bool)
    (fresh : Result LoginError String) (m : Manager)
    → IsBounded m
    → IsBounded (login up now https ip user verified fresh m).0
unfolding login grant open_session
login-IsBounded up now https ip user verified fresh m h = ground (
  arith,
  rate_limited-IsBounded now ip m,
  record_failure-IsBounded now ip (rate_limited now ip m).0,
  length-drop_key-le ip (rate_limited now ip m).0.failures,
)
