-- ===== src/Auth/Manager.antt =====
-- internal/auth/manager.go: sessions in memory, written through to a store, and the counters of failed
-- logins. Times are nanoseconds; the readings of the clock within one call are taken as one. The
-- argon2id verification and the random token are what the call is given.
pub mod Limits
pub mod Lockout
pub mod Access
pub mod Restart
use aiofiles.Prelude.{
  ℕ, zero, suc, ◌+◌, ◌-◌, ◌*◌, ◌/◌, String, Bool, true, false, not, ◌&&◌, ◌||◌, Option, none, some,
  List, [], ◌∷◌, str_eq, ltb, leb, ◌==◌, length, if◌then◌else◌, Result, ok, err,
}
use aiofiles.Prelude.Dict.{lookup, put, drop_key, keep_values}
use aiofiles.Auth.Sessions.{SessionStore, StoreError, save, delete, delete_expired, rebind, live}

abbrev pub max_failures : ℕ
max_failures = 5

abbrev pub fail_window : ℕ
fail_window = 900_000_000_000

abbrev pub global_max_failures : ℕ
global_max_failures = 100

abbrev pub global_fail_window : ℕ
global_fail_window = 300_000_000_000

abbrev pub max_failure_entries : ℕ
max_failure_entries = 4096

-- `t.UnixMilli()` and `time.UnixMilli(n)`
abbrev pub unix_milli : ℕ → ℕ
unix_milli t = t / 1_000_000

abbrev pub of_milli : ℕ → ℕ
of_milli n = n * 1_000_000

pub data LoginError : Type 0 where
  bad_credentials rate_limit : LoginError
  internal : String → LoginError

pub record FailCounter : Type 0 where
  pub count : ℕ
  pub first : ℕ

abbrev pub no_failures : FailCounter
no_failures = record { count = 0; first = 0 }

pub record Config : Type 0 where
  pub username : String
  pub password_hash : String
  pub ttl : ℕ

pub record Manager : Type 0 where
  pub config : Config
  pub open config use *
  pub sessions : List (String × ℕ)
  pub failures : List (String × FailCounter)
  pub global : FailCounter
  pub store : Option SessionStore

-- `SESSION_TTL_HOURS <= 0` becomes 720 hours.
abbrev pub session_ttl : ℕ → ℕ
session_ttl zero = 720 * 3_600_000_000_000
session_ttl (suc h) = suc h * 3_600_000_000_000

abbrev pub new_manager : String → String → ℕ → Manager
new_manager username hash hours = record {
  config = record { username = username; password_hash = hash; ttl = session_ttl hours };
  sessions = [];
  failures = [];
  global = no_failures;
  store = none;
}

unfoldable pub enabled : Manager → Bool
enabled m = not (str_eq m.username "") && not (str_eq m.password_hash "")

abbrev pub stale : ℕ → ℕ → FailCounter → Bool
stale window now f = ltb window (now - f.first)

abbrev pub reset_global : ℕ → Manager → Manager
reset_global now m =
    if ltb 0 m.global.count && stale global_fail_window now m.global
    then record m { global = no_failures }
    else m

unfoldable pub check_address : ℕ → String → Manager → Manager × Bool
check_address now ip m = elim (lookup ip m.failures) [
  | none ↦ (m, false)
  | some f ↦
      if stale fail_window now f
      then (record m { failures = drop_key ip m.failures }, false)
      else (m, leb max_failures f.count)
]

unfoldable pub rate_limited : ℕ → String → Manager → Manager × Bool
unfolding check_address
rate_limited now ip m =
    let m' = reset_global now m in
    if leb global_max_failures m'.global.count then (m', true) else check_address now ip m'

abbrev pub prune : ℕ → Manager → Manager
prune now m = record m { failures = keep_values (λ f. not (stale fail_window now f)) m.failures }

abbrev pub one_failure : ℕ → FailCounter
one_failure now = record { count = 1; first = now }

abbrev pub next_failure : ℕ → ℕ → FailCounter → FailCounter
next_failure window now f =
    if stale window now f then one_failure now else record f { count = suc f.count }

abbrev pub count_global : ℕ → Manager → Manager
count_global now m = record m {
  global =
      if m.global.count == 0 then one_failure now else next_failure global_fail_window now m.global;
}

-- A new address is counted if there is room for it, after a pruning if need be.
unfoldable pub track : ℕ → String → Manager → Manager
track now ip m =
    if leb max_failure_entries (length m.failures)
    then (let p = prune now m in
        if leb max_failure_entries (length p.failures)
        then p
        else record p { failures = put ip (one_failure now) p.failures })
    else record m { failures = put ip (one_failure now) m.failures }

unfoldable pub record_failure : ℕ → String → Manager → Manager
unfolding track
record_failure now ip m =
    let c = count_global now m in
    elim (lookup ip c.failures) [
      | some f ↦ record c { failures = put ip (next_failure fail_window now f) c.failures }
      | none ↦ track now ip c
    ]

-- A store whose write fails keeps what it had; the error is only logged.
abbrev pub written : Result StoreError SessionStore → SessionStore → SessionStore
written (ok s) old = s
written (err e) old = old

abbrev pub through :
    (SessionStore → Result StoreError SessionStore) → Option SessionStore → Option SessionStore
through write none = none
through write (some s) = some (written (write s) s)

pub record Cookie : Type 0 where
  pub token : String
  pub expires : ℕ
  pub secure : Bool

-- The session that a successful login opens.
unfoldable pub open_session : Bool → ℕ → String → String → Manager → Manager
open_session up now ip token m = record m {
  sessions = put token (now + m.ttl) m.sessions;
  failures = drop_key ip m.failures;
  global = no_failures;
  store = through (save up token (unix_milli (now + m.ttl))) m.store;
}

abbrev pub LoginResult : Type 0
LoginResult = Result LoginError (Option Cookie)

unfoldable pub grant :
    Bool → ℕ → Bool → String → Result LoginError String → Manager → Manager × LoginResult
unfolding open_session
grant up now https ip (err e) m = (m, err e)
grant up now https ip (ok token) m = (
  open_session up now ip token m,
  ok (some (record { token = token; expires = now + m.ttl; secure = https })),
)

-- `verified` is what the password verification answers, `fresh` the random token.
unfoldable pub login :
    Bool
    → ℕ
    → Bool
    → String
    → String
    → Result LoginError Bool
    → Result LoginError String
    → Manager
    → Manager × LoginResult
unfolding rate_limited record_failure grant
login up now https ip user verified fresh m =
    if not (enabled m)
    then (m, ok none)
    else (let (m', limited) = rate_limited now ip m in
        if limited then (m', err rate_limit) else elim verified [
          | err e ↦ (m', err e)
          | ok right ↦
              if not (str_eq user m.username) || not right
              then (record_failure now ip m', err bad_credentials)
              else grant up now https ip fresh m'
        ])

-- The empty text is a request with no cookie.
unfoldable pub logout : Bool → String → Manager → Manager
logout up token m = if str_eq token "" then m else record m {
  sessions = drop_key token m.sessions;
  store = through (delete up token) m.store;
}

unfoldable pub check_session : Bool → ℕ → String → Manager → Manager × Bool
check_session up now token m = elim (lookup token m.sessions) [
  | none ↦ (m, false)
  | some expiry ↦
      if ltb expiry now
      then (
        record m {
          sessions = drop_key token m.sessions;
          store = through (delete up token) m.store;
        },
        false,
      )
      else (m, true)
]

unfoldable pub authenticated : Bool → ℕ → String → Manager → Manager × Bool
unfolding check_session
authenticated up now token m =
    if not (enabled m)
    then (m, true)
    else if str_eq token ""
    then (m, false)
    else check_session up now token m

unfoldable pub reap : Bool → ℕ → Manager → Manager
reap up now m = record (prune now m) {
  sessions = keep_values (λ expiry. not (ltb expiry now)) m.sessions;
  store = through (delete_expired up (unix_milli now)) m.store;
}

-- `m.sessions[token] = exp` for each live session.
unfoldable pub adopt : List (String × ℕ) → List (String × ℕ) → List (String × ℕ)
adopt [] sessions = sessions
adopt ((token, expiry) ∷ l) sessions = adopt l (put token (of_milli expiry) sessions)

-- The attachment of a store: the statements of `Rebind`, `Live` and `DeleteExpired` in their order.
-- `fingerprint` is the digest of the configured password hash.
unfoldable pub persist : Bool → Bool → Bool → ℕ → String → SessionStore → Manager → Manager
unfolding adopt
persist up_rebind up_live up_delete now fingerprint s m = elim (rebind up_rebind fingerprint s) [
  | err e ↦ record m { store = some s }
  | ok bound ↦ elim (live up_live (unix_milli now) bound) [
    | err e ↦ record m { store = some bound }
    | ok found ↦ record m {
      sessions = adopt found m.sessions;
      store = some (written (delete_expired up_delete (unix_milli now) bound) bound);
    }
  ]
]
