-- ===== src/Auth/Manager/Access.antt =====
-- The life of a session token: it is good from the login to its expiry, and not after a logout.
use aiofiles.Prelude.{
  ℕ, ◌+◌, String, Bool, true, false, ◌≡◌, refl, ap, ◌∙◌, Option, none, some, sym, leb, ok, arith,
  str_eq, str_eq_iff,
}
use aiofiles.Prelude.Dict.{lookup, lookup-put, lookup-drop_key}
use mathlib.Core.Path.{subst}
use aiofiles.Auth.Sessions.{SessionStore, delete}
use aiofiles.Auth.Manager.{
  Manager, Config, enabled, check_address, rate_limited, grant, open_session, check_session, login,
  logout, authenticated, through,
}

-- A token under which no session is open lets no request in.
unknown_token :
    (up : Bool) (now : ℕ) (token : String) (m : Manager)
    → enabled m ≡ true
    → lookup token m.sessions ≡ none
    → (authenticated up now token m).1 ≡ false
unfolding authenticated check_session
unknown_token up now token m on h = ground arith

-- A request with an open session's token is let in exactly up to the session's expiry.
pub open_until :
    (up : Bool) (now expiry : ℕ) (token : String) (m : Manager)
    → enabled m ≡ true
    → str_eq token "" ≡ false
    → lookup token m.sessions ≡ some expiry
    → (authenticated up now token m).1 ≡ leb now expiry
unfolding authenticated check_session
open_until up now expiry token m on full h = ground arith

-- No row of the token is in the store, if there is one.
abbrev pub Forgotten : String → Option SessionStore → Type 0
Forgotten token none = Unit
Forgotten token (some s) = lookup token s.sessions ≡ none

delete-Forgotten :
    (token : String) (s : Option SessionStore) → Forgotten token (through (delete true token) s)
unfolding delete
delete-Forgotten token none = tt
delete-Forgotten token (some s) = ground (arith, lookup-drop_key token token s.sessions)

logout-store :
    (up : Bool) (token : String) (m : Manager)
    → str_eq token "" ≡ false
    → (logout up token m).store ≡ through (delete up token) m.store
unfolding logout
logout-store up token m full = ground arith

-- A token that was logged out lets no request in to this process, whether or not the database took the deletion, while
-- the other sessions stay as they were; if it took the deletion, the store has no row of the token either.
pub logout-ends :
    (up up' : Bool) (now : ℕ) (token : String) (m : Manager)
    → enabled m ≡ true
    → str_eq token "" ≡ false
    → ((authenticated up' now token (logout up token m)).1 ≡ false)
      × Forgotten token (logout true token m).store
      × ((other : String)
          → ¬ (token ≡ other)
          → lookup other (logout up token m).sessions ≡ lookup other m.sessions)
unfolding logout enabled
logout-ends up up' now token m on full = (
  ground (
    arith,
    unknown_token up' now token (logout up token m),
    lookup-drop_key token token m.sessions,
  ),
  subst (Forgotten token) (sym (logout-store true token m full)) (delete-Forgotten token m.store),
  λ other apart. ground (arith, lookup-drop_key token other m.sessions),
)

check_address-config :
    (now : ℕ) (ip : String) (m : Manager) → (check_address now ip m).0.config ≡ m.config
unfolding check_address
check_address-config now ip m = ground arith

pub rate_limited-config :
    (now : ℕ) (ip : String) (m : Manager) → (rate_limited now ip m).0.config ≡ m.config
unfolding rate_limited
rate_limited-config now ip m = ground (
  arith,
  check_address-config now ip m,
  check_address-config now ip (record m { global = record { count = 0; first = 0 } }),
)

pub enabled_by : (m n : Manager) → n.config ≡ m.config → enabled m ≡ true → enabled n ≡ true
unfolding enabled
enabled_by m n e on = rw e on

login_granted :
    (up : Bool) (now : ℕ) (https : Bool) (ip token : String) (m : Manager)
    → enabled m ≡ true
    → (rate_limited now ip m).1 ≡ false
    → login up now https ip m.username (ok true) (ok token) m
      ≡ grant up now https ip (ok token) (rate_limited now ip m).0
unfolding login
login_granted up now https ip token m on free =
    rw (on, free, rate_limited-config now ip m, (str_eq_iff m.username m.username).1 refl) refl

open_session-opens :
    (up up' : Bool) (now later : ℕ) (ip token : String) (m : Manager)
    → enabled m ≡ true
    → str_eq token "" ≡ false
    → (authenticated up' later token (open_session up now ip token m)).1 ≡ leb later (now + m.ttl)
unfolding open_session enabled
open_session-opens up up' now later ip token m on full =
    open_until up' later (now + m.ttl) token (open_session up now ip token m) on full
      (ground (arith, lookup-put token token (now + m.ttl) m.sessions))

-- A login with the configured name, a password that verifies and an address that is not limited answers
-- with a cookie of the new token, and a request with this token is let in exactly until the
-- expiry that the cookie names: the time of the login and the configured lifetime. It holds whether or
-- not the database takes the session.
pub login-opens :
    (up up' : Bool) (now later : ℕ) (https : Bool) (ip token : String) (m : Manager)
    → enabled m ≡ true
    → (rate_limited now ip m).1 ≡ false
    → str_eq token "" ≡ false
    → ((login up now https ip m.username (ok true) (ok token) m).1
        ≡ ok (some (record { token = token; expires = now + m.ttl; secure = https })))
      × ((authenticated up' later token
            (login up now https ip m.username (ok true) (ok token) m).0).1
          ≡ leb later (now + m.ttl))
unfolding grant
login-opens up up' now later https ip token m on free full =
    let m' = (rate_limited now ip m).0 in
    let c = rate_limited-config now ip m in
    (
      rw (login_granted up now https ip token m on free, c) refl,
      rw (login_granted up now https ip token m on free) (
          open_session-opens up up' now later ip token m' (enabled_by m m' c on) full
          ∙ ap (λ (k : Config). leb later (now + k.ttl)) c),
    )
