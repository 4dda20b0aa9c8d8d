-- ===== src/Examples/Login.antt =====
-- Logins and sessions at concrete inputs.
use aiofiles.Prelude.{
  ◌+◌, ◌≤◌, String, true, false, ◌≡◌, refl, some, List, [], ◌∷◌, leb, ok, err, arith, str_dec,
}
use aiofiles.Prelude.Dict.{lookup, put, drop_key}
use aiofiles.Auth.Sessions.{SessionStore}
use aiofiles.Auth.Manager.{
  Manager, track, new_manager, login, logout, authenticated, rate_limited, record_failure,
  check_address, enabled, open_session, persist, unix_milli, of_milli, rate_limit,
}
use aiofiles.Auth.Manager.Lockout.{Attempt, attempt, attempts, refusals_of, lockout}
use aiofiles.Auth.Manager.Access.{Forgotten, login-opens, logout-ends}
use aiofiles.Auth.Manager.Restart.{restart-keeps}

abbrev fresh : Manager
fresh = new_manager "admin" "$argon2id$" 1

abbrev tries : List Attempt
tries =
    (11, "6.6.6.6", "admin")
    ∷ (12, "5.5.5.5", "root")
    ∷ (13, "6.6.6.6", "root")
    ∷ (14, "6.6.6.6", "admin")
    ∷ (15, "6.6.6.6", "admin")
    ∷ []

refusals :
    refusals_of true false
      (ok "tok")
      "6.6.6.6"
      tries
      (attempt true false (ok "tok") (10, "6.6.6.6", "admin") fresh).0
    ≡ 4
unfolding attempt refusals_of enabled lookup put drop_key login rate_limited check_address
    record_failure track str_dec
refusals = refl

lockout_example :
    (login true 100 false "6.6.6.6" "admin"
      (ok true)
      (ok "tok")
      (attempts true false (ok "tok") ((10, "6.6.6.6", "admin") ∷ tries) fresh)).1
    ≡ err rate_limit
unfolding attempt enabled lookup login rate_limited check_address record_failure
lockout_example =
    lockout true false (ok "tok") 10 100 "6.6.6.6" "admin" "admin" (ok true) tries fresh refl refl
      (omega arith) refl (ground arith) (omega (arith, refusals)) (omega arith)

login-opens_example :
    ((login true 10 true "1.1.1.1" "admin" (ok true) (ok "tok") fresh).1
      ≡ ok (some (record { token = "tok"; expires = 10 + fresh.ttl; secure = true })))
    × ((authenticated true 20 "tok"
          (login true 10 true "1.1.1.1" "admin" (ok true) (ok "tok") fresh).0).1
        ≡ leb 20 (10 + fresh.ttl))
unfolding enabled rate_limited check_address lookup
login-opens_example = login-opens true true 10 20 true "1.1.1.1" "tok" fresh refl refl refl

abbrev inside : Manager
inside = record fresh {
  sessions = ("tok", 500) ∷ ("two", 600) ∷ [];
  store = some (record { sessions = ("tok", 9) ∷ ("two", 9) ∷ []; credential = some "f" });
}

logout-ends_example :
    ((authenticated true 20 "tok" (logout false "tok" inside)).1 ≡ false)
    × Forgotten "tok" (logout true "tok" inside).store
    × ((other : String)
        → ¬ ("tok" ≡ other)
        → lookup other (logout false "tok" inside).sessions ≡ lookup other inside.sessions)
unfolding enabled logout lookup
logout-ends_example = logout-ends false true 20 "tok" inside refl refl

abbrev store : SessionStore
store = record { sessions = ("one", 9_000_000) ∷ []; credential = some "f" }

restart-keeps_example :
    let m : Manager = record fresh { store = some store } in
    (s' : SessionStore) × ((open_session true 10 "1.1.1.1" "tok" m).store ≡ some s')
    × ((authenticated true 70 "tok" (persist true true true 60 "f" s' fresh)).1
        ≡ leb 70 (of_milli (unix_milli (10 + m.ttl))))
    × (of_milli (unix_milli (10 + m.ttl)) ≤ 10 + m.ttl)
unfolding enabled lookup
restart-keeps_example =
    restart-keeps true true 10 60 70 "1.1.1.1" "f" "tok" store (record fresh { store = some store })
      fresh refl refl refl refl (refl, tt) (omega arith)
