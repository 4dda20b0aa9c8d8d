-- ===== src/Auth/Sessions.antt =====
-- internal/auth/sessions.go: the session tables of internal/db/schema.sql. Times are Unix
-- milliseconds here. The argument `up` says whether the database carries the statements out; a
-- transaction that fails is rolled back.
use aiofiles.Prelude.{
  ℕ, String, Bool, true, false, Option, none, some, List, ltb, str_eq, if◌then◌else◌, Result, ok,
  err,
}
use aiofiles.Prelude.Dict.{put, drop_key, keep_values}

pub data StoreError : Type 0 where
  save_session delete_session delete_expired_sessions load_sessions rebind_sessions : StoreError

pub record SessionStore : Type 0 where
  pub sessions : List (String × ℕ)
  pub credential : Option String

unfoldable pub save : Bool → String → ℕ → SessionStore → Result StoreError SessionStore
save false token expiry s = err save_session
save true token expiry s = ok (record s { sessions = put token expiry s.sessions })

unfoldable pub delete : Bool → String → SessionStore → Result StoreError SessionStore
delete false token s = err delete_session
delete true token s = ok (record s { sessions = drop_key token s.sessions })

unfoldable pub delete_expired : Bool → ℕ → SessionStore → Result StoreError SessionStore
delete_expired false now s = err delete_expired_sessions
delete_expired true now s =
    ok (record s { sessions = keep_values (λ expiry. ltb now expiry) s.sessions })

-- A store that was never bound holds the empty text.
abbrev pub bound_to : Option String → String
bound_to none = ""
bound_to (some f) = f

unfoldable pub rebind : Bool → String → SessionStore → Result StoreError SessionStore
rebind false fingerprint s = err rebind_sessions
rebind true fingerprint s = ok (record {
  sessions = if str_eq (bound_to s.credential) fingerprint then s.sessions else List.[];
  credential = some fingerprint;
})

unfoldable pub live : Bool → ℕ → SessionStore → Result StoreError (List (String × ℕ))
live false now s = err load_sessions
live true now s = ok (keep_values (λ expiry. ltb now expiry) s.sessions)
