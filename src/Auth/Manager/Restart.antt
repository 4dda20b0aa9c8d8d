-- ===== src/Auth/Manager/Restart.antt =====
-- What a new process finds of the sessions of the one before it.
use aiofiles.Prelude.{
  ℕ, ◌+◌, ◌≤◌, ◌<◌, String, Bool, true, false, ◌≡◌, refl, none, some, List, [], ◌∷◌, ltb, leb,
  arith, str_eq,
}
use aiofiles.Prelude.Dict.{lookup, put, keep_values, lookup-put, lookup-keep_values_kept}
use aiofiles.Auth.Sessions.{SessionStore, save, rebind, live, bound_to}
use aiofiles.Auth.Manager.Access.{open_until, enabled_by}
use aiofiles.Auth.Manager.{
  Manager, enabled, authenticated, unix_milli, of_milli, adopt, persist, written, open_session,
}

-- The primary key of the table: no token twice.
abbrev pub IsDistinct : List (String × ℕ) → Type 0
IsDistinct [] = Unit
IsDistinct ((k, v) ∷ l) = (lookup k l ≡ none) × IsDistinct l

put-IsDistinct :
    (k : String) (v : ℕ) (l : List (String × ℕ)) → IsDistinct l → IsDistinct (put k v l)
unfolding put lookup
put-IsDistinct k v [] h = (refl, tt)
put-IsDistinct k v ((j, w) ∷ l) (h, hs) =
    ground (arith, put-IsDistinct k v l hs, lookup-put k j v l)

lookup-keep_values-none :
    (p : ℕ → Bool) (k : String) (l : List (String × ℕ))
    → lookup k l ≡ none
    → lookup k (keep_values p l) ≡ none
unfolding keep_values lookup
lookup-keep_values-none p k [] h = h
lookup-keep_values-none p k ((j, w) ∷ l) h = ground (arith, lookup-keep_values-none p k l)

keep_values-IsDistinct :
    (p : ℕ → Bool) (l : List (String × ℕ)) → IsDistinct l → IsDistinct (keep_values p l)
unfolding keep_values
keep_values-IsDistinct p [] h = tt
keep_values-IsDistinct p ((j, w) ∷ l) (h, hs) =
    ground (arith, keep_values-IsDistinct p l hs, lookup-keep_values-none p j l)

adopt-none :
    (k : String) (l s : List (String × ℕ)) → lookup k l ≡ none → lookup k (adopt l s) ≡ lookup k s
unfolding adopt lookup
adopt-none k [] s h = refl
adopt-none k ((j, w) ∷ l) s h =
    ground (arith, adopt-none k l (put j (of_milli w) s), lookup-put j k (of_milli w) s)

-- Each session of the table is adopted with its expiry, if no token stands twice.
adopt-lookup :
    (k : String) (v : ℕ) (l s : List (String × ℕ))
    → IsDistinct l
    → lookup k l ≡ some v
    → lookup k (adopt l s) ≡ some (of_milli v)
unfolding adopt lookup
adopt-lookup k v [] s h e = cc
adopt-lookup k v ((j, w) ∷ l) s (h, hs) e = ground (
  arith,
  adopt-lookup k v l (put j (of_milli w) s) hs,
  adopt-none j l (put j (of_milli w) s),
  lookup-put j k (of_milli w) s,
)

persist-lookup :
    (up : Bool) (now : ℕ) (fingerprint token : String) (expiry : ℕ) (s : SessionStore) (m : Manager)
    → str_eq (bound_to s.credential) fingerprint ≡ true
    → IsDistinct s.sessions
    → lookup token s.sessions ≡ some expiry
    → ltb (unix_milli now) expiry ≡ true
    → lookup token (persist true true up now fingerprint s m).sessions ≡ some (of_milli expiry)
unfolding persist rebind live
persist-lookup up now fingerprint token expiry s m same distinct h fresh = rw same (
    adopt-lookup token expiry (keep_values (λ e. ltb (unix_milli now) e) s.sessions) m.sessions
      (keep_values-IsDistinct (λ e. ltb (unix_milli now) e) s.sessions distinct)
      (lookup-keep_values_kept (λ e. ltb (unix_milli now) e) token s.sessions h fresh))

-- The store after a login's session was written.
abbrev after_save : ℕ → String → Manager → SessionStore → SessionStore
after_save now token m s = written (save true token (unix_milli (now + m.ttl)) s) s

persist-config :
    (up : Bool) (now : ℕ) (fingerprint : String) (s : SessionStore) (m : Manager)
    → (persist true true up now fingerprint s m).config ≡ m.config
unfolding persist rebind live
persist-config up now fingerprint s m = refl

-- If the statements to the database are carried out and the credential is the one that the store is bound to: a session
-- that a login opens with the store attached, which holds no token twice, is let in by a process that attaches the
-- store before the session's expiry in milliseconds, exactly until that expiry rounded down to the millisecond, which
-- is never later than the expiry that the cookie names.
pub restart-keeps :
    (up up' : Bool) (now later at : ℕ) (ip fingerprint token : String) (s : SessionStore)
    (m n : Manager)
    → m.store ≡ some s
    → enabled n ≡ true
    → str_eq token "" ≡ false
    → str_eq (bound_to s.credential) fingerprint ≡ true
    → IsDistinct s.sessions
    → unix_milli later < unix_milli (now + m.ttl)
    → (s' : SessionStore) × ((open_session true now ip token m).store ≡ some s')
      × ((authenticated up' at token (persist true true up later fingerprint s' n)).1
          ≡ leb at (of_milli (unix_milli (now + m.ttl))))
      × (of_milli (unix_milli (now + m.ttl)) ≤ now + m.ttl)
unfolding open_session save
restart-keeps up up' now later at ip fingerprint token s m n attached on full same distinct fresh =
    let expiry = unix_milli (now + m.ttl) in
    let s' = after_save now token m s in
    (
      s',
      rw attached refl,
      open_until up' at (of_milli expiry) token (persist true true up later fingerprint s' n)
          (enabled_by n (persist true true up later fingerprint s' n)
            (persist-config up later fingerprint s' n) on)
          full
          (persist-lookup up later fingerprint token expiry s' n same
            (put-IsDistinct token expiry s.sessions distinct)
            (ground (arith, lookup-put token token expiry s.sessions)) (ground arith)),
      omega arith,
    )
