-- ===== src/Auth/Manager/Lockout.antt =====
-- What a series of failed logins leads to.
use aiofiles.Prelude.{
  ℕ, suc, ◌+◌, ◌≤◌, ◌<◌, String, Bool, true, not, ◌≡◌, refl, ap, ◌∙◌, inl, inr, none, some, ok,
  Bool-cases, false, ite, List, [], ◌∷◌, length, Result, err, arith, All, Option-cases, str_dec,
}
use aiofiles.Prelude.Dict.{lookup, lookup-put, lookup-drop_key, lookup-keep_values_kept}
use aiofiles.Auth.Manager.Access.{rate_limited-config}
use aiofiles.Auth.Manager.{
  Manager, FailCounter, LoginError, LoginResult, bad_credentials, reset_global, rate_limit,
  max_failures, fail_window, max_failure_entries, enabled, stale, check_address, rate_limited,
  prune, one_failure, next_failure, count_global, track, record_failure, login,
}

-- A login with a password that does not verify: its time, its address and its name.
abbrev pub Attempt : Type 0
Attempt = ℕ × String × String

-- Whether a login was answered as one with wrong credentials.
abbrev pub refusal : LoginResult → ℕ
refusal (err bad_credentials) = 1
refusal _ = 0

unfoldable pub attempt :
    Bool → Bool → Result LoginError String → Attempt → Manager → Manager × LoginResult
unfolding login
attempt up https fresh (t, ip, user) m = login up t https ip user (ok false) fresh m

unfoldable pub attempts : Bool → Bool → Result LoginError String → List Attempt → Manager → Manager
unfolding attempt
attempts up https fresh [] m = m
attempts up https fresh (a ∷ l) m = attempts up https fresh l (attempt up https fresh a m).0

-- How many of the attempts from an address were answered so.
unfoldable pub refusals_of :
    Bool → Bool → Result LoginError String → String → List Attempt → Manager → ℕ
unfolding attempt
refusals_of up https fresh ip [] m = 0
refusals_of up https fresh ip (a ∷ l) m =
    ite (str_dec a.1 ip) (refusal (attempt up https fresh a m).1) 0
    + refusals_of up https fresh ip l (attempt up https fresh a m).0

abbrev pub IsWithin : ℕ → Attempt → Type 0
IsWithin first (t, ip, user) = (first ≤ t) × (t ≤ first + fail_window)

abbrev counter : ℕ → ℕ → FailCounter
counter c first = record { count = c; first = first }

track-lookup :
    (t : ℕ) (j ip : String) (m : Manager) (c first : ℕ)
    → lookup ip m.failures ≡ some (counter c first)
    → t ≤ first + fail_window
    → lookup j m.failures ≡ none
    → lookup ip (track t j m).failures ≡ some (counter c first)
unfolding track
track-lookup t j ip m c first h w n = ground (
  arith,
  lookup-put j ip (one_failure t) m.failures,
  lookup-put j ip (one_failure t) (prune t m).failures,
  lookup-keep_values_kept (λ f. not (stale fail_window t f)) ip m.failures {v = counter c first},
)

record_failure-lookup :
    (t : ℕ) (j ip : String) (m : Manager) (c first : ℕ)
    → lookup ip m.failures ≡ some (counter c first)
    → t ≤ first + fail_window
    → lookup ip (record_failure t j m).failures
      ≡ some (counter (ite (str_dec j ip) (suc c) c) first)
unfolding record_failure
record_failure-lookup t j ip m c first h w = elim (Option-cases (lookup j m.failures)) [
  | inl n ↦ rw (n, record_failure) (ground (arith, track-lookup t j ip (count_global t m) c first))
  | inr (g, e) ↦
      rw (e, record_failure)
        (ground (arith, lookup-put j ip (next_failure fail_window t g) m.failures))
]

check_address-lookup :
    (t : ℕ) (j ip : String) (m : Manager) (c first : ℕ)
    → lookup ip m.failures ≡ some (counter c first)
    → t ≤ first + fail_window
    → lookup ip (check_address t j m).0.failures ≡ some (counter c first)
unfolding check_address
check_address-lookup t j ip m c first h w = elim (str_dec j ip) [
  | yes same ↦ ground (arith, ap (λ x. lookup x m.failures) same)
  | no apart ↦ ground (arith, lookup-drop_key j ip m.failures)
]

reset_global-lookup :
    (t : ℕ) (ip : String) (m : Manager)
    → lookup ip (reset_global t m).failures ≡ lookup ip m.failures
reset_global-lookup t ip m = ground arith

rate_limited-lookup :
    (t : ℕ) (j ip : String) (m : Manager) (c first : ℕ)
    → lookup ip m.failures ≡ some (counter c first)
    → t ≤ first + fail_window
    → lookup ip (rate_limited t j m).0.failures ≡ some (counter c first)
unfolding rate_limited
rate_limited-lookup t j ip m c first h w =
    ground
      (arith, reset_global-lookup t ip m, check_address-lookup t j ip (reset_global t m) c first)

module _ (up https : Bool) (fresh : Result LoginError String) where
  attempt-lookup :
      (t : ℕ) (j user ip : String) (m : Manager) (c first : ℕ)
      → enabled m ≡ true
      → lookup ip m.failures ≡ some (counter c first)
      → t ≤ first + fail_window
      → lookup ip (attempt up https fresh (t, j, user) m).0.failures
        ≡ some (
            counter
              (ite (str_dec j ip) (refusal (attempt up https fresh (t, j, user) m).1) 0 + c)
              first)
  unfolding attempt login
  attempt-lookup t j user ip m c first on h w = elim (Bool-cases (rate_limited t j m).1) [
    | inl e ↦ ground (arith, rate_limited-lookup t j ip m c first h w)
    | inr e ↦ ground (
      arith,
      rate_limited-lookup t j ip m c first h w,
      record_failure-lookup t j ip (rate_limited t j m).0 c first,
    )
  ]

track-config : (t : ℕ) (ip : String) (m : Manager) → (track t ip m).config ≡ m.config
unfolding track
track-config t ip m = ground arith

record_failure-config :
    (t : ℕ) (ip : String) (m : Manager) → (record_failure t ip m).config ≡ m.config
unfolding record_failure
record_failure-config t ip m = elim (Option-cases (lookup ip m.failures)) [
  | inl n ↦ rw (n, record_failure) (track-config t ip (count_global t m))
  | inr (g, e) ↦ rw (e, record_failure) refl
]

enabled_at : (m n : Manager) → n.config ≡ m.config → enabled m ≡ true → enabled n ≡ true
unfolding enabled
enabled_at m n e on = rw e on

module _ (up https : Bool) (fresh : Result LoginError String) where
  attempt-config :
      (t : ℕ) (ip user : String) (m : Manager)
      → (attempt up https fresh (t, ip, user) m).0.config ≡ m.config
  unfolding attempt login
  attempt-config t ip user m =
      ground (arith, rate_limited-config t ip m, record_failure-config t ip (rate_limited t ip m).0)

  attempt-enabled :
      (a : Attempt) (m : Manager) → enabled m ≡ true → enabled (attempt up https fresh a m).0 ≡ true
  attempt-enabled (t, ip, user) m on =
      enabled_at m (attempt up https fresh (t, ip, user) m).0 (attempt-config t ip user m) on

  attempts-enabled :
      (l : List Attempt) (m : Manager)
      → enabled m ≡ true
      → enabled (attempts up https fresh l m) ≡ true
  unfolding attempts
  attempts-enabled [] m on = on
  attempts-enabled (a ∷ l) m on =
      attempts-enabled l (attempt up https fresh a m).0 (attempt-enabled a m on)

  attempts-lookup :
      (l : List Attempt) (ip : String) (m : Manager) (c first : ℕ)
      → enabled m ≡ true
      → lookup ip m.failures ≡ some (counter c first)
      → All (IsWithin first) l
      → lookup ip (attempts up https fresh l m).failures
        ≡ some (counter (refusals_of up https fresh ip l m + c) first)
  unfolding attempts refusals_of
  attempts-lookup [] ip m c first on h w = grind arith
  attempts-lookup ((t, j, user) ∷ l) ip m c first on h ((_, w), ws) =
      let a : Attempt = (t, j, user) in
      let n = ite (str_dec j ip) (refusal (attempt up https fresh a m).1) 0 in
      let rest = refusals_of up https fresh ip l (attempt up https fresh a m).0 in
      attempts-lookup l ip (attempt up https fresh a m).0 (n + c) first (attempt-enabled a m on)
        (attempt-lookup up https fresh t j user ip m c first on h w) ws
      ∙ ap (λ k. some (counter k first)) {x = rest + (n + c)} {y = n + rest + c} (omega arith)

first_strike :
    (t : ℕ) (ip : String) (m : Manager)
    → lookup ip m.failures ≡ none
    → length m.failures < max_failure_entries
    → lookup ip (record_failure t ip m).failures ≡ some (counter 1 t)
unfolding record_failure track
first_strike t ip m h room =
    rw (h, record_failure) (ground (arith, lookup-put ip ip (one_failure t) m.failures))

limited_by :
    (now : ℕ) (ip : String) (m : Manager) (c first : ℕ)
    → lookup ip m.failures ≡ some (counter c first)
    → now ≤ first + fail_window
    → max_failures ≤ c
    → (rate_limited now ip m).1 ≡ true
unfolding rate_limited check_address
limited_by now ip m c first h w five = ground arith

-- The first attempt that is refused opens the counter of its address.
first_attempt :
    (up https : Bool) (fresh : Result LoginError String) (t : ℕ) (ip user : String) (m : Manager)
    → enabled m ≡ true
    → lookup ip m.failures ≡ none
    → length m.failures < max_failure_entries
    → refusal (attempt up https fresh (t, ip, user) m).1 ≡ 1
    → lookup ip (attempt up https fresh (t, ip, user) m).0.failures ≡ some (counter 1 t)
unfolding attempt login rate_limited check_address
first_attempt up https fresh t ip user m on new room refused =
    ground (arith, first_strike t ip (rate_limited t ip m).0)

-- While a login is configured: after a login from an address that the map of failures did not know, and had room for,
-- was answered as one with wrong credentials at time `t`, and at least four more from it were before `fail_window` had
-- passed, among any number of logins with passwords that do not verify from any addresses, every login from the
-- address up to the end of the window is refused as rate limited, whatever the password verification would answer.
pub lockout :
    (up https : Bool) (fresh : Result LoginError String) (t now : ℕ) (ip name user : String)
    (verified : Result LoginError Bool) (l : List Attempt) (m : Manager)
    → enabled m ≡ true
    → lookup ip m.failures ≡ none
    → length m.failures < max_failure_entries
    → refusal (attempt up https fresh (t, ip, name) m).1 ≡ 1
    → All (IsWithin t) l
    → 4 ≤ refusals_of up https fresh ip l (attempt up https fresh (t, ip, name) m).0
    → now ≤ t + fail_window
    → (login up now https ip user verified fresh (attempts up https fresh ((t, ip, name) ∷ l) m)).1
      ≡ err rate_limit
unfolding login attempts attempt
lockout up https fresh t now ip name user verified l m on new room refused within four w =
    let m' = (attempt up https fresh (t, ip, name) m).0 in
    let c = refusals_of up https fresh ip l m' + 1 in
    ground (
      arith,
      attempts-enabled up https fresh ((t, ip, name) ∷ l) m on,
      limited_by now ip (attempts up https fresh l m') c t
          (attempts-lookup up https fresh l ip m' 1 t
            (attempt-enabled up https fresh (t, ip, name) m on)
            (first_attempt up https fresh t ip name m on new room refused) within)
          w (omega (arith, four)),
    )
