-- ===== src/Api/ProbeLimit.antt =====
-- internal/api/probelimit.go: the token bucket and the slots of /api/probe. Times are nanoseconds, and
-- a token is `probe_interval` units, so that a nanosecond is worth one unit: the source's floating
-- point division is taken as exact. The clock is Go's monotonic one.
pub mod Rate
use aiofiles.Prelude.{
  ℕ, zero, suc, ◌+◌, ◌-◌, ◌*◌, ◌≤◌, ◌≡◌, Bool, true, false, Option, none, some, ltb, leb, min, max,
  if◌then◌else◌,
}

abbrev pub probe_interval : ℕ
probe_interval = 3_000_000_000

-- `probeBurst`, eight tokens, in units.
abbrev pub probe_burst : ℕ
probe_burst = 24_000_000_000

abbrev pub max_probe_slots : ℕ
max_probe_slots = 4

-- `slots` is how many entries the channel holds, `capacity` how many it can.
pub record ProbeLimiter : Type 0 where
  pub slots : ℕ
  pub capacity : ℕ
  pub tokens : ℕ
  pub last : ℕ

abbrev pub slot_count : ℕ → ℕ
slot_count in_flight =
    let n = if ltb in_flight 1 then 1 else in_flight in
    if ltb max_probe_slots n then max_probe_slots else n

abbrev pub new_limiter : ℕ → ℕ → ProbeLimiter
new_limiter in_flight now = record {
  slots = 0;
  capacity = slot_count in_flight;
  tokens = probe_burst;
  last = now;
}

abbrev pub refilled : ℕ → ProbeLimiter → ℕ
refilled now l = let t = l.tokens + (now - l.last) in if ltb probe_burst t then probe_burst else t

unfoldable pub take_token : ℕ → ProbeLimiter → ProbeLimiter × Bool
take_token now l =
    let t = refilled now l in
    if ltb t probe_interval
    then (record l { tokens = t; last = now }, false)
    else (record l { tokens = t - probe_interval; last = now }, true)

unfoldable pub refund : ProbeLimiter → ProbeLimiter
refund l = if ltb l.tokens probe_burst then record l { tokens = l.tokens + probe_interval } else l

-- The `select` of `acquire`: a place in the channel, if there is one.
unfoldable pub claim_slot : ProbeLimiter → Option ProbeLimiter
claim_slot l = if ltb l.slots l.capacity then some (record l { slots = suc l.slots }) else none

unfoldable pub release : ProbeLimiter → ProbeLimiter
release l = record l { slots = l.slots - 1 }

-- `acquire` when no other request comes between its steps.
unfoldable pub acquire : ℕ → ProbeLimiter → ProbeLimiter × Bool
unfolding take_token refund claim_slot
acquire now l =
    let (t, taken) = take_token now l in
    if taken
    then elim (claim_slot t) [ some l' ↦ (l', true) | none ↦ (refund t, false) ]
    else (t, false)

-- The limiter and the requests inside `acquire`: those that hold a token and have not tried for a
-- slot, those that found no slot and have not given the token back, and those that were let in.
pub record Gate : Type 0 where
  pub limiter : ProbeLimiter
  pub holding : ℕ
  pub refusing : ℕ
  pub granted : ℕ

abbrev pub new_gate : ℕ → ℕ → Gate
new_gate in_flight now = record {
  limiter = new_limiter in_flight now;
  holding = 0;
  refusing = 0;
  granted = 0;
}

-- One step of one request; `take`, the `select` and `refund` are atomic each, and not together.
pub data Step : Gate → Gate → Type 0 where
  takes :
      (g : Gate) (now : ℕ)
      → g.limiter.last ≤ now
      → (take_token now g.limiter).1 ≡ true
      → Step g (record g { limiter = (take_token now g.limiter).0; holding = suc g.holding })
  starves :
      (g : Gate) (now : ℕ)
      → g.limiter.last ≤ now
      → (take_token now g.limiter).1 ≡ false
      → Step g (record g { limiter = (take_token now g.limiter).0 })
  enters :
      (g : Gate) (l : ProbeLimiter) (n : ℕ)
      → g.holding ≡ suc n
      → claim_slot g.limiter ≡ some l
      → Step g (record g { limiter = l; holding = n; granted = suc g.granted })
  finds_full :
      (g : Gate) (n : ℕ)
      → g.holding ≡ suc n
      → claim_slot g.limiter ≡ none
      → Step g (record g { holding = n; refusing = suc g.refusing })
  refunds :
      (g : Gate) (n : ℕ)
      → g.refusing ≡ suc n
      → Step g (record g { limiter = refund g.limiter; refusing = n })
  leaves : (g : Gate) → 1 ≤ g.limiter.slots → Step g (record g { limiter = release g.limiter })

pub data Reach (start : Gate) : Gate → Type 0 where
  begin : Reach start start
  then_step : {g g' : Gate} → Reach start g → Step g g' → Reach start g'
