-- ===== src/Api/ProbeLimit/Rate.antt =====
-- How many probes the limiter lets in, whatever the interleaving of the requests.
use aiofiles.Prelude.{ℕ, suc, ◌+◌, ◌-◌, ◌*◌, ◌≤◌, ◌≡◌, true, false, arith}
use aiofiles.Api.ProbeLimit.{
  ProbeLimiter, Gate, Step, takes, starves, enters, finds_full, refunds, leaves, Reach, begin,
  then_step, new_gate, slot_count, probe_interval, probe_burst, max_probe_slots, take_token, refund,
  claim_slot, release, acquire, refilled,
}

-- The units in the bucket and those in the hands of requests, against the time since the start.
abbrev IsPaidFor : ℕ → Gate → Type 0
IsPaidFor start g =
    (start ≤ g.limiter.last)
    × (g.limiter.tokens + probe_interval * (g.holding + g.refusing + g.granted)
        ≤ probe_burst + (g.limiter.last - start))

Step-IsPaidFor : (start : ℕ) {g g' : Gate} → IsPaidFor start g → Step g g' → IsPaidFor start g'
unfolding take_token refund claim_slot release
Step-IsPaidFor start p (takes g now later e) = ground arith
Step-IsPaidFor start p (starves g now later e) = ground arith
Step-IsPaidFor start p (enters g l n h e) = ground arith
Step-IsPaidFor start p (finds_full g n h e) = ground arith
Step-IsPaidFor start p (refunds g n h) = ground arith
Step-IsPaidFor start p (leaves g h) = ground arith

Step-slots :
    {g g' : Gate}
    → g.limiter.slots ≤ g.limiter.capacity
    → Step g g'
    → (g'.limiter.slots ≤ g'.limiter.capacity) × (g'.limiter.capacity ≡ g.limiter.capacity)
unfolding take_token refund claim_slot release
Step-slots p (takes g now later e) = ground arith
Step-slots p (starves g now later e) = ground arith
Step-slots p (enters g l n h e) = ground arith
Step-slots p (finds_full g n h e) = ground arith
Step-slots p (refunds g n h) = ground arith
Step-slots p (leaves g h) = ground arith

Reach-IsPaidFor :
    (in_flight start : ℕ) {g : Gate} → Reach (new_gate in_flight start) g → IsPaidFor start g
Reach-IsPaidFor in_flight start begin = omega arith
Reach-IsPaidFor in_flight start (then_step r s) =
    Step-IsPaidFor start (Reach-IsPaidFor in_flight start r) s

Reach-slots :
    (in_flight start : ℕ) {g : Gate}
    → Reach (new_gate in_flight start) g
    → (g.limiter.slots ≤ g.limiter.capacity) × (g.limiter.capacity ≡ slot_count in_flight)
Reach-slots in_flight start begin = ground arith
Reach-slots in_flight start (then_step r s) =
    ground (arith, Step-slots (Reach-slots in_flight start r).0 s, Reach-slots in_flight start r)

-- In every interleaving of the steps of any number of requests, starting from a new limiter, the number
-- of probes let in is at most eight and one for each three seconds since the start, and never
-- more than four of them, or than the configured number if it is less, hold a slot at a time.
pub rate_bound :
    (in_flight start : ℕ) {g : Gate}
    → Reach (new_gate in_flight start) g
    → (probe_interval * g.granted ≤ probe_burst + (g.limiter.last - start))
      × (g.limiter.slots ≤ max_probe_slots)
      × (1 ≤ in_flight → g.limiter.slots ≤ in_flight)
rate_bound in_flight start r =
    let p = Reach-IsPaidFor in_flight start r in
    let q = Reach-slots in_flight start r in
    (omega (arith, p), ground (arith, q), ground (arith, q))

-- A request that is refused, when no other comes between its steps, costs nothing: the bucket holds what
-- the time since the last request makes of it. One that is let in costs one token and one slot.
pub acquire-cost :
    (now : ℕ) (l : ProbeLimiter)
    → ((acquire now l).1 ≡ false
        → ((acquire now l).0.tokens ≡ refilled now l) × ((acquire now l).0.slots ≡ l.slots))
      × ((acquire now l).1 ≡ true
          → ((acquire now l).0.tokens + probe_interval ≡ refilled now l)
            × ((acquire now l).0.slots ≡ suc l.slots)
            × ((acquire now l).0.slots ≤ l.capacity))
unfolding acquire take_token refund claim_slot
acquire-cost now l = (λ h. ground arith, λ h. ground arith)
