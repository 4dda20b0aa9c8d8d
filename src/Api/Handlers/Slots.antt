-- ===== src/Api/Handlers/Slots.antt =====
-- What a lookup costs.
use aiofiles.Prelude.{
  ℕ, suc, Bool, true, false, ◌≡◌, refl, ap, Option, none, some, ok, err, arith, if◌then◌else◌,
}
use aiofiles.Prelude.Bytes.{Bytes}
use aiofiles.Presets.Checks.{ValidationError, Checked}
use aiofiles.Presets.Source.{Lookup, validate_source_url}
use aiofiles.Api.ProbeLimit.{ProbeLimiter, acquire, release, take_token, refund, claim_slot}
use aiofiles.Api.Handlers.{invalid_params, Probed, probe_in_slot, probe_checked, handle_probe}

acquire-slots :
    (now : ℕ) (l : ProbeLimiter)
    → ((acquire now l).0).slots ≡ (if (acquire now l).1 then suc l.slots else l.slots)
unfolding acquire take_token claim_slot refund
acquire-slots now l = ground arith

module _ {A : Type 0} where
  in_slot-slots :
      (p : Probed A) (n : ℕ) (r : ProbeLimiter × Bool)
      → (r.0).slots ≡ (if r.1 then suc n else n)
      → ((probe_in_slot p r).0).slots ≡ n
  unfolding probe_in_slot release
  in_slot-slots p n (l, true) h = omega (arith, h)
  in_slot-slots p n (l, false) h = h

  -- However a lookup ends, it leaves as many slots as it found; one of an address that is refused leaves the tokens,
  -- too.
  pub handle_probe-slots :
      (net : Lookup) (now : ℕ) (prober : Option (Bytes → Probed A)) (url : Bytes) (l : ProbeLimiter)
      → (((handle_probe net now prober url l).0).slots ≡ l.slots)
        × ((e : ValidationError)
            → validate_source_url net url ≡ err e
            → handle_probe net now prober url l ≡ (l, err (invalid_params e)))
  unfolding handle_probe probe_checked
  handle_probe-slots net now prober url l =
      (slots prober (validate_source_url net url), λ e h. ap (probe_checked now prober l) h)
    where
      slots :
          (o : Option (Bytes → Probed A)) (c : Checked Bytes)
          → ((probe_checked now o l c).0).slots ≡ l.slots
      slots o (err e) = refl
      slots none (ok u) = refl
      slots (some probe) (ok u) =
          in_slot-slots (probe u) l.slots (acquire now l) (acquire-slots now l)
