-- ===== src/Proxy/Chain.antt =====
-- What a client can and cannot do to the address it is counted under.
use aiofiles.Prelude.{
  String, true, ◌≡◌, refl, ap, sym, ◌∙◌, some, List, [], ◌∷◌, ◌++◌, arith, Option-cases, inl, inr,
}
use aiofiles.Proxy.{
  Net, Request, forwarded_hops, keep_hops, split_commas, backwards, trusted, walk, client_ip,
  peer_ip,
}

append_assoc : {A : Type 0} (a b c : List A) → (a ++ b) ++ c ≡ a ++ (b ++ c)
append_assoc [] b c = refl
append_assoc (x ∷ a) b c = ap (λ l. x ∷ l) (append_assoc a b c)

append_nil : {A : Type 0} (a : List A) → a ++ [] ≡ a
append_nil [] = refl
append_nil (x ∷ a) = ap (λ l. x ∷ l) (append_nil a)

hops-append :
    (fs vs : List String) → forwarded_hops (fs ++ vs) ≡ forwarded_hops fs ++ forwarded_hops vs
unfolding forwarded_hops
hops-append [] vs = refl
hops-append (f ∷ fs) vs =
    ap (λ l. keep_hops (split_commas f) ++ l) (hops-append fs vs)
    ∙ sym (append_assoc (keep_hops (split_commas f)) (forwarded_hops fs) (forwarded_hops vs))

backwards-append : (a b : List String) → backwards (a ++ b) ≡ backwards b ++ backwards a
unfolding backwards
backwards-append [] b = sym (append_nil (backwards b))
backwards-append (x ∷ a) b =
    ap (λ l. l ++ x ∷ []) (backwards-append a b) ∙ append_assoc (backwards b) (backwards a) (x ∷ [])

module _ {Addr Prefix : Type 0} (net : Net Addr Prefix) (prefixes : List Prefix) where
  walk-append :
      (l m : List String) {ip : String}
      → walk net prefixes l ≡ some ip
      → walk net prefixes (l ++ m) ≡ some ip
  unfolding walk
  walk-append [] m h = cc
  walk-append (hop ∷ l) m {ip} h = elim (Option-cases (net.parse_addr hop)) [
    | inl e ↦ ground (arith, walk-append l m {ip = ip})
    | inr (a, e) ↦ ground (arith, walk-append l m {ip = ip})
  ]

  -- Forged values in front of the ones that the trusted peer sent on change nothing: if those already name a
  -- hop that is not one of our proxies, then the client's address is the last such hop, whatever values of
  -- X-Forwarded-For stand before them and whatever X-Real-IP says.
  pub client_ip-forged :
      (r : Request) (forged : List String) (real : String) {ip : String}
      → trusted net prefixes (peer_ip net r) ≡ true
      → walk net prefixes (backwards (forwarded_hops r.forwarded_for)) ≡ some ip
      → client_ip net prefixes
          (record r { forwarded_for = forged ++ r.forwarded_for; real_ip = real })
        ≡ ip
  unfolding client_ip peer_ip
  client_ip-forged r forged real {ip} t h =
      let seen =
        ap (walk net prefixes) (
          ap backwards (hops-append forged r.forwarded_for)
          ∙ backwards-append (forwarded_hops forged) (forwarded_hops r.forwarded_for))
        ∙ walk-append (backwards (forwarded_hops r.forwarded_for))
            (backwards (forwarded_hops forged)) h in
      rw (t, seen, client_ip) refl
