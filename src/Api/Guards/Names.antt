-- ===== src/Api/Guards/Names.antt =====
-- Which names the patterns of ALLOWED_HOSTS admit.
use aiofiles.Prelude.{ℕ, ◌<◌, true, ◌≡◌, ◌↔◌, ap, List, [], ◌∷◌, ◌++◌, length, length-append, arith}
use aiofiles.Prelude.Bytes.{has_suffix-split, has_suffix-append}
use aiofiles.Api.Guards.{matches_host}

nonempty_front :
    (suffix host : List ℕ)
    → length suffix < length host
    → (front : List ℕ) × (host ≡ front ++ suffix)
    → (c : ℕ) × (front : List ℕ) × (host ≡ (c ∷ front) ++ suffix)
nonempty_front suffix host h ([], e) = ground (arith, ap length e)
nonempty_front suffix host h (c ∷ front, e) = (c, front, e)

-- A pattern `*.d` admits exactly the names that end in `.d` with something in front of it: the
-- subdomains at any depth, and not the domain itself.
pub matches_host-subdomain :
    (d host : List ℕ)
    → (matches_host (b'*' ∷ b'.' ∷ d) host ≡ true)
      ↔ ((c : ℕ) × (front : List ℕ) × (host ≡ (c ∷ front) ++ (b'.' ∷ d)))
unfolding matches_host
matches_host-subdomain d host = (
  λ h.
      nonempty_front (b'.' ∷ d) host (ground (arith, h))
        (has_suffix-split host (b'.' ∷ d) (ground (arith, h))),
  λ (c, front, e).
      rw e
        (ground (arith, has_suffix-append (c ∷ front) (b'.' ∷ d), length-append front (b'.' ∷ d))),
)
