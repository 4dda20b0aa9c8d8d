-- ===== src/Api/Routes/Protected.antt =====
-- That no request gets around the guards and the session.
use aiofiles.Prelude.{
  ℕ, String, Bool, true, false, not, ◌&&◌, ◌≡◌, refl, ◌⊎◌, inl, inr, List, [], ◌∷◌, map, str_eq,
  Option, none, some, Bool-cases,
}
use mathlib.Core.Path.{subst}
use aiofiles.Prelude.Bytes.{Bytes}
use aiofiles.Prelude.Split.{split_at}
use aiofiles.Proxy.{Net, Request}
use aiofiles.Auth.Manager.{Manager, authenticated}
use aiofiles.Api.Guards.{Verdict, passes, rejected, host_guard, origin_guard}
use aiofiles.Api.Routes.{
  Handler, health, login, logout, me, is_open, route, Outcome, handled, checked, is, below_root,
  from_slash, mux, is_clean, behind_guards, Front, dispatch, serve,
}

-- The handler is one of the four that need no session, or the session is live.
abbrev pub LetIn : Bool → Handler → Type 0
LetIn let_in h = (h ≡ health) ⊎ ((h ≡ login) ⊎ ((h ≡ logout) ⊎ ((h ≡ me) ⊎ (let_in ≡ true))))

open-LetIn : (b : Bool) (h : Handler) → is_open h ≡ true → LetIn b h
unfolding is_open
open-LetIn b health e = inl refl
open-LetIn b login e = inr (inl refl)
open-LetIn b logout e = inr (inr (inl refl))
open-LetIn b me e = inr (inr (inr (inl refl)))
open-LetIn b _ e = absurd cc

handled_injective : (g h : Handler) → handled g ≡ handled h → g ≡ h
handled_injective g h k = cc

checked-LetIn : (b : Bool) (o : Option Handler) (h : Handler) → checked b o ≡ handled h → LetIn b h
checked-LetIn true o h k = inr (inr (inr (inr refl)))
checked-LetIn false none h k = absurd cc
checked-LetIn false (some g) h k = elim (Bool-cases (is_open g)) [
  | inl e ↦ open-LetIn false h (subst (λ x. is_open x ≡ true) (handled_injective g h (rw e at k)) e)
  | inr e ↦ absurd (cc (rw e at k))
]

below_root-LetIn :
    (m : String) (b : Bool) (ls : List Bytes) (h : Handler)
    → below_root m b ls ≡ handled h
    → LetIn b h
unfolding below_root
below_root-LetIn m b [] h k = absurd cc
below_root-LetIn m b (a ∷ []) h k = elim (Bool-cases (is "api" a)) [
  | inl e ↦ absurd (cc (rw e at k))
  | inr e ↦ absurd (cc (rw e at k))
]
below_root-LetIn m b (a ∷ c ∷ ls) h k = elim (Bool-cases (is "api" a)) [
  | inl e ↦ checked-LetIn b (route m (c ∷ ls)) h (rw e at k)
  | inr e ↦ absurd (cc (rw e at k))
]

from_slash-LetIn :
    (unescape : Bytes → Bytes) (m : String) (b : Bool) (ls : List Bytes) (h : Handler)
    → from_slash unescape m b ls ≡ handled h
    → LetIn b h
unfolding from_slash
from_slash-LetIn unescape m b [] h k = absurd cc
from_slash-LetIn unescape m b (s ∷ ls) h k = elim (Bool-cases (is "" s)) [
  | inr e ↦ absurd (cc (rw e at k))
  | inl e ↦ elim (Bool-cases (not (str_eq m "CONNECT") && not (is_clean ls))) [
    | inl f ↦ absurd (cc (rw (e, f) at k))
    | inr f ↦ below_root-LetIn m b (map unescape ls) h (rw (e, f) at k)
  ]
]

behind-passes :
    (v w : Verdict) (o : Outcome) (h : Handler)
    → behind_guards v w o ≡ handled h
    → (v ≡ passes) × (w ≡ passes) × (o ≡ handled h)
behind-passes rejected w o h k = absurd cc
behind-passes passes rejected o h k = absurd cc
behind-passes passes passes o h k = (refl, refl, k)

module _ {Addr Prefix : Type 0} (net : Net Addr Prefix) (prefixes : List Prefix) where
  -- A handler gets a request only if both guards let it pass, and any but those of the health, the login, the logout
  -- and the own name only if the session is live or no login is set up.
  pub serve-LetIn :
      (f : Front net prefixes) (up : Bool) (now : ℕ) (token : String) (m : Manager) (r : Request)
      (escaped : Bytes) {h : Handler}
      → serve net prefixes f up now token m r escaped ≡ handled h
      → (host_guard net prefixes f.rules r ≡ passes)
        × (origin_guard net prefixes f.parse_url r ≡ passes)
        × LetIn (authenticated up now token m).1 h
  unfolding serve dispatch mux
  serve-LetIn f up now token m r escaped {h} k =
      let (a, b, c) =
        behind-passes (host_guard net prefixes f.rules r) (origin_guard net prefixes f.parse_url r)
          _ h k in
      (a, b, from_slash-LetIn f.unescape r.method _ (split_at b'/' escaped) h c)
