-- ===== src/Prelude/Dict.antt =====
-- A Go map with text keys, as a list of its entries.
use Prim.Native.Nat.{◌+◌, ◌≤◌}
use Prim.Native.String.{String}
use mathlib.Core.Path.{◌≡◌, refl}
use mathlib.Core.Logic.{ite}
use mathlib.Core.Bool.{Bool, true}
use mathlib.Core.Option.{Option, none, some}
use mathlib.Core.List.{List, [], ◌∷◌}
use native.Mathlib.Omega.{arith}
use aiofiles.Prelude.Tests.{if◌then◌else◌}
use aiofiles.Prelude.Lists.{length}
use aiofiles.Prelude.Texts.{str_dec}

module _ {ℓ} {V : Type ℓ} where
  unfoldable pub lookup : String → List (String × V) → Option V
  lookup k [] = none
  lookup k ((j, v) ∷ m) = ite (str_dec j k) (some v) (lookup k m)

  unfoldable pub put : String → V → List (String × V) → List (String × V)
  put k v [] = (k, v) ∷ []
  put k v ((j, w) ∷ m) = ite (str_dec j k) ((j, v) ∷ m) ((j, w) ∷ put k v m)

  unfoldable pub drop_key : String → List (String × V) → List (String × V)
  drop_key k [] = []
  drop_key k ((j, v) ∷ m) = ite (str_dec j k) (drop_key k m) ((j, v) ∷ drop_key k m)

  -- Keeps the entries whose value passes a test.
  unfoldable pub keep_values : (V → Bool) → List (String × V) → List (String × V)
  keep_values p [] = []
  keep_values p ((j, v) ∷ m) = if p v then (j, v) ∷ keep_values p m else keep_values p m

  pub lookup-put :
      (k j : String) (v : V) (m : List (String × V))
      → lookup j (put k v m) ≡ ite (str_dec k j) (some v) (lookup j m)
  unfolding lookup put
  lookup-put k j v [] = refl
  lookup-put k j v ((i, w) ∷ m) = ground (arith, lookup-put k j v m)

  pub lookup-drop_key :
      (k j : String) (m : List (String × V))
      → lookup j (drop_key k m) ≡ ite (str_dec k j) none (lookup j m)
  unfolding lookup drop_key
  lookup-drop_key k j [] = ground arith
  lookup-drop_key k j ((i, w) ∷ m) = ground (arith, lookup-drop_key k j m)

  pub length-put-le :
      (k : String) (v : V) (m : List (String × V)) → length (put k v m) ≤ length m + 1
  unfolding put
  length-put-le k v [] = omega arith
  length-put-le k v ((i, w) ∷ m) = ground (arith, length-put-le k v m)

  pub length-put_found :
      (k : String) (v w : V) (m : List (String × V))
      → lookup k m ≡ some w
      → length (put k v m) ≡ length m
  unfolding lookup put
  length-put_found k v w [] h = cc
  length-put_found k v w ((i, u) ∷ m) h = ground (arith, length-put_found k v w m)

  pub length-drop_key-le : (k : String) (m : List (String × V)) → length (drop_key k m) ≤ length m
  unfolding drop_key
  length-drop_key-le k [] = omega arith
  length-drop_key-le k ((i, u) ∷ m) = ground (arith, length-drop_key-le k m)

  pub length-keep_values-le :
      (p : V → Bool) (m : List (String × V)) → length (keep_values p m) ≤ length m
  unfolding keep_values
  length-keep_values-le p [] = omega arith
  length-keep_values-le p ((i, u) ∷ m) = ground (arith, length-keep_values-le p m)

  -- A value that is found among those kept passes the test.
  pub lookup-keep_values :
      (p : V → Bool) (k : String) (m : List (String × V)) {v : V}
      → lookup k (keep_values p m) ≡ some v
      → p v ≡ true
  unfolding lookup keep_values
  lookup-keep_values p k [] h = cc
  lookup-keep_values p k ((i, u) ∷ m) {v} h = ground (arith, lookup-keep_values p k m {v = v})

  -- A value that passes the test is still found.
  pub lookup-keep_values_kept :
      (p : V → Bool) (k : String) (m : List (String × V)) {v : V}
      → lookup k m ≡ some v
      → p v ≡ true
      → lookup k (keep_values p m) ≡ some v
  unfolding lookup keep_values
  lookup-keep_values_kept p k [] h q = h
  lookup-keep_values_kept p k ((i, u) ∷ m) {v} h q =
      ground (arith, lookup-keep_values_kept p k m {v = v})
