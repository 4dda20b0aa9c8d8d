-- ===== src/Prelude/Slices.antt =====
-- What taking, dropping and writing entries do to a list.
use Prim.Native.Nat.{ℕ, zero, suc, ◌+◌, ◌-◌, ◌≤◌, ◌<◌}
use mathlib.Core.Path.{◌≡◌, refl, sym, ap, ◌∙◌}
use mathlib.Core.List.{List, [], ◌∷◌, ◌++◌, append_assoc}
use native.Mathlib.Omega.{arith}
use native.Mathlib.Decide.{dec_le}
use aiofiles.Prelude.Lists.{length, take, drop, set, last_of, length-append}

module _ {A : Type 0} where
  pub drop-length : (l : List A) → drop (length l) l ≡ []
  drop-length [] = refl
  drop-length (x ∷ l) = drop-length l

  pub length-drop : (n : ℕ) (l : List A) → length (drop n l) ≡ length l - n
  length-drop zero l = omega arith
  length-drop (suc n) [] = omega arith
  length-drop (suc n) (x ∷ l) = omega (arith, length-drop n l)

  pub length-take : (n : ℕ) (l : List A) → n ≤ length l → length (take n l) ≡ n
  length-take zero l h = refl
  length-take (suc n) [] h = absurd (omega arith)
  length-take (suc n) (x ∷ l) h = ap suc (length-take n l (omega arith))

  pub length-set : (l : List A) (i : ℕ) (v : A) → length (set l i v) ≡ length l
  length-set [] i v = refl
  length-set (x ∷ l) zero v = refl
  length-set (x ∷ l) (suc i) v = ap suc (length-set l i v)

  pub take-set :
      (l : List A) (i : ℕ) (v : A) → i < length l → take (suc i) (set l i v) ≡ take i l ++ v ∷ []
  take-set [] i v h = absurd (omega arith)
  take-set (x ∷ l) zero v h = refl
  take-set (x ∷ l) (suc i) v h = ap (λ m. x ∷ m) (take-set l i v (omega arith))

  pub drop-set : (l : List A) (i : ℕ) (v : A) → drop (suc i) (set l i v) ≡ drop (suc i) l
  drop-set [] i v = refl
  drop-set (x ∷ l) zero v = refl
  drop-set (x ∷ l) (suc i) v = drop-set l i v

  pub take_all : (n : ℕ) (l : List A) → length l ≤ n → take n l ≡ l
  take_all zero [] h = refl
  take_all zero (x ∷ l) h = absurd (omega arith)
  take_all (suc n) [] h = refl
  take_all (suc n) (x ∷ l) h = ap (λ m. x ∷ m) (take_all n l (omega arith))

  pub drop_nil : (n : ℕ) → drop n (◌++◌ {A = A} [] []) ≡ []
  drop_nil zero = refl
  drop_nil (suc n) = refl

  pub drop-drop : (m n : ℕ) (l : List A) → drop m (drop n l) ≡ drop (n + m) l
  drop-drop m zero l = ap (λ k. drop k l) (omega arith)
  drop-drop m (suc n) [] = drop_nil m ∙ sym (drop_nil (suc n + m))
  drop-drop m (suc n) (x ∷ l) =
      drop-drop m n l ∙ ap (λ k. drop k (x ∷ l)) {x = suc (n + m)} (omega arith)

  pub drop-append_le : (n : ℕ) (l m : List A) → n ≤ length l → drop n (l ++ m) ≡ drop n l ++ m
  drop-append_le zero l m h = refl
  drop-append_le (suc n) [] m h = absurd (omega arith)
  drop-append_le (suc n) (x ∷ l) m h = drop-append_le n l m (omega arith)

  pub last_of_short : (n : ℕ) (l : List A) → length l ≤ n → last_of n l ≡ l
  last_of_short n l h = ap (λ k. drop k l) {y = 0} (omega arith)

  -- Forgetting early what would be forgotten anyway.
  pub last_of-append : (n : ℕ) (l m : List A) → last_of n (last_of n l ++ m) ≡ last_of n (l ++ m)
  last_of-append n l m = elim (dec_le (length l) n) [
    | yes h ↦ ap (λ x. last_of n (x ++ m)) (last_of_short n l h)
    | no h ↦
        let k = length l - n in
        ap (λ j. drop j (drop k l ++ m))
          (omega (arith, length-append (drop k l) m, length-drop k l))
        ∙ ap (drop (length m)) (sym (drop-append_le k l m (omega arith)))
        ∙ drop-drop (length m) k (l ++ m)
        ∙ ap (λ j. drop j (l ++ m)) {x = k + length m} (omega (arith, length-append l m))
  ]

  -- The full window moves on by one.
  pub last_of-rotate :
      (n : ℕ) (l : List A) (v : A)
      → n < length l
      → last_of (length l) ((drop n l ++ take n l) ++ v ∷ [])
        ≡ drop (suc n) l ++ (take n l ++ v ∷ [])
  last_of-rotate n l v h =
      ap (λ k. drop k ((drop n l ++ take n l) ++ v ∷ [])) {y = 1}
        (omega (
          arith,
          length-append (drop n l ++ take n l) (v ∷ []),
          length-append (drop n l) (take n l),
          length-drop n l,
          length-take n l (omega arith),
        ))
      ∙ ap (drop 1) (append_assoc (drop n l) (take n l) (v ∷ []))
      ∙ drop-append_le 1 (drop n l) (take n l ++ v ∷ []) (omega (arith, length-drop n l))
      ∙ ap (λ m. m ++ (take n l ++ v ∷ []))
          (drop-drop 1 n l ∙ ap (λ k. drop k l) {x = n + 1} {y = suc n} (omega arith))
