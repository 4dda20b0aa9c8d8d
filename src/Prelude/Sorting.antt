-- ===== src/Prelude/Sorting.antt =====
-- `sort.SliceStable` of Go's standard library, and that it sorts by any test that is a strict weak order.
use mathlib.Core.Path.{◌≡◌, refl, sym, ap, ◌∙◌}
use mathlib.Core.Logic.{◌⊎◌, inl, inr}
use mathlib.Core.Bool.{Bool, true, false, not, ◌&&◌}
use mathlib.Core.List.{List, [], ◌∷◌, Perm}
use mathlib.Core.List.Perm
use native.Mathlib.Omega.{arith}
use aiofiles.Prelude.Tests.{if◌then◌else◌, Bool-cases}
use aiofiles.Prelude.Lists.{keep, All}

module _ {A : Type 0} (before : A → A → Bool) where
  -- An element goes in front of those behind it, unless they must stand before it.
  unfoldable pub insert_by : A → List A → List A
  insert_by x [] = x ∷ []
  insert_by x (y ∷ l) = let rest = insert_by x l in if before y x then y ∷ rest else x ∷ y ∷ l

  unfoldable pub stable_sort : List A → List A
  unfolding insert_by
  stable_sort [] = []
  stable_sort (x ∷ l) = insert_by x (stable_sort l)

  -- Nothing stands in front of what must stand before it.
  abbrev pub IsOrdered : List A → Type 0
  IsOrdered [] = Unit
  IsOrdered (x ∷ l) = All (λ y. before y x ≡ false) l × IsOrdered l

  abbrev pub tied : A → A → Bool
  tied x y = not (before x y) && not (before y x)

  abbrev pub IsStableSort : List A → List A → Type 0
  IsStableSort l m = Perm m l × IsOrdered m × ((x : A) → keep (tied x) m ≡ keep (tied x) l)

  insert_by-perm : (x : A) (l : List A) → Perm (insert_by x l) (x ∷ l)
  unfolding insert_by
  insert_by-perm x [] = Perm.rfl
  insert_by-perm x (y ∷ l) = elim (Bool-cases (before y x)) [
    | inl e ↦ rw (e, insert_by) (Perm.trans (Perm.cons y (insert_by-perm x l)) (Perm.swap x y l))
    | inr e ↦ rw (e, insert_by) Perm.rfl
  ]

  insert_by-All : (P : A → Type 0) (x : A) (l : List A) → P x → All P l → All P (insert_by x l)
  unfolding insert_by
  insert_by-All P x [] p h = (p, tt)
  insert_by-All P x (y ∷ l) p (q, h) = elim (Bool-cases (before y x)) [
    | inl e ↦ rw (e, insert_by) (q, insert_by-All P x l p h)
    | inr e ↦ rw (e, insert_by) (p, (q, h))
  ]

  module _ (asym : (x y : A) → before x y ≡ true → before y x ≡ false)
      (split : (x y z : A) → before x z ≡ true → (before x y ≡ true) ⊎ (before y z ≡ true)) where
    behind :
        (x y : A) (l : List A)
        → before y x ≡ false
        → All (λ z. before z y ≡ false) l
        → All (λ z. before z x ≡ false) l
    behind x y [] e h = tt
    behind x y (z ∷ l) e (f, h) = (
      elim (Bool-cases (before z x)) [
        | inl g ↦ elim (split z y x g) [ inl k ↦ cc | inr k ↦ cc ]
        | inr g ↦ g
      ],
      behind x y l e h,
    )

    insert_by-IsOrdered : (x : A) (l : List A) → IsOrdered l → IsOrdered (insert_by x l)
    unfolding insert_by
    insert_by-IsOrdered x [] h = (tt, tt)
    insert_by-IsOrdered x (y ∷ l) (b, h) = elim (Bool-cases (before y x)) [
      | inl e ↦
          rw (e, insert_by)
            (insert_by-All (λ z. before z y ≡ false) x l (asym y x e) b, insert_by-IsOrdered x l h)
      | inr e ↦ rw (e, insert_by) ((e, behind x y l e b), (b, h))
    ]

    tied-apart : (a x y : A) → tied a x ≡ true → tied a y ≡ true → before y x ≡ false
    tied-apart a x y h k = elim (Bool-cases (before y x)) [
      | inl e ↦ elim (split y a x e) [ inl f ↦ ground arith | inr f ↦ ground arith ]
      | inr e ↦ e
    ]

    keep-insert_by : (a x : A) (l : List A) → keep (tied a) (insert_by x l) ≡ keep (tied a) (x ∷ l)
    unfolding insert_by
    keep-insert_by a x [] = refl
    keep-insert_by a x (y ∷ l) = elim (Bool-cases (before y x)) [
      | inl e ↦
          rw (e, insert_by)
            (elim (Bool-cases (tied a y)) [
              | inl f ↦ elim (Bool-cases (tied a x)) [
                | inl g ↦ cc (sym e ∙ tied-apart a x y g f)
                | inr g ↦ rw (f, keep-insert_by a x l, g) refl
              ]
              | inr f ↦ rw (f, keep-insert_by a x l) refl
            ])
      | inr e ↦ rw (e, insert_by) refl
    ]

    keep-stable_sort : (a : A) (l : List A) → keep (tied a) (stable_sort l) ≡ keep (tied a) l
    unfolding stable_sort
    keep-stable_sort a [] = refl
    keep-stable_sort a (x ∷ l) =
        keep-insert_by a x (stable_sort l)
        ∙ ap (λ m. if tied a x then x ∷ m else m) (keep-stable_sort a l)

    stable_sort-perm : (l : List A) → Perm (stable_sort l) l
    unfolding stable_sort
    stable_sort-perm [] = Perm.rfl
    stable_sort-perm (x ∷ l) =
        Perm.trans (insert_by-perm x (stable_sort l)) (Perm.cons x (stable_sort-perm l))

    stable_sort-IsOrdered : (l : List A) → IsOrdered (stable_sort l)
    unfolding stable_sort
    stable_sort-IsOrdered [] = tt
    stable_sort-IsOrdered (x ∷ l) = insert_by-IsOrdered x (stable_sort l) (stable_sort-IsOrdered l)

    -- A test that is a strict weak order sorts, and what it does not tell apart stays in its order.
    pub stable_sort-IsStableSort : (l : List A) → IsStableSort l (stable_sort l)
    stable_sort-IsStableSort l =
        (stable_sort-perm l, stable_sort-IsOrdered l, λ a. keep-stable_sort a l)
