-- ===== src/Prelude/Cleaned.antt =====
-- `filepath.Abs` and `filepath.Rel` on Unix, by the elements of the paths.
use mathlib.Core.Path.{◌≡◌, refl, sym, ap, subst, ◌∙◌}
use mathlib.Core.Logic.{inl, inr}
use mathlib.Core.Bool.{Bool, false}
use mathlib.Core.Option.{Option, none, some}
use mathlib.Core.List.{List, [], ◌∷◌, ◌++◌}
use aiofiles.Prelude.Tests.{◌==◌, if◌then◌else◌, Bool-cases}
use aiofiles.Prelude.Lists.{All}
use aiofiles.Prelude.Results.{some_injective}
use aiofiles.Prelude.Texts.{codes}
use aiofiles.Prelude.Bytes.{Bytes, same_codes, same_codes-eq}
use aiofiles.Prelude.Split.{split_at, join_by, Without, split_at-Without}

abbrev pub dots : Bytes
dots = codes ".."

-- The elements without the last one; above the root is the root.
abbrev pub but_last : List Bytes → List Bytes
but_last [] = []
but_last (l ∷ []) = []
but_last (l ∷ m ∷ ls) = l ∷ but_last (m ∷ ls)

-- `filepath.Clean` of a path from the root: empty elements and dots go, and two dots take the element in front.
unfoldable pub clean_from : List Bytes → List Bytes → List Bytes
clean_from done [] = done
clean_from done (l ∷ ls) =
    if same_codes l []
    then clean_from done ls
    else if same_codes l (codes ".")
    then clean_from done ls
    else if same_codes l dots
    then clean_from (but_last done) ls
    else clean_from (done ++ l ∷ []) ls

abbrev pub is_absolute : Bytes → Bool
is_absolute [] = false
is_absolute (c ∷ s) = c == b'/'

-- `filepath.Abs`, which fails on a relative path if there is no working directory.
unfoldable pub abs_in : Bytes → Option Bytes → Option (List Bytes)
unfolding clean_from split_at
abs_in p none = none
abs_in p (some cwd) = some (clean_from [] (split_at b'/' (cwd ++ b'/' ∷ p)))

unfoldable pub abs_path : Option Bytes → Bytes → Option (List Bytes)
unfolding clean_from split_at abs_in
abs_path cwd p = if is_absolute p then some (clean_from [] (split_at b'/' p)) else abs_in p cwd

abbrev pub ups : List Bytes → List Bytes
ups [] = []
ups (l ∷ ls) = dots ∷ ups ls

-- The elements of `filepath.Rel` of two cleaned paths.
unfoldable pub rel_elements : List Bytes → List Bytes → List Bytes
rel_elements [] target = target
rel_elements (l ∷ base) [] = ups (l ∷ base)
rel_elements (l ∷ base) (m ∷ target) =
    let rest = rel_elements base target in
    if same_codes l m then rest else ups (l ∷ base) ++ (m ∷ target)

abbrev pub or_dot : List Bytes → Bytes
or_dot [] = codes "."
or_dot (l ∷ ls) = join_by b'/' (l ∷ ls)

unfoldable pub rel_path : List Bytes → List Bytes → Bytes
unfolding rel_elements
rel_path base target = or_dot (rel_elements base target)

abbrev pub starts_up : List Bytes → Bool
starts_up [] = false
starts_up (l ∷ ls) = same_codes l dots

-- A way between two paths that does not begin by going up is the rest of the second behind the first.
pub rel_elements-below :
    (base target : List Bytes)
    → starts_up (rel_elements base target) ≡ false
    → target ≡ base ++ rel_elements base target
unfolding rel_elements
rel_elements-below [] target h = refl
rel_elements-below (l ∷ base) [] h = cc
rel_elements-below (l ∷ base) (m ∷ target) h = elim (Bool-cases (same_codes l m)) [
  | inl e ↦ rw e (
      ap (λ x. x ∷ target) (sym (same_codes-eq l m e))
      ∙ ap (λ x. l ∷ x) (rel_elements-below base target (rw (e, rel_elements) at h)))
  | inr e ↦ cc (rw (e, rel_elements) at h)
]

but_last-Without : (ls : List Bytes) → All (Without b'/') ls → All (Without b'/') (but_last ls)
but_last-Without [] h = tt
but_last-Without (l ∷ []) h = tt
but_last-Without (l ∷ m ∷ ls) (h, hs) = (h, but_last-Without (m ∷ ls) hs)

add_last-Without :
    (ls : List Bytes) (l : Bytes)
    → All (Without b'/') ls
    → Without b'/' l
    → All (Without b'/') (ls ++ l ∷ [])
add_last-Without [] l h k = (k, tt)
add_last-Without (m ∷ ls) l (h, hs) k = (h, add_last-Without ls l hs k)

clean_from-Without :
    (done ls : List Bytes)
    → All (Without b'/') done
    → All (Without b'/') ls
    → All (Without b'/') (clean_from done ls)
unfolding clean_from
clean_from-Without done [] h k = h
clean_from-Without done (l ∷ ls) h (k, ks) = elim (Bool-cases (same_codes l [])) [
  | inl a ↦ rw (a, clean_from) (clean_from-Without done ls h ks)
  | inr a ↦ elim (Bool-cases (same_codes l (codes "."))) [
    | inl b ↦ rw (a, b, clean_from) (clean_from-Without done ls h ks)
    | inr b ↦ elim (Bool-cases (same_codes l dots)) [
      | inl c ↦
          rw (a, b, c, clean_from)
            (clean_from-Without (but_last done) ls (but_last-Without done h) ks)
      | inr c ↦
          rw (a, b, c, clean_from)
            (clean_from-Without (done ++ l ∷ []) ls (add_last-Without done l h k) ks)
    ]
  ]
]

-- The elements of a path have no slash.
pub abs_path-Without :
    (cwd : Option Bytes) (p : Bytes) {ls : List Bytes}
    → abs_path cwd p ≡ some ls
    → All (Without b'/') ls
unfolding abs_path abs_in
abs_path-Without cwd p {ls} h = elim (Bool-cases (is_absolute p)) [
  | inl e ↦ cleaned p (some_injective (sym (rw e refl) ∙ h))
  | inr e ↦ from cwd (sym (rw e refl) ∙ h)
]
  where
    cleaned : (s : Bytes) → clean_from [] (split_at b'/' s) ≡ ls → All (Without b'/') ls
    cleaned s k =
        subst (All (Without b'/')) k
          (clean_from-Without [] (split_at b'/' s) tt (split_at-Without b'/' s))

    from : (o : Option Bytes) → abs_in p o ≡ some ls → All (Without b'/') ls
    from none k = cc
    from (some d) k = cleaned (d ++ b'/' ∷ p) (some_injective k)
