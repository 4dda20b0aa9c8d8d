-- ===== src/Runner/YtDlp/Formats/Order.antt =====
-- That the offered streams are sorted, none lost and none doubled.
use aiofiles.Prelude.{
  Bool, true, false, ◌&&◌, if◌then◌else◌, ◌≡◌, refl, sym, ◌∙◌, ◌⊎◌, inl, inr, List, [], ◌∷◌, All,
  arith, Bool-cases, not,
}
use aiofiles.Prelude.Int.{ℤ, pos, negsuc, ltb_ℤ, eq_ℤ}
use aiofiles.Prelude.Sorting.{IsOrdered, IsStableSort, stable_sort-IsStableSort}
use aiofiles.Runner.YtDlp.Formats.{
  RawFormat, Numbers, is_codec, format_height, goes_before, sort_raw_formats,
}

-- The order of floating-point numbers other than NaN.
pub record IsLinear {F : Type 0} (num : Numbers F) : Type 0 where
  pub asym : (a b : F) → num.above a b ≡ true → num.above b a ≡ false
  pub split : (a b c : F) → num.above a c ≡ true → (num.above a b ≡ true) ⊎ (num.above b c ≡ true)

-- What may stand in front of what, among the shown streams: one with video in front of one without; of two with video the
-- taller in front of the other; and with nothing to choose between these, none of a lesser bitrate in front of
-- one of a greater.
abbrev pub MayPrecede : {F : Type 0} → Numbers F → RawFormat F → RawFormat F → Type 0
unfolding is_codec format_height
MayPrecede num f g =
    ((is_codec f.vcodec ≡ true) × (is_codec g.vcodec ≡ false))
    ⊎ (((is_codec f.vcodec ≡ true)
          × (is_codec g.vcodec ≡ true)
          × (ltb_ℤ (format_height g) (format_height f) ≡ true))
        ⊎ ((is_codec f.vcodec ≡ is_codec g.vcodec)
            × ((is_codec f.vcodec ≡ false) ⊎ (format_height f ≡ format_height g))
            × (num.above g.tbr f.tbr ≡ false)))

abbrev pub InOrder : {F : Type 0} → Numbers F → List (RawFormat F) → Type 0
InOrder num [] = Unit
InOrder num (f ∷ l) = All (MayPrecede num f) l × InOrder num l

-- Two numbers are equal, or one is below the other.
trichotomy : (a b : ℤ) → ltb_ℤ b a ≡ false → (a ≡ b) ⊎ (ltb_ℤ a b ≡ true)
trichotomy (pos m) (pos n) h = ground arith
trichotomy (pos m) (negsuc n) h = ground arith
trichotomy (negsuc m) (pos n) h = ground arith
trichotomy (negsuc m) (negsuc n) h = ground arith

eq_ℤ-below : (a b : ℤ) → ltb_ℤ b a ≡ true → eq_ℤ a b ≡ false
eq_ℤ-below (pos m) (pos n) h = ground arith
eq_ℤ-below (pos m) (negsuc n) h = ground arith
eq_ℤ-below (negsuc m) (pos n) h = ground arith
eq_ℤ-below (negsuc m) (negsuc n) h = ground arith

eq_ℤ-refl : (a : ℤ) → eq_ℤ a a ≡ true
eq_ℤ-refl (pos m) = ground arith
eq_ℤ-refl (negsuc m) = ground arith

-- The test on what it reads: the codecs, the heights, and how the bitrates compare.
precede : Bool → Bool → ℤ → ℤ → Bool → Bool
precede u v h i a =
    if not (if u then v else not v) then u else if u && not (eq_ℤ h i) then ltb_ℤ i h else a

tall-order :
    (h i : ℤ) (a : Bool)
    → precede true true h i a ≡ false
    → (ltb_ℤ h i ≡ true) ⊎ ((i ≡ h) × (a ≡ false))
unfolding precede
tall-order h i a k = elim (Bool-cases (ltb_ℤ h i)) [
  | inl c ↦ inl c
  | inr c ↦ elim (trichotomy i h c) [
    | inl d ↦ inr (d, rw (d, eq_ℤ-refl h) at k)
    | inr d ↦ absurd (cc (sym d ∙ (rw (eq_ℤ-below h i d) at k)))
  ]
]

-- What the test says of two streams of which the second does not go before.
precede-order :
    (u v : Bool) (h i : ℤ) (a : Bool)
    → precede u v h i a ≡ false
    → ((v ≡ true) × (u ≡ false))
      ⊎ (((v ≡ true) × (u ≡ true) × (ltb_ℤ h i ≡ true))
          ⊎ ((v ≡ u) × ((v ≡ false) ⊎ (i ≡ h)) × (a ≡ false)))
unfolding precede
precede-order true true h i a k = elim (tall-order h i a k) [
  | inl c ↦ inr (inl (refl, refl, c))
  | inr (d, c) ↦ inr (inr (refl, inr d, c))
]
precede-order false true h i a k = inl (refl, refl)
precede-order true false h i a k = absurd cc
precede-order false false h i a k = inr (inr (refl, inl refl, k))

tall-split :
    (h i j : ℤ) (a b c : Bool)
    → (a ≡ true → (b ≡ true) ⊎ (c ≡ true))
    → precede true true h j a ≡ true
    → (precede true true h i b ≡ true) ⊎ (precede true true i j c ≡ true)
unfolding precede
tall-split h i j a b c k p = elim (Bool-cases a) [
  | inl e ↦ elim (k e) [ inl f ↦ ground arith | inr f ↦ ground arith ]
  | inr e ↦ ground arith
]

precede-split :
    (u v w : Bool) (h i j : ℤ) (a b c : Bool)
    → (a ≡ true → (b ≡ true) ⊎ (c ≡ true))
    → precede u w h j a ≡ true
    → (precede u v h i b ≡ true) ⊎ (precede v w i j c ≡ true)
unfolding precede
precede-split true true true h i j a b c k p = tall-split h i j a b c k p
precede-split true true false h i j a b c k p = inr refl
precede-split true false w h i j a b c k p = inl refl
precede-split false v true h i j a b c k p = cc
precede-split false true false h i j a b c k p = inr refl
precede-split false false false h i j a b c k p = k p

module _ {F : Type 0} (num : Numbers F) (lin : IsLinear num) where
  goes_before-asym : (f g : RawFormat F) → goes_before num f g ≡ true → goes_before num g f ≡ false
  unfolding goes_before
  goes_before-asym f g h = ground (arith, lin.asym f.tbr g.tbr)

  goes_before-split :
      (f g k : RawFormat F)
      → goes_before num f k ≡ true
      → (goes_before num f g ≡ true) ⊎ (goes_before num g k ≡ true)
  unfolding goes_before precede
  goes_before-split f g k h =
      precede-split (is_codec f.vcodec) (is_codec g.vcodec) (is_codec k.vcodec) (format_height f)
        (format_height g) (format_height k) (num.above f.tbr k.tbr) (num.above f.tbr g.tbr)
        (num.above g.tbr k.tbr) (lin.split f.tbr g.tbr k.tbr) h

  -- If the bitrates are ordered as floating-point numbers other than NaN are, the offered streams are rearranged so
  -- that none stands in front of one that goes before it, and streams that the order does not tell apart stay in
  -- the extractor's order.
  pub sort_raw_formats-IsStableSort :
      (l : List (RawFormat F)) → IsStableSort (goes_before num) l (sort_raw_formats num l)
  unfolding sort_raw_formats
  sort_raw_formats-IsStableSort l =
      stable_sort-IsStableSort (goes_before num) goes_before-asym goes_before-split l

  goes_before-MayPrecede : (f g : RawFormat F) → goes_before num g f ≡ false → MayPrecede num f g
  unfolding goes_before precede
  goes_before-MayPrecede f g h =
      precede-order (is_codec g.vcodec) (is_codec f.vcodec) (format_height g) (format_height f)
        (num.above g.tbr f.tbr) h

  All-MayPrecede :
      (f : RawFormat F) (l : List (RawFormat F))
      → All (λ g. goes_before num g f ≡ false) l
      → All (MayPrecede num f) l
  All-MayPrecede f [] h = tt
  All-MayPrecede f (g ∷ l) (h, hs) = (goes_before-MayPrecede f g h, All-MayPrecede f l hs)

  -- What the test leaves in order is in the order of the video, the height and the bitrate.
  pub IsOrdered-InOrder : (l : List (RawFormat F)) → IsOrdered (goes_before num) l → InOrder num l
  IsOrdered-InOrder [] h = tt
  IsOrdered-InOrder (f ∷ l) (h, hs) = (All-MayPrecede f l h, IsOrdered-InOrder l hs)
