-- ===== src/Presets/Edit/Laws.antt =====
-- What the accepted crop of an edit job satisfies.
use aiofiles.Prelude.{
  ℕ, ◌≤◌, ◌%◌, String, Bool, true, false, ◌&&◌, ◌||◌, ◌≡◌, refl, ap, ◌⊎◌, inl, inr, ok, arith,
  Bool-cases, and_left, and_right, >>-ok, ok-injective,
}
use mathlib.Core.Path.{subst}
use aiofiles.Prelude.Int.{ℤ, pos, negsuc, is_zero, clear_low_bit, ltb_ℤ}
use aiofiles.Presets.Edit.{
  Crop, check_side, check_sides, check_offset, check_size, check_uncropped, check_crop, even_sides,
}

-- A side that H.264 can encode.
abbrev pub IsSide : ℤ → Type 0
IsSide (pos n) = (n % 2 ≡ 0) × (16 ≤ n) × (n ≤ 20000)
IsSide (negsuc n) = ⊥

abbrev pub IsOffset : ℤ → Type 0
IsOffset (pos n) = n ≤ 20000
IsOffset (negsuc n) = ⊥

-- No crop at all, or one whose sides are even and in range at an offset in range.
abbrev pub CropOk : Crop → Type 0
CropOk c =
    ((c.crop_w ≡ pos 0) × (c.crop_h ≡ pos 0) × (c.crop_x ≡ pos 0) × (c.crop_y ≡ pos 0))
    ⊎ (IsSide c.crop_w × IsSide c.crop_h × IsOffset c.crop_x × IsOffset c.crop_y)

zero_of_is_zero : (v : ℤ) → is_zero v ≡ true → v ≡ pos 0
zero_of_is_zero v h = ground arith

check_side-IsSide :
    (field : String) (v : ℤ) → check_side field (clear_low_bit v) ≡ ok tt → IsSide (clear_low_bit v)
unfolding check_side
check_side-IsSide field (pos n) h = ground arith
check_side-IsSide field (negsuc n) h = ground arith

check_sides-IsSide :
    (w_first : Bool) (w h : ℤ)
    → check_sides w_first (clear_low_bit w) (clear_low_bit h) ≡ ok tt
    → IsSide (clear_low_bit w) × IsSide (clear_low_bit h)
unfolding check_sides
check_sides-IsSide true w h e =
    let (a, b) = >>-ok (check_side "crop_w" (clear_low_bit w)) _ e in
    (check_side-IsSide "crop_w" w a, check_side-IsSide "crop_h" h b)
check_sides-IsSide false w h e =
    let (a, b) = >>-ok (check_side "crop_h" (clear_low_bit h)) _ e in
    (check_side-IsSide "crop_w" w b, check_side-IsSide "crop_h" h a)

IsOffset-IsOffset :
    (x y : ℤ)
    → (ltb_ℤ x (pos 0) || (ltb_ℤ y (pos 0) || (ltb_ℤ (pos 20000) x || ltb_ℤ (pos 20000) y))) ≡ false
    → IsOffset x × IsOffset y
IsOffset-IsOffset (pos x) (pos y) h = ground arith
IsOffset-IsOffset (pos x) (negsuc y) h = absurd (ground arith)
IsOffset-IsOffset (negsuc x) y h = absurd (ground arith)

check_offset-IsOffset : (c : Crop) → check_offset c ≡ ok tt → IsOffset c.crop_x × IsOffset c.crop_y
unfolding check_offset
check_offset-IsOffset c h = IsOffset-IsOffset c.crop_x c.crop_y (ground arith)

check_size-CropOk :
    (w_first : Bool) (c : Crop) {c' : Crop} → check_size w_first (even_sides c) ≡ ok c' → CropOk c'
unfolding check_size
check_size-CropOk w_first c h =
    let (a, h) =
      >>-ok (check_sides w_first (clear_low_bit c.crop_w) (clear_low_bit c.crop_h)) _ h in
    let (b, h) = >>-ok (check_offset (even_sides c)) _ h in
    let (w, s) = check_sides-IsSide w_first c.crop_w c.crop_h a in
    let (x, y) = check_offset-IsOffset (even_sides c) b in
    subst CropOk (ok-injective h) (inr (w, s, x, y))

uncropped-CropOk :
    (c : Crop) {c' : Crop}
    → (is_zero c.crop_w && is_zero c.crop_h) ≡ true
    → check_uncropped c ≡ ok c'
    → CropOk c'
unfolding check_uncropped
uncropped-CropOk c e h = elim (Bool-cases (is_zero c.crop_x && is_zero c.crop_y)) [
  | inl f ↦ subst CropOk (ok-injective (rw (f, check_uncropped) at h)) (
      inl (
        zero_of_is_zero c.crop_w (and_left (is_zero c.crop_w) _ e),
        zero_of_is_zero c.crop_h (and_right (is_zero c.crop_w) _ e),
        zero_of_is_zero c.crop_x (and_left (is_zero c.crop_x) _ f),
        zero_of_is_zero c.crop_y (and_right (is_zero c.crop_x) _ f),
      ))
  | inr f ↦ absurd (cc (rw (f, check_uncropped) at h))
]

check_crop-CropOk :
    (w_first : Bool) (c : Crop) {c' : Crop} → check_crop w_first c ≡ ok c' → CropOk c'
unfolding check_crop
check_crop-CropOk w_first c h = elim (Bool-cases (is_zero c.crop_w && is_zero c.crop_h)) [
  | inl e ↦ uncropped-CropOk c e (rw (e, check_crop) at h)
  | inr e ↦ check_size-CropOk w_first c (rw (e, check_crop) at h)
]

side_even : (v : ℤ) → IsSide v → clear_low_bit v ≡ v
side_even (pos n) h = ap pos (omega arith)
side_even (negsuc n) h = absurd h

side_nonzero : (v : ℤ) → IsSide v → is_zero v ≡ false
side_nonzero (pos n) h = ground arith
side_nonzero (negsuc n) h = absurd h

side_passes : (field : String) (v : ℤ) → IsSide v → check_side field v ≡ ok tt
unfolding check_side
side_passes field (pos n) h = ground arith
side_passes field (negsuc n) h = absurd h

sides_pass : (w_first : Bool) (w h : ℤ) → IsSide w → IsSide h → check_sides w_first w h ≡ ok tt
unfolding check_sides
sides_pass true w h a b = rw (side_passes "crop_w" w a) (side_passes "crop_h" h b)
sides_pass false w h a b = rw (side_passes "crop_h" h b) (side_passes "crop_w" w a)

offset_passes :
    (c : Crop) (x y : ℕ)
    → c.crop_x ≡ pos x
    → c.crop_y ≡ pos y
    → x ≤ 20000
    → y ≤ 20000
    → check_offset c ≡ ok tt
unfolding check_offset
offset_passes c x y ex ey hx hy = rw (ex, ey, check_offset) (ground arith)

offset_natural : (v : ℤ) → IsOffset v → (n : ℕ) × (v ≡ pos n) × (n ≤ 20000)
offset_natural (pos n) h = (n, refl, h)
offset_natural (negsuc n) h = absurd h

-- An accepted crop is accepted again, unchanged.
CropOk-check_crop : (w_first : Bool) (c : Crop) → CropOk c → check_crop w_first c ≡ ok c
unfolding check_crop check_uncropped check_size
CropOk-check_crop w_first c (inl (w, h, x, y)) = ground arith
CropOk-check_crop w_first c (inr (w, h, x, y)) =
    let (m, ex, hx) = offset_natural c.crop_x x in
    let (n, ey, hy) = offset_natural c.crop_y y in
    ground (
      arith,
      side_even c.crop_w w,
      side_even c.crop_h h,
      side_nonzero c.crop_w w,
      sides_pass w_first c.crop_w c.crop_h w h,
      offset_passes c m n ex ey hx hy,
    )

-- An accepted crop is absent, or has even sides of 16 to 20000 pixels at an offset of at most 20000
-- pixels each way; and whichever side is looked at first, the check that the runner makes again
-- accepts it and changes nothing.
pub check_crop_again :
    (w_first again : Bool) (c : Crop) {c' : Crop}
    → check_crop w_first c ≡ ok c'
    → CropOk c' × (check_crop again c' ≡ ok c')
check_crop_again w_first again c {c'} h =
    let v = check_crop-CropOk w_first c h in (v, CropOk-check_crop again c' v)
