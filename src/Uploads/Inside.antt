-- ===== src/Uploads/Inside.antt =====
-- That an upload's id leads to no file outside the directory of the uploads.
use aiofiles.Prelude.{
  ℕ, true, false, ◌≡◌, refl, ap, ◌∙◌, ◌⊎◌, inl, inr, some, List, [], ◌∷◌, ◌++◌, ok, arith,
  Bool-cases, Option-cases, >>=-ok, ok-injective,
}
use mathlib.Core.Path.{subst}
use aiofiles.Prelude.Bytes.{Bytes, same_codes, same_codes-eq, has_prefix, has_byte}
use aiofiles.Runner.Names.{has_dots}
use aiofiles.Uploads.Ids.{Disk, bad_id, eval_dir, contained, resolve_in, resolve_upload}

has_prefix-split :
    (s prefix : Bytes) → has_prefix s prefix ≡ true → (rest : Bytes) × (s ≡ prefix ++ rest)
has_prefix-split s [] h = (s, refl)
has_prefix-split [] (d ∷ m) h = cc
has_prefix-split (c ∷ s) (d ∷ m) h =
    let (rest, e) = has_prefix-split s m (ground (arith, h)) in
    let same : c ≡ d = ground (arith, h) in
    (rest, ap (λ l. c ∷ l) e ∙ ap (λ x. x ∷ (m ++ rest)) same)

-- The directory itself, or below it.
abbrev pub IsBelow : Bytes → Bytes → Type 0
IsBelow dir p = (p ≡ dir) ⊎ ((rest : Bytes) × (p ≡ (dir ++ b'/' ∷ []) ++ rest))

contained-IsBelow :
    (disk : Disk) (dir real : Bytes) {p : Bytes}
    → contained disk dir real ≡ ok p
    → IsBelow dir p × (disk.is_regular p ≡ true)
contained-IsBelow disk dir real {p} h =
    let Goal : Bytes → Type 0 = λ x. IsBelow dir x × (disk.is_regular x ≡ true) in
    elim (Bool-cases (disk.is_regular real)) [
      | inl r ↦ elim (Bool-cases (same_codes real dir)) [
        | inl s ↦ subst Goal (ok-injective (rw (s, r) at h)) (inl (same_codes-eq real dir s), r)
        | inr s ↦ elim (Bool-cases (has_prefix real (dir ++ b'/' ∷ []))) [
          | inl q ↦
              subst Goal (ok-injective (rw (s, q, r) at h))
                (inr (has_prefix-split real (dir ++ b'/' ∷ []) q), r)
          | inr q ↦ absurd (cc (rw (s, q) at h))
        ]
      ]
      | inr r ↦ absurd (ground (arith, h, r))
    ]

contained-same :
    (disk : Disk) (dir real : Bytes) {p : Bytes} → contained disk dir real ≡ ok p → real ≡ p
contained-same disk dir real h = ground (arith, h)

-- A name without a separator and without two dots.
pub record IsName (id : List ℕ) : Type 0 where
  pub slash : has_byte b'/' id ≡ false
  pub backslash : has_byte b'\\' id ≡ false
  pub nul : has_byte 0 id ≡ false
  pub dots : has_dots id ≡ false

bad_id-IsName : (clean : List ℕ → List ℕ) (id : List ℕ) → bad_id clean id ≡ false → IsName id
unfolding bad_id
bad_id-IsName clean id h = ground arith

resolve_in-IsBelow :
    (clean : Bytes → Bytes) (disk : Disk) (utf8 dir : Bytes) {p : Bytes}
    → resolve_in clean disk utf8 dir ≡ ok p
    → (disk.real_path (clean (dir ++ b'/' ∷ utf8)) ≡ some p)
      × IsBelow dir p
      × (disk.is_regular p ≡ true)
unfolding resolve_in
resolve_in-IsBelow clean disk utf8 dir h =
    elim (Option-cases (disk.real_path (clean (dir ++ b'/' ∷ utf8)))) [
      | inl e ↦ absurd (cc (rw (e, resolve_in) at h))
      | inr (real, e) ↦
          let (below, regular) = contained-IsBelow disk dir real (rw (e, resolve_in) at h) in
          (e ∙ ap some (contained-same disk dir real (rw (e, resolve_in) at h)), below, regular)
    ]

-- An id that a client sends leads only to a regular file that is what the disk answers for the id's path behind all
-- symbolic links, and lies in the directory of the uploads or below it, and only if the id has no slash, no backslash, no NUL and no two dots side by side.
pub resolve_upload-IsBelow :
    (clean : List ℕ → List ℕ) (encode : List ℕ → Bytes) (disk : Disk) (upload_dir : Bytes)
    (id : List ℕ) {p : Bytes}
    → resolve_upload clean encode disk upload_dir id ≡ ok p
    → IsName id
      × ((dir : Bytes) × (eval_dir clean disk upload_dir ≡ ok dir)
          × (disk.real_path (clean (dir ++ b'/' ∷ encode id)) ≡ some p)
          × IsBelow dir p
          × (disk.is_regular p ≡ true))
unfolding resolve_upload
resolve_upload-IsBelow clean encode disk upload_dir id h = elim (Bool-cases (bad_id clean id)) [
  | inl e ↦ absurd (cc (rw (e, resolve_upload) at h))
  | inr e ↦
      let (dir, same, rest) =
        >>=-ok (eval_dir clean disk upload_dir) _ (rw (e, resolve_upload) at h) in
      let (real, below, regular) = resolve_in-IsBelow clean disk (encode id) dir rest in
      (bad_id-IsName clean id e, (dir, same, real, below, regular))
]
