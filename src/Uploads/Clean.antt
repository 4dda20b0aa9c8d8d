-- ===== src/Uploads/Clean.antt =====
-- What a cleaned-up name is.
use aiofiles.Prelude.{
  ℕ, ◌-◌, ◌≤◌, Bool, true, not, ◌&&◌, ◌||◌, ◌≡◌, refl, inl, inr, List, [], ◌∷◌, ◌++◌, All, length,
  take, length-take-le, length-append, ◌==◌, ltb, codes, Option, none, some, arith, Bool-cases,
  Option-cases,
}
use aiofiles.Prelude.Bytes.{same_codes, has_byte, has_suffix, trim_by}
use aiofiles.Prelude.Trim.{trim_by-All, length-trim_by-le, take-All}
use aiofiles.Prelude.Paths.{path_base, path_ext, find_ext}
use aiofiles.Uploads.{
  max_stored_name, is_trimmed, sanitise_rune, sanitise_runes, to_slashes, trim_suffix, short_ext,
  shorten, or_upload, sanitise_filename,
}

-- No slash, no backslash and no NUL.
abbrev pub is_bare : ℕ → Bool
is_bare r = not (r == b'/' || (r == b'\\' || r == 0))

abbrev pub IsBare : List ℕ → Type 0
IsBare s = All (λ r. is_bare r ≡ true) s

pub IsBare-append : (s t : List ℕ) → IsBare s → IsBare t → IsBare (s ++ t)
IsBare-append [] t h k = k
IsBare-append (r ∷ s) t (h, hs) k = (h, IsBare-append s t hs k)

IsBare-sanitise_rune : (r : ℕ) → IsBare (sanitise_rune r)
unfolding sanitise_rune
IsBare-sanitise_rune r = ground arith

IsBare-sanitise_runes : (s : List ℕ) → IsBare (sanitise_runes s)
unfolding sanitise_runes
IsBare-sanitise_runes [] = tt
IsBare-sanitise_runes (r ∷ s) =
    IsBare-append (sanitise_rune r) (sanitise_runes s) (IsBare-sanitise_rune r)
      (IsBare-sanitise_runes s)

MaybeBare : Option (List ℕ) → Type 0
MaybeBare none = Unit
MaybeBare (some e) = IsBare e

IsBare-find_ext : (s : List ℕ) → IsBare s → MaybeBare (find_ext s)
unfolding find_ext MaybeBare
IsBare-find_ext [] h = tt
IsBare-find_ext (c ∷ s) (h, hs) = elim (Option-cases (find_ext s)) [
  | inl e ↦ elim (Bool-cases (c == b'.' && not (has_byte b'/' s))) [
    | inl f ↦ rw (e, f, MaybeBare, find_ext) (h, hs)
    | inr f ↦ rw (e, f, MaybeBare, find_ext) tt
  ]
  | inr (x, e) ↦ rw (e, MaybeBare, find_ext) (rw e at (IsBare-find_ext s hs))
]

IsBare-path_ext : (s : List ℕ) → IsBare s → IsBare (path_ext s)
unfolding path_ext MaybeBare
IsBare-path_ext s h = elim (Option-cases (find_ext s)) [
  | inl e ↦ rw (e, path_ext) tt
  | inr (x, e) ↦ rw (e, path_ext) (rw (e, MaybeBare) at (IsBare-find_ext s h))
]

IsBare-trim_suffix : (s e : List ℕ) → IsBare s → IsBare (trim_suffix s e)
unfolding trim_suffix
IsBare-trim_suffix s e h = elim (Bool-cases (has_suffix s e)) [
  | inl f ↦ rw (f, trim_suffix) (take-All is_bare (length s - length e) s h)
  | inr f ↦ rw (f, trim_suffix) h
]

IsBare-short_ext : (e : List ℕ) → IsBare e → IsBare (short_ext e)
IsBare-short_ext e h = elim (Bool-cases (ltb 16 (length e))) [ inl f ↦ rw f tt | inr f ↦ rw f h ]

IsBare-shorten : (s : List ℕ) → IsBare s → IsBare (shorten s)
unfolding shorten
IsBare-shorten s h = elim (Bool-cases (ltb max_stored_name (length s))) [
  | inl f ↦
      let e = short_ext (path_ext s) in
      let stem = trim_suffix s e in
      rw (f, shorten)
        (IsBare-append (trim_by is_trimmed (take (max_stored_name - length e) stem)) e
          (trim_by-All is_trimmed is_bare (take (max_stored_name - length e) stem)
            (take-All is_bare (max_stored_name - length e) stem (IsBare-trim_suffix s e h)))
          (IsBare-short_ext (path_ext s) (IsBare-path_ext s h)))
  | inr f ↦ rw (f, shorten) h
]

length-short_ext-le : (e : List ℕ) → length (short_ext e) ≤ 16
length-short_ext-le e = ground arith

length-shorten-le : (s : List ℕ) → length (shorten s) ≤ max_stored_name
unfolding shorten
length-shorten-le s = elim (Bool-cases (ltb max_stored_name (length s))) [
  | inl f ↦
      let e = short_ext (path_ext s) in
      let stem = trim_suffix s e in
      rw (f, shorten)
        (omega (
          arith,
          length-append (trim_by is_trimmed (take (max_stored_name - length e) stem)) e,
          length-trim_by-le is_trimmed (take (max_stored_name - length e) stem),
          length-take-le (max_stored_name - length e) stem,
          length-short_ext-le (path_ext s),
        ))
  | inr f ↦ rw (f, shorten) (ground (arith, f))
]

-- What a name that was cleaned up is.
pub record IsClean (s : List ℕ) : Type 0 where
  pub bare : IsBare s
  pub short : length s ≤ max_stored_name

IsClean-or_upload : (s : List ℕ) → IsClean s → IsClean (or_upload s)
IsClean-or_upload [] h = record {
  bare = (refl, (refl, (refl, (refl, (refl, (refl, tt))))));
  short = omega arith;
}
IsClean-or_upload (r ∷ s) h = h

pub sanitise_filename-IsClean : (name : List ℕ) → IsClean (sanitise_filename name)
unfolding sanitise_filename
sanitise_filename-IsClean name =
    let out = trim_by is_trimmed (sanitise_runes (path_base (to_slashes name))) in
    let bare =
      trim_by-All is_trimmed is_bare (sanitise_runes (path_base (to_slashes name)))
        (IsBare-sanitise_runes (path_base (to_slashes name))) in
    elim (Bool-cases
      (same_codes out [] || (same_codes out (codes ".") || same_codes out (codes "..")))) [
        | inl e ↦
            rw (e, sanitise_filename)
              (IsClean-or_upload [] (record { bare = tt; short = omega arith }))
        | inr e ↦
            rw (e, sanitise_filename)
              (IsClean-or_upload (shorten out)
                (record { bare = IsBare-shorten out bare; short = length-shorten-le out }))
      ]
