-- ===== src/Runner/Moves/Removed.antt =====
-- What the removal of files does to the others.
use aiofiles.Prelude.{
  false, ◌≡◌, refl, sym, ap, ◌∙◌, inl, inr, List, [], ◌∷◌, All, none, Bool-cases,
}
use aiofiles.Prelude.Bytes.{Bytes, same_codes, same_codes-eq, same_codes_refl}
use aiofiles.Runner.Moves.{Files, remove_file, remove_all}

pub same_codes-false : (s t : Bytes) → same_codes s t ≡ false → same_codes t s ≡ false
same_codes-false s t h = elim (Bool-cases (same_codes t s)) [
  | inl e ↦ cc (sym h ∙ ap (λ x. same_codes s x) (same_codes-eq t s e) ∙ same_codes_refl s)
  | inr e ↦ e
]

removed :
    (ps : List Bytes) (files : Files) (path : Bytes)
    → files path ≡ none
    → remove_all ps files path ≡ none
removed [] files path h = h
removed (p ∷ ps) files path h = elim (Bool-cases (same_codes path p)) [
  | inl e ↦ rw e refl
  | inr e ↦ rw e (removed ps files path h)
]

still_gone :
    (p : Bytes) (files : Files) (ps : List Bytes)
    → All (λ x. files x ≡ none) ps
    → All (λ x. remove_file p files x ≡ none) ps
still_gone p files [] h = tt
still_gone p files (x ∷ ps) (h, hs) = (removed (p ∷ []) files x h, still_gone p files ps hs)

pub all_removed : (ps : List Bytes) (files : Files) → All (λ p. remove_all ps files p ≡ none) ps
all_removed [] files = tt
all_removed (p ∷ ps) files =
    (rw (same_codes_refl p) refl, still_gone p (remove_all ps files) ps (all_removed ps files))

pub kept :
    (path : Bytes) (files : Files) (ps : List Bytes)
    → All (λ p. same_codes path p ≡ false) ps
    → remove_all ps files path ≡ files path
kept path files [] h = refl
kept path files (p ∷ ps) (h, hs) = rw h (kept path files ps hs)
