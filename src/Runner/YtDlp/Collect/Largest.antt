-- ===== src/Runner/YtDlp/Collect/Largest.antt =====
-- That the largest finished file is taken, and only if there is none the collection fails.
use aiofiles.Prelude.{
  ℕ, ◌<◌, Bool, true, false, not, ◌&&◌, ◌≡◌, refl, sym, ap, ◌∙◌, ◌⊎◌, inl, inr, List, [], ◌∷◌, ◌++◌,
  All, if◌then◌else◌, codes, Option, none, some, Result, ok, err, arith, Bool-cases, Option-cases,
}
use mathlib.Core.Path.{subst}
use mathlib.Core.List.{append_assoc}
use aiofiles.Prelude.Int.{ℤ, pos, negsuc, ltb_ℤ, ◌≤ℤ◌}
use aiofiles.Prelude.Bytes.{Bytes, has_suffix, has_suffix-split, has_suffix-append}
use aiofiles.Runner.Texts.{is_empty}
use aiofiles.Runner.YtDlp.Collect.{
  Entry, Reader, Found, CollectError, no_output, is_partial, in_dir, larger, visit, visit_all,
  nothing_yet, chosen, collect_download,
}

-- The size of an entry that may be the result: a file that is neither partial nor JSON.
abbrev pub media_size : Reader → Entry → Option ℕ
media_size r e =
    let lower = r.lower e.name in
    if not e.is_dir && (not (is_partial lower) && not (has_suffix lower (codes ".json")))
    then e.size
    else none

-- A size, if there is one, is at most a bound, or below it.
abbrev pub AtMost : ℤ → Option ℕ → Type 0
AtMost z none = Unit
AtMost z (some n) = pos n ≤ℤ z

abbrev pub Below : ℕ → Option ℕ → Type 0
Below n none = Unit
Below n (some m) = m < n

-- What a visit does to the best file so far: nothing, or what its size asks for.
Same : Found → Found → Type 0
Same f g = (g.best ≡ f.best) × (g.best_size ≡ f.best_size)

branch-Same :
    (d p i j : Bool) (o : Option ℕ) (f : Found) (t path : Bytes)
    → (if not d && (not p && not j) then o else none) ≡ none
    → Same f (
        if d
        then f
        else if p
        then f
        else if i
        then record f { title = t }
        else if j
        then f
        else larger path o f)
unfolding Same
branch-Same true p i j o f t path h = (refl, refl)
branch-Same false true i j o f t path h = (refl, refl)
branch-Same false false true j o f t path h = (refl, refl)
branch-Same false false false true o f t path h = (refl, refl)
branch-Same false false false false o f t path h = rw h (refl, refl)

branch-larger :
    (d p i j : Bool) (o : Option ℕ) (f : Found) (t path : Bytes) (n : ℕ)
    → (i ≡ true → j ≡ true)
    → (if not d && (not p && not j) then o else none) ≡ some n
    → (if d
        then f
        else if p
        then f
        else if i
        then record f { title = t }
        else if j
        then f
        else larger path o f)
      ≡ larger path (some n) f
branch-larger true p i j o f t path n k h = cc
branch-larger false true i j o f t path n k h = cc
branch-larger false false i true o f t path n k h = cc
branch-larger false false true false o f t path n k h = cc (k refl)
branch-larger false false false false o f t path n k h = rw h refl

info_json-json :
    (s : Bytes) → has_suffix s (codes ".info.json") ≡ true → has_suffix s (codes ".json") ≡ true
info_json-json s h =
    let (front, e) = has_suffix-split s (codes ".info.json") h in
    rw (e, sym (append_assoc front (codes ".info") (codes ".json")))
      (has_suffix-append (front ++ codes ".info") (codes ".json"))

larger-true :
    (path : Bytes) (n : ℕ) (f : Found)
    → ltb_ℤ f.best_size (pos n) ≡ true
    → larger path (some n) f ≡ record f { best = path; best_size = pos n }
larger-true path n f h = rw h refl

larger-false :
    (path : Bytes) (n : ℕ) (f : Found)
    → ltb_ℤ f.best_size (pos n) ≡ false
    → larger path (some n) f ≡ f
larger-false path n f h = rw h refl

strictly : (o : Option ℕ) (z : ℤ) (n : ℕ) → AtMost z o → ltb_ℤ z (pos n) ≡ true → Below n o
strictly none z n h k = tt
strictly (some m) z n h k = ground (arith, h, k)

no_size : (o : Option ℕ) → AtMost (negsuc 0) o → o ≡ none
no_size none h = refl
no_size (some n) h = absurd (omega (arith, h))

in_dir-filled : (dir name : Bytes) → is_empty (in_dir dir name) ≡ false
in_dir-filled [] name = refl
in_dir-filled (c ∷ dir) name = refl

chosen-ok : (g : Found) → is_empty g.best ≡ false → chosen g ≡ ok (g.title, g.best)
chosen-ok g h = rw h refl

module _ (r : Reader) (dir : Bytes) where
  -- The first of the largest files that may be the result.
  abbrev pub IsLargest : List Entry → Bytes → Type 0
  IsLargest es path =
      (front back : List Entry) × (e : Entry) × (n : ℕ) × (es ≡ front ++ e ∷ back)
      × (path ≡ in_dir dir e.name)
      × (media_size r e ≡ some n)
      × All (λ f. Below n (media_size r f)) front
      × All (λ f. AtMost (pos n) (media_size r f)) back

  abbrev pub Collected : List Entry → Result CollectError (Bytes × Bytes) → Type 0
  Collected es (ok (title, path)) = IsLargest es path
  Collected es (err e) = (e ≡ no_output) × All (λ f. media_size r f ≡ none) es

  visit-Same : (f : Found) (e : Entry) → media_size r e ≡ none → Same f (visit r dir f e)
  unfolding visit
  visit-Same f e h =
      let low = r.lower e.name in
      branch-Same e.is_dir (is_partial low) (has_suffix low (codes ".info.json"))
        (has_suffix low (codes ".json")) e.size f _ (in_dir dir e.name) h

  visit-larger :
      (f : Found) (e : Entry) (n : ℕ)
      → media_size r e ≡ some n
      → visit r dir f e ≡ larger (in_dir dir e.name) (some n) f
  unfolding visit
  visit-larger f e n h =
      let low = r.lower e.name in
      branch-larger e.is_dir (is_partial low) (has_suffix low (codes ".info.json"))
        (has_suffix low (codes ".json")) e.size f _ (in_dir dir e.name) n (info_json-json low) h

  -- What the loop has found: what it began with, if nothing is larger, or the first of the largest files.
  abbrev Kept : Found → List Entry → Found → Type 0
  Kept f es g = Same f g × All (λ e. AtMost f.best_size (media_size r e)) es

  abbrev Improved : Found → List Entry → Found → Type 0
  Improved f es g =
      (front back : List Entry) × (e : Entry) × (n : ℕ) × (es ≡ front ++ e ∷ back)
      × (g.best ≡ in_dir dir e.name)
      × (media_size r e ≡ some n)
      × (ltb_ℤ f.best_size (pos n) ≡ true)
      × All (λ c. Below n (media_size r c)) front
      × All (λ c. AtMost (pos n) (media_size r c)) back

  skip :
      (f g : Found) (e : Entry) (es : List Entry) (h : Found)
      → f.best_size ≡ g.best_size
      → AtMost f.best_size (media_size r e)
      → Improved g es h
      → Improved f (e ∷ es) h
  skip f g e es h same under (front, back, c, n, eq, best, sz, lt, fs, bs) = (
    e ∷ front,
    back,
    c,
    n,
    ap (λ l. e ∷ l) eq,
    best,
    sz,
    rw same lt,
    (strictly (media_size r e) f.best_size n under (rw same lt), fs),
    bs,
  )

  visit_all-Found :
      (f : Found) (es : List Entry)
      → Kept f es (visit_all r dir f es) ⊎ Improved f es (visit_all r dir f es)
  unfolding visit_all Same
  visit_all-Found f [] = inl ((refl, refl), tt)
  visit_all-Found f (e ∷ es) = elim (Option-cases (media_size r e)) [
    | inl h ↦
        let g = visit r dir f e in
        let (sb, ss) : Same f g = visit-Same f e h in
        elim (visit_all-Found g es) [
          | inl ((b, s), all) ↦ inl (
            (b ∙ sb, s ∙ ss),
            (rw h tt, subst (λ z. All (λ c. AtMost z (media_size r c)) es) ss all),
          )
          | inr found ↦ inr (skip f g e es (visit_all r dir g es) (sym ss) (rw h tt) found)
        ]
    | inr (n, h) ↦ elim (Bool-cases (ltb_ℤ f.best_size (pos n))) [
      | inl lt ↦
          let g = record f { best = in_dir dir e.name; best_size = pos n } in
          let v : visit r dir f e ≡ g =
            visit-larger f e n h ∙ larger-true (in_dir dir e.name) n f lt in
          subst
            (λ x.
              Kept f (e ∷ es) (visit_all r dir x es) ⊎ Improved f (e ∷ es) (visit_all r dir x es))
            (sym v)
            (elim (visit_all-Found g es) [
              | inl ((b, s), all) ↦ inr ([], es, e, n, refl, b, h, lt, tt, all)
              | inr (front, back, c, m, eq, best, sz, up, fs, bs) ↦ inr (
                e ∷ front,
                back,
                c,
                m,
                ap (λ l. e ∷ l) eq,
                best,
                sz,
                ground (arith, lt, up),
                (rw h (ground (arith, up)), fs),
                bs,
              )
            ])
      | inr le ↦
          let v : visit r dir f e ≡ f =
            visit-larger f e n h ∙ larger-false (in_dir dir e.name) n f le in
          subst
            (λ x.
              Kept f (e ∷ es) (visit_all r dir x es) ⊎ Improved f (e ∷ es) (visit_all r dir x es))
            (sym v)
            (elim (visit_all-Found f es) [
              | inl (same, all) ↦ inl (same, (rw h (ground (arith, le)), all))
              | inr found ↦
                  inr (skip f f e es (visit_all r dir f es) refl (rw h (ground (arith, le))) found)
            ])
    ]
  ]

  none_left :
      (es : List Entry)
      → All (λ e. AtMost (negsuc 0) (media_size r e)) es
      → All (λ e. media_size r e ≡ none) es
  none_left [] h = tt
  none_left (e ∷ es) (a, h) = (no_size (media_size r e) a, none_left es h)

  -- The collection gives the first of the largest files that are neither partial nor JSON, and fails exactly if
  -- the directory has no such file.
  pub collect_download-Collected :
      (es : List Entry) → Collected es (collect_download r dir (some es))
  unfolding collect_download Same
  collect_download-Collected es =
      let g = visit_all r dir nothing_yet es in
      elim (visit_all-Found nothing_yet es) [
        | inl ((b, s), all) ↦ rw b (refl, none_left es all)
        | inr (front, back, c, n, eq, best, sz, up, fs, bs) ↦
            subst (Collected es) (sym (chosen-ok g (ap is_empty best ∙ in_dir-filled dir c.name)))
              (front, back, c, n, eq, best, sz, fs, bs)
      ]
