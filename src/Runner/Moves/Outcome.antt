-- ===== src/Runner/Moves/Outcome.antt =====
-- That a move puts the whole file at its place, or keeps it where it is.
use aiofiles.Prelude.{
  ℕ, Bool, true, false, not, ◌≡◌, refl, ap, ◌∙◌, ◌⊎◌, inl, inr, [], take, if◌then◌else◌, Option,
  none, some, ok, err, Bool-cases,
}
use aiofiles.Prelude.Bytes.{Bytes, same_codes, same_codes_refl}
use aiofiles.Runner.Moves.{
  Files, put_at, Renamed, renamed, cross_device, refused, System, MoveError, Moved, move_file,
  copy_remove, give_up, settle_copy, copy_to, rename_to, rename_as, no_dir, no_rename, no_source,
  no_target, no_copy, no_sync, no_close,
}

-- Paths other than the two are as they were.
abbrev pub OthersSame : Bytes → Bytes → Files → Files → Type 0
OthersSame src dst before after =
    (p : Bytes) → same_codes p src ≡ false → same_codes p dst ≡ false → after p ≡ before p

-- A move that succeeds leaves the content at the target; one that fails leaves it at the source, and what it leaves
-- at the target, if a half-written file can be removed, is what was there or nothing.
abbrev pub IsMove : System → Bytes → Bytes → Bytes → Files → Moved → Type 0
IsMove sys src dst content before (ok _, after) =
    (after dst ≡ some content)
    × (sys.unlink_src_ok ≡ true → after src ≡ none)
    × OthersSame src dst before after
IsMove sys src dst content before (err _, after) =
    (after src ≡ some content)
    × (sys.unlink_dst_ok ≡ true → (after dst ≡ before dst) ⊎ (after dst ≡ none))
    × OthersSame src dst before after

module _ (sys : System) (src dst content : Bytes) (files : Files)
    (apart : same_codes src dst ≡ false) (apart_too : same_codes dst src ≡ false)
    (there : files src ≡ some content) where
  -- The store while the target is written: the source is whole, and no other path is touched.
  Writing : Files → Type 0
  Writing now = (now src ≡ some content) × OthersSame src dst files now

  Ends : Moved → Type 0
  Ends = IsMove sys src dst content files

  writes : (o : Option Bytes) (now : Files) → Writing now → Writing (put_at dst o now)
  unfolding Writing
  writes o now (s, others) = (rw apart s, λ p a b. rw b (others p a b))

  give_up-Ends : (e : MoveError) (now : Files) → Writing now → Ends (give_up sys dst e now)
  unfolding Writing Ends
  give_up-Ends e now (s, others) = elim (Bool-cases sys.unlink_dst_ok) [
    | inl a ↦
        rw a (rw apart s, (λ _. inr (rw (same_codes_refl dst) refl)), λ p b c. rw c (others p b c))
    | inr a ↦ rw a (s, (λ b. cc b), others)
  ]

  settle_copy-Ends :
      (now : Files) → Writing now → now dst ≡ some content → Ends (settle_copy sys src dst now)
  unfolding Writing Ends
  settle_copy-Ends now (s, others) done = elim (Bool-cases sys.sync_ok) [
    | inr a ↦ rw a (give_up-Ends no_sync now (s, others))
    | inl a ↦ elim (Bool-cases sys.close_ok) [
      | inr b ↦ rw (a, b) (give_up-Ends no_close now (s, others))
      | inl b ↦ elim (Bool-cases sys.unlink_src_ok) [
        | inl c ↦
            rw (a, b, c)
              (
                rw apart_too done,
                (λ _. rw (same_codes_refl src) refl),
                λ p d e. rw d (others p d e),
              )
        | inr c ↦ rw (a, b, c) (done, (λ d. cc d), others)
      ]
    ]
  ]

  copy_to-Ends :
      (o : Option ℕ) (now : Files) → Writing now → Ends (copy_to sys src dst content o now)
  copy_to-Ends none now w =
      settle_copy-Ends (put_at dst (some content) now) (writes (some content) now w)
        (rw (same_codes_refl dst) refl)
  copy_to-Ends (some n) now w =
      give_up-Ends no_copy (put_at dst (some (take n content)) now)
        (writes (some (take n content)) now w)

  untouched : Writing files
  unfolding Writing
  untouched = (there, λ p a b. refl)

  nothing_done : (e : MoveError) → Ends (err e, files)
  unfolding Ends
  nothing_done e = (there, (λ _. inl refl), λ p a b. refl)

  copy_remove-Ends : Ends (copy_remove sys src dst files)
  unfolding copy_remove Ends
  copy_remove-Ends = rw there (elim (Bool-cases sys.open_ok) [
    | inr a ↦ rw a (nothing_done no_source)
    | inl a ↦ elim (Bool-cases sys.create_ok) [
      | inr b ↦ rw (a, b) (nothing_done no_target)
      | inl b ↦
          rw (a, b)
            (copy_to-Ends sys.copied (put_at dst (some []) files)
              (writes (some []) files untouched))
    ]
  ])

  rename_to-Ends : Ends (rename_to src dst (files src) files)
  unfolding Ends
  rename_to-Ends = rw there (
    rw (same_codes_refl dst) refl,
    (λ _. rw (apart, same_codes_refl src) refl),
    λ p a b. rw (b, a) refl,
  )

  rename_as-Ends : (o : Renamed) → Ends (rename_as o sys src dst files)
  rename_as-Ends renamed = rename_to-Ends
  rename_as-Ends cross_device = copy_remove-Ends
  rename_as-Ends refused = nothing_done no_rename

  in_dir-Ends :
      (b : Bool)
      → Ends (if not b then (err no_dir, files) else rename_as sys.rename sys src dst files)
  in_dir-Ends true = rename_as-Ends sys.rename
  in_dir-Ends false = nothing_done no_dir

  -- A move between two paths succeeds only with the whole content at the target. If it fails, the source is as it
  -- was, and so is every other path; the target is as it was or absent, unless it cannot be removed.
  pub move_file-IsMove : IsMove sys src dst content files (move_file sys src dst files)
  unfolding move_file Ends
  move_file-IsMove = in_dir-Ends sys.mkdir_ok

rename_as_absent :
    (sys : System) (src dst : Bytes) (files : Files) (o : Renamed)
    → files src ≡ none
    → (e : MoveError) × (rename_as o sys src dst files ≡ (err e, files))
unfolding copy_remove
rename_as_absent sys src dst files renamed h = (no_rename, rw h refl)
rename_as_absent sys src dst files cross_device h = (no_source, rw h refl)
rename_as_absent sys src dst files refused h = (no_rename, refl)

-- What is not there is not moved.
pub move_file_absent :
    (sys : System) (src dst : Bytes) (files : Files)
    → files src ≡ none
    → (e : MoveError) × (move_file sys src dst files ≡ (err e, files))
unfolding move_file
move_file_absent sys src dst files h = elim (Bool-cases sys.mkdir_ok) [
  | inl a ↦
      let (e, same) = rename_as_absent sys src dst files sys.rename h in
      (
        e,
        ap (λ b. if not b then (err no_dir, files) else rename_as sys.rename sys src dst files) a
            ∙ same,
      )
  | inr a ↦ (
    no_dir,
    ap (λ b. if not b then (err no_dir, files) else rename_as sys.rename sys src dst files) a,
  )
]
