-- ===== src/Jobs/Store/Order.antt =====
-- The order in which the table is listed.
use aiofiles.Prelude.{
  ℕ, zero, suc, ◌≤◌, String, Bool, true, false, ◌≡◌, refl, ap, sym, ◌∙◌, ◌==◌, ◌≢◌, List, [], ◌∷◌,
  map, if◌then◌else◌, keep, take, length, All, Bool-cases, inl, inr, ok, ok-injective, arith, ltb,
  length-take-le,
}
use mathlib.Core.List.{Perm, perm_append_singleton}
use mathlib.Core.List.Perm
use aiofiles.Jobs.Types.{Job, Status, status_eq, queued, unset}
use aiofiles.Jobs.Store.{
  Table, scan_job, insert_by, sort_by, newest_first, list, list_limit, queued_ids,
}

insert_by-perm :
    (before : Job → Job → Bool) (j : Job) (l : List Job) → Perm (insert_by before j l) (j ∷ l)
unfolding insert_by
insert_by-perm before j [] = Perm.refl (j ∷ [])
insert_by-perm before j (k ∷ l) = elim (Bool-cases (before k j)) [
  | inl e ↦ rw e (Perm.trans (Perm.cons k (insert_by-perm before j l)) (Perm.swap j k l))
  | inr e ↦ rw e (Perm.refl (j ∷ k ∷ l))
]

pub sort_by-perm : (before : Job → Job → Bool) (l : List Job) → Perm (sort_by before l) l
unfolding sort_by
sort_by-perm before [] = Perm.refl []
sort_by-perm before (j ∷ l) =
    Perm.trans (insert_by-perm before j (sort_by before l)) (Perm.cons j (sort_by-perm before l))

newest_first-perm : (t : Table) → Perm (newest_first t) t
unfolding newest_first
newest_first-perm [] = Perm.refl []
newest_first-perm (j ∷ t) =
    Perm.trans (perm_append_singleton j (newest_first t)) (Perm.cons j (newest_first-perm t))

-- No entry should come before one to its left.
abbrev pub IsOrdered : (Job → Job → Bool) → List Job → Type 0
IsOrdered before [] = Unit {0}
IsOrdered before (j ∷ l) = All (λ k. before k j ≡ false) l × IsOrdered before l

module _ (before : Job → Job → Bool)
    (asymmetric : (a b : Job) → before a b ≡ true → before b a ≡ false)
    (transitive : (a b c : Job)
      → before a b ≡ false
      → before b c ≡ false
      → before a c ≡ false) where
  All-weaken :
      (j k : Job) (l : List Job)
      → before k j ≡ false
      → All (λ i. before i k ≡ false) l
      → All (λ i. before i j ≡ false) l
  All-weaken j k [] h a = tt
  All-weaken j k (i ∷ l) h a = (transitive i k j a.0 h, All-weaken j k l h a.1)

  All-insert_by :
      (k j : Job) (l : List Job)
      → before j k ≡ false
      → All (λ i. before i k ≡ false) l
      → All (λ i. before i k ≡ false) (insert_by before j l)
  unfolding insert_by
  All-insert_by k j [] h a = (h, tt)
  All-insert_by k j (i ∷ l) h a = ground (arith, All-insert_by k j l h a.1)

  insert_by-IsOrdered :
      (j : Job) (l : List Job) → IsOrdered before l → IsOrdered before (insert_by before j l)
  unfolding insert_by
  insert_by-IsOrdered j [] o = (tt, tt)
  insert_by-IsOrdered j (k ∷ l) o = elim (Bool-cases (before k j)) [
    | inl e ↦ rw e (All-insert_by k j l (asymmetric k j e) o.0, insert_by-IsOrdered j l o.1)
    | inr e ↦ rw e ((e, All-weaken j k l e o.0), o)
  ]

  pub sort_by-IsOrdered : (l : List Job) → IsOrdered before (sort_by before l)
  unfolding sort_by
  sort_by-IsOrdered [] = tt
  sort_by-IsOrdered (j ∷ l) = insert_by-IsOrdered j (sort_by before l) (sort_by-IsOrdered l)

abbrev pub newer : Job → Job → Bool
newer j k = ltb k.created_at j.created_at

abbrev pub older : Job → Job → Bool
older j k = ltb j.created_at k.created_at

All-take : (P : Job → Type 0) (n : ℕ) (l : List Job) → All P l → All P (take n l)
All-take P zero l a = tt
All-take P (suc n) [] a = tt
All-take P (suc n) (j ∷ l) a = (a.0, All-take P n l a.1)

take-IsOrdered :
    (before : Job → Job → Bool) (n : ℕ) (l : List Job)
    → IsOrdered before l
    → IsOrdered before (take n l)
take-IsOrdered before zero l o = tt
take-IsOrdered before (suc n) [] o = tt
take-IsOrdered before (suc n) (j ∷ l) o = (All-take _ n l o.0, take-IsOrdered before n l o.1)

abbrev pub created_in : ℕ → Job → Bool
created_in c j = j.created_at == c

module _ (before : Job → Job → Bool)
    (strict : (a b : Job) → before a b ≡ true → a.created_at ≢ b.created_at) where
  keep-insert_by :
      (c : ℕ) (j : Job) (l : List Job)
      → keep (created_in c) (insert_by before j l) ≡ keep (created_in c) (j ∷ l)
  unfolding insert_by
  keep-insert_by c j [] = refl
  keep-insert_by c j (k ∷ l) = ground (arith, strict k j, keep-insert_by c j l)

  keep-sort_by :
      (c : ℕ) (l : List Job) → keep (created_in c) (sort_by before l) ≡ keep (created_in c) l
  unfolding sort_by
  keep-sort_by c [] = refl
  keep-sort_by c (j ∷ l) = ground (arith, keep-insert_by c j (sort_by before l), keep-sort_by c l)

All-scan :
    (j : Job) (l : List Job)
    → All (λ k. newer k j ≡ false) l
    → All (λ k. newer k (scan_job j) ≡ false) (map scan_job l)
All-scan j [] a = tt
All-scan j (k ∷ l) a = (a.0, All-scan j l a.1)

scan-IsOrdered : (l : List Job) → IsOrdered newer l → IsOrdered newer (map scan_job l)
scan-IsOrdered [] o = tt
scan-IsOrdered (j ∷ l) o = (All-scan j l o.0, scan-IsOrdered l o.1)

length-scan : (l : List Job) → length (map scan_job l) ≡ length l
length-scan [] = refl
length-scan (j ∷ l) = ap suc (length-scan l)

take_of_length-le : (n : ℕ) (l : List Job) → length l ≤ n → take n l ≡ l
take_of_length-le zero [] h = refl
take_of_length-le zero (j ∷ l) h = absurd (omega arith)
take_of_length-le (suc n) [] h = refl
take_of_length-le (suc n) (j ∷ l) h = ap (◌∷◌ j) (take_of_length-le n l (omega arith))

newer-sort_by-IsOrdered : (l : List Job) → IsOrdered newer (sort_by newer l)
newer-sort_by-IsOrdered =
    sort_by-IsOrdered newer (λ a b h. ground arith) (λ a b c h k. ground arith)

-- The rows that a status asks for; the empty status asks for all.
abbrev pub selected : Status → Table → Table
selected status t = if status_eq status unset then t else keep (λ j. status_eq j.status status) t

-- What a listing is cut from.
abbrev pub ranking : Status → Table → List Job
ranking status t = sort_by newer (newest_first (selected status t))

list-eq :
    (status : Status) (limit : ℕ) (t : Table) {rows : List Job}
    → list true status limit t ≡ ok rows
    → map scan_job (take (list_limit limit) (ranking status t)) ≡ rows
unfolding list
list-eq status limit t h = ok-injective h

list_limit-le : (n : ℕ) → list_limit n ≤ 500
list_limit-le n = ground arith

-- The listing of jobs is in order of creation, the newest first, and has at most 500 entries.
pub list-IsOrdered :
    (status : Status) (limit : ℕ) (t : Table) {rows : List Job}
    → list true status limit t ≡ ok rows
    → IsOrdered newer rows × (length rows ≤ 500)
list-IsOrdered status limit t h = rw (← list-eq status limit t h) (
  scan-IsOrdered _ (
      take-IsOrdered newer (list_limit limit) (ranking status t)
        (newer-sort_by-IsOrdered (newest_first (selected status t)))),
  omega (
    arith,
    length-scan (take (list_limit limit) (ranking status t)),
    length-take-le (list_limit limit) (ranking status t),
    list_limit-le limit,
  ),
)

keep-scan :
    (c : ℕ) (l : List Job)
    → keep (created_in c) (map scan_job l) ≡ map scan_job (keep (created_in c) l)
keep-scan c [] = refl
keep-scan c (j ∷ l) = ground (arith, keep-scan c l)

-- When the jobs asked for fit the limit, each is listed exactly once, and those that were created
-- in the same millisecond stand in the reverse order of their insertion.
pub list_complete :
    (status : Status) (limit c : ℕ) (t : Table) {rows : List Job}
    → list true status limit t ≡ ok rows
    → length (ranking status t) ≤ list_limit limit
    → Perm rows (map scan_job (selected status t))
      × (keep (created_in c) rows
          ≡ map scan_job (keep (created_in c) (newest_first (selected status t))))
list_complete status limit c t h fits =
    rw (← list-eq status limit t h, take_of_length-le (list_limit limit) (ranking status t) fits)
      (
        Perm.map scan_job
            (Perm.trans (sort_by-perm newer _) (newest_first-perm (selected status t))),
        keep-scan c (ranking status t)
            ∙ ap (map scan_job) (keep-sort_by newer (λ a b e. ground arith) c _),
      )

-- Startup finds the jobs still waiting, each once and the oldest first.
pub queued_ids-IsOrdered :
    (t : Table) {ids : List String}
    → queued_ids true t ≡ ok ids
    → (l : List Job) × (ids ≡ map (λ j. j.id) l)
      × IsOrdered older l
      × Perm l (keep (λ j. status_eq j.status queued) t)
unfolding queued_ids
queued_ids-IsOrdered t h = (
  sort_by older (keep (λ j. status_eq j.status queued) t),
  sym (ok-injective h),
  sort_by-IsOrdered older (λ a b e. ground arith) (λ a b c e f. ground arith)
      (keep (λ j. status_eq j.status queued) t),
  sort_by-perm older (keep (λ j. status_eq j.status queued) t),
)
