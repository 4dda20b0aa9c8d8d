-- ===== src/Retention/Window.antt =====
-- What a sweep deletes: every job past its retention, and no other.
use aiofiles.Prelude.{
  ℕ, String, Bool, true, false, not, ◌&&◌, ◌≡◌, refl, ap, sym, ◌∙◌, List, [], ◌∷◌, map, keep, any,
  All, str_eq, str_eq_iff, arith, Bool-cases, inl, inr,
}
use mathlib.Core.Path.{subst}
use aiofiles.Jobs.Types.{Job, status_eq, expired}
use aiofiles.Jobs.Store.{Table, remove_row, due, scan_job, expired_jobs}
use aiofiles.Retention.{Sweeper, World, Tally, nothing, Luck, sweep_job, sweep_jobs, sweep_once}
use aiofiles.Retention.Inputs.{carried, sweep_job-table, sweep_uploads-table, sweep_once-world}

abbrev pub is_due : ℕ → Job → Bool
is_due now j = due now j.expires_at && not (status_eq j.status expired)

-- Whether one of the jobs has this id.
abbrev has_id : String → List Job → Bool
has_id id l = any (λ (e : Job). str_eq e.id id) l

remove_rows : List Job → Table → Table
remove_rows [] t = t
remove_rows (j ∷ l) t = remove_rows l (remove_row j.id t)

sweep_jobs-table :
    (s : Sweeper) (may up : String → Bool) (l : List Job) (w : World × Tally)
    → (sweep_jobs s may up carried l w).0.table ≡ remove_rows l w.0.table
unfolding sweep_jobs remove_rows
sweep_jobs-table s may up [] w = refl
sweep_jobs-table s may up (j ∷ l) (w, n) =
    sweep_jobs-table s may up l (sweep_job s may up carried j (w, n))
    ∙ ap (remove_rows l) (sweep_job-table s may up j w n)

any-remove_row :
    (p : Job → Bool) (id : String) (t : Table)
    → any p (remove_row id t) ≡ any (λ j. p j && not (str_eq j.id id)) t
unfolding remove_row
any-remove_row p id [] = refl
any-remove_row p id (j ∷ t) = ground (arith, any-remove_row p id t, str_eq_iff j.id id)

any-ext : (p q : Job → Bool) (t : Table) → ((j : Job) → p j ≡ q j) → any p t ≡ any q t
any-ext p q [] h = refl
any-ext p q (j ∷ t) h = ground (arith, any-ext p q t h, h j)

any-remove_rows :
    (p : Job → Bool) (l : List Job) (t : Table)
    → any p (remove_rows l t) ≡ any (λ j. p j && not (has_id j.id l)) t
unfolding remove_rows
any-remove_rows p [] t = any-ext p (λ j. p j && not (has_id j.id [])) t (λ j. ground arith)
any-remove_rows p (e ∷ l) t =
    any-remove_rows p l (remove_row e.id t)
    ∙ any-remove_row (λ j. p j && not (has_id j.id l)) e.id t
    ∙ any-ext (λ j. (p j && not (has_id j.id l)) && not (str_eq j.id e.id))
        (λ j. p j && not (has_id j.id (e ∷ l))) t
        (λ j. ground (arith, str_eq_iff j.id e.id, str_eq_iff e.id j.id))

-- Each row that passes the test has its id among the jobs.
abbrev IsCovered : (Job → Bool) → List Job → Table → Type 0
IsCovered p l t = All (λ (j : Job). p j ≡ true → has_id j.id l ≡ true) t

IsCovered-more :
    (p : Job → Bool) (e : Job) (l : List Job) (t : Table) → IsCovered p l t → IsCovered p (e ∷ l) t
IsCovered-more p e l [] h = tt
IsCovered-more p e l (j ∷ t) (h, hs) = (λ x. ground (arith, h x), IsCovered-more p e l t hs)

kept : (p : Job → Bool) (j : Job) (t : Table) → p j ≡ true → keep p (j ∷ t) ≡ j ∷ keep p t
kept p j t e = rw e refl

dropped : (p : Job → Bool) (j : Job) (t : Table) → p j ≡ false → keep p (j ∷ t) ≡ keep p t
dropped p j t e = rw e refl

keep-IsCovered : (p : Job → Bool) (t : Table) → IsCovered p (map scan_job (keep p t)) t
keep-IsCovered p [] = tt
keep-IsCovered p (j ∷ t) = elim (Bool-cases (p j)) [
  | inl e ↦
      subst (λ l. IsCovered p (map scan_job l) (j ∷ t)) (sym (kept p j t e))
        (
          λ x. ground (arith, str_eq_iff j.id j.id),
          IsCovered-more p (scan_job j) (map scan_job (keep p t)) t (keep-IsCovered p t),
        )
  | inr e ↦
      subst (λ l. IsCovered p (map scan_job l) (j ∷ t)) (sym (dropped p j t e))
        (λ x. ground (arith, x), keep-IsCovered p t)
]

has_id-kept :
    (p : Job → Bool) (id : String) (t : Table)
    → has_id id (map scan_job (keep p t)) ≡ any (λ (e : Job). str_eq e.id id && p e) t
has_id-kept p id [] = refl
has_id-kept p id (j ∷ t) = ground (arith, has_id-kept p id t)

none_left :
    (p : Job → Bool) (l : List Job) (t : Table)
    → IsCovered p l t
    → any (λ j. p j && not (has_id j.id l)) t ≡ false
none_left p l [] h = refl
none_left p l (j ∷ t) (h, hs) = ground (arith, h, none_left p l t hs)

sweep_once-rows :
    (s : Sweeper) (k : Luck) (now : ℕ) (w : World)
    → k.up_expired ≡ true
    → k.up_delete ≡ carried
    → (sweep_once s k now w).0.table
      ≡ remove_rows (map scan_job (keep (is_due now) w.table)) w.table
unfolding expired_jobs
sweep_once-rows s k now w up carry =
    let gone = map scan_job (keep (is_due now) w.table) in
    ap (λ (v : World). v.table) (sweep_once-world s k now w gone carry (rw up refl))
    ∙ sweep_uploads-table s k.may k.up_paths now k.dir k.entries
        (sweep_jobs s k.may k.up_shared carried gone (w, nothing)).0
    ∙ sweep_jobs-table s k.may k.up_shared gone (w, nothing)

-- After a sweep no row is left that is due: past its expiry, and not of the status `expired`. And no
-- other row is gone or changed: a test passes on some row after the sweep exactly if it passed before it
-- on some row whose id no due row has. The listing of the expired jobs and the deletions are carried out.
pub sweep_once_complete :
    (s : Sweeper) (k : Luck) (now : ℕ) (w : World)
    → k.up_expired ≡ true
    → k.up_delete ≡ carried
    → (any (is_due now) (sweep_once s k now w).0.table ≡ false)
      × ((p : Job → Bool)
          → any p (sweep_once s k now w).0.table
            ≡ any
                (λ j. p j && not (any (λ (e : Job). str_eq e.id j.id && is_due now e) w.table))
                w.table)
sweep_once_complete s k now w up carry =
    let gone = map scan_job (keep (is_due now) w.table) in
    let same = sweep_once-rows s k now w up carry in
    (
      rw same (
          any-remove_rows (is_due now) gone w.table
          ∙ none_left (is_due now) gone w.table (keep-IsCovered (is_due now) w.table)),
      λ p. rw same (
          any-remove_rows p gone w.table
          ∙ any-ext (λ j. p j && not (has_id j.id gone))
              (λ j. p j && not (any (λ (e : Job). str_eq e.id j.id && is_due now e) w.table))
              w.table (λ j. ap (λ b. p j && not b) (has_id-kept (is_due now) j.id w.table))),
    )
