-- ===== src/Api/Files/Once.antt =====
-- That each file is listed once, as the first job that has it shows it.
use aiofiles.Prelude.{
  String, Bool, true, false, not, ◌&&◌, ◌≡◌, refl, sym, ap, ◌∙◌, inl, inr, List, [], ◌∷◌, ◌++◌, map,
  keep, if◌then◌else◌, str_eq, str_eq_iff, Option, none, some, Bool-cases, Option-cases, codes,
}
use mathlib.Core.Path.{ap₂}
use mathlib.Core.List.{append-nil, append_assoc}
use aiofiles.Prelude.Paths.{path_base}
use aiofiles.Jobs.Types.{Job, done, status_eq}
use aiofiles.Uploads.{original_name}
use aiofiles.Api.Files.{
  ReusableFile, Shelf, file_path, shown_name, describe_file, Listing, is_seen, note_file, list_job,
  list_from,
}

-- A file with its path.
abbrev pub Offer : Type 0
Offer = String × ReusableFile

abbrev pub with_path : String → Option ReusableFile → List Offer
with_path path none = []
with_path path (some f) = (path, f) ∷ []

-- What is offered of a path: nothing if it is empty or no regular file is there, else the file under a name.
abbrev pub on_shelf : Shelf → Job → String → String → String → List Offer
on_shelf s j source path name = if str_eq path "" then [] else elim (s.stat path) [
  | none ↦ []
  | some size ↦
      (
        path,
        record {
          job_id = j.id;
          source = source;
          name = name;
          size = size;
          created_at = j.created_at;
        },
      )
      ∷ []
]

-- The name of a path alone, and that of an output, which the job may name otherwise.
abbrev pub plain_name : Shelf → String → String
unfolding original_name path_base
plain_name s path = s.text (original_name (path_base (codes path)))

abbrev pub output_title : Shelf → Job → String
unfolding original_name path_base
output_title s j = if str_eq j.output_name "" then plain_name s j.output_path else j.output_name

-- The files that a job has on disk: its output, if it is done, and its input.
abbrev pub offers_of : Shelf → Job → List Offer
offers_of s j =
    (if status_eq j.status done then on_shelf s j "output" j.output_path (output_title s j) else [])
    ++ on_shelf s j "input" j.input_path (plain_name s j.input_path)

output-on_shelf :
    (s : Shelf) (j : Job)
    → with_path j.output_path (describe_file s j "output")
      ≡ on_shelf s j "output" j.output_path (output_title s j)
unfolding describe_file file_path shown_name
output-on_shelf s j = elim (Bool-cases (str_eq j.output_path "")) [
  | inl e ↦ rw (e, describe_file) refl
  | inr e ↦ elim (Option-cases (s.stat j.output_path)) [
    | inl f ↦ rw (e, f, describe_file) refl
    | inr (size, f) ↦ rw (e, f, describe_file) refl
  ]
]

input-on_shelf :
    (s : Shelf) (j : Job)
    → with_path j.input_path (describe_file s j "input")
      ≡ on_shelf s j "input" j.input_path (plain_name s j.input_path)
unfolding describe_file file_path shown_name
input-on_shelf s j = elim (Bool-cases (str_eq j.input_path "")) [
  | inl e ↦ rw (e, describe_file) refl
  | inr e ↦ elim (Option-cases (s.stat j.input_path)) [
    | inl f ↦ rw (e, f, describe_file) refl
    | inr (size, f) ↦ rw (e, f, describe_file) refl
  ]
]

unfoldable pub offers : Shelf → List Job → List Offer
offers s [] = []
offers s (j ∷ js) = offers_of s j ++ offers s js

-- Of the offers of one path, the first.
unfoldable pub firsts : List Offer → List Offer
firsts [] = []
firsts ((path, f) ∷ l) = (path, f) ∷ keep (λ o. not (str_eq path o.0)) (firsts l)

-- The loop over the offers.
note_all : Listing → List Offer → Listing
note_all l [] = l
note_all l ((path, f) ∷ os) = note_all (note_file path (some f) l) os

note_all-append : (l : Listing) (a b : List Offer) → note_all l (a ++ b) ≡ note_all (note_all l a) b
unfolding note_all
note_all-append l [] b = refl
note_all-append l (o ∷ a) b = note_all-append (note_file o.0 (some o.1) l) a b

note_all-with_path :
    (l : Listing) (path : String) (o : Option ReusableFile)
    → note_all l (with_path path o) ≡ note_file path o l
unfolding note_all
note_all-with_path l path none = refl
note_all-with_path l path (some f) = refl

two_notes :
    (b : Bool) (l : Listing) (p q : String) (o u : Option ReusableFile)
    → note_file q u (if b then note_file p o l else l)
      ≡ note_all l ((if b then with_path p o else []) ++ with_path q u)
two_notes true l p q o u = sym (
    note_all-append l (with_path p o) (with_path q u)
    ∙ ap (λ x. note_all x (with_path q u)) (note_all-with_path l p o)
    ∙ note_all-with_path (note_file p o l) q u)
two_notes false l p q o u = sym (note_all-with_path l q u)

list_job-note_all :
    (s : Shelf) (l : Listing) (j : Job) → list_job s l j ≡ note_all l (offers_of s j)
unfolding list_job
list_job-note_all s l j =
    two_notes (status_eq j.status done) l j.output_path j.input_path (describe_file s j "output")
      (describe_file s j "input")
    ∙ ap (note_all l) (
        ap₂ (λ a b. (if status_eq j.status done then a else []) ++ b) (output-on_shelf s j)
          (input-on_shelf s j))

list_from-note_all :
    (s : Shelf) (l : Listing) (js : List Job) → list_from s l js ≡ note_all l (offers s js)
unfolding list_from offers note_all
list_from-note_all s l [] = refl
list_from-note_all s l (j ∷ js) =
    list_from-note_all s (list_job s l j) js
    ∙ ap (λ x. note_all x (offers s js)) (list_job-note_all s l j)
    ∙ sym (note_all-append l (offers_of s j) (offers s js))

module _ {A : Type 0} where
  keep_step :
      (p q : A → Bool) (x : A) (l : List A)
      → q x ≡ true
      → keep p (keep q l) ≡ keep (λ y. q y && p y) l
      → keep p (keep q (x ∷ l)) ≡ keep (λ y. q y && p y) (x ∷ l)
  keep_step p q x l e h = elim (Bool-cases (p x)) [
    | inl f ↦ rw (e, keep, f) (ap (λ m. x ∷ m) h)
    | inr f ↦ rw (e, keep, f) h
  ]

  keep-keep : (p q : A → Bool) (l : List A) → keep p (keep q l) ≡ keep (λ x. q x && p x) l
  keep-keep p q [] = refl
  keep-keep p q (x ∷ l) = elim (Bool-cases (q x)) [
    | inl e ↦ keep_step p q x l e (keep-keep p q l)
    | inr e ↦ rw (e, keep) (keep-keep p q l)
  ]

  keep_same : (p q : A → Bool) (l : List A) → ((x : A) → p x ≡ q x) → keep p l ≡ keep q l
  keep_same p q [] h = refl
  keep_same p q (x ∷ l) h = rw (h x, keep_same p q l h) refl

-- The offers whose path was not seen.
abbrev fresh : List String → Offer → Bool
fresh seen o = not (is_seen o.0 seen)

seen_path :
    (seen : List String) (path : String) (o : Offer)
    → is_seen path seen ≡ true
    → (not (str_eq path o.0) && fresh seen o) ≡ fresh seen o
seen_path seen path o h = elim (Bool-cases (str_eq path o.0)) [
  | inl e ↦
      let same = (str_eq_iff path o.0).0 e in rw (e, sym (ap (λ p. is_seen p seen) same) ∙ h) refl
  | inr e ↦ rw e refl
]

new_path :
    (seen : List String) (path : String) (o : Offer)
    → (not (str_eq path o.0) && fresh seen o) ≡ fresh (path ∷ seen) o
new_path seen path o = elim (Bool-cases (str_eq path o.0)) [ inl e ↦ rw e refl | inr e ↦ rw e refl ]

module _ (seen : List String) (path : String) (f : ReusableFile) where
  skip_seen :
      (l : List Offer)
      → is_seen path seen ≡ true
      → keep (fresh seen) ((path, f) ∷ l) ≡ keep (fresh seen) l
  skip_seen l h = rw (h, keep) refl

  take_new :
      (l : List Offer)
      → is_seen path seen ≡ false
      → keep (fresh seen) ((path, f) ∷ l) ≡ (path, f) ∷ keep (fresh seen) l
  take_new l h = rw (h, keep) refl

  note_seen :
      (out : List ReusableFile)
      → is_seen path seen ≡ true
      → note_file path (some f) (seen, out) ≡ (seen, out)
  note_seen out h = rw (h, note_file) refl

  note_new :
      (out : List ReusableFile)
      → is_seen path seen ≡ false
      → note_file path (some f) (seen, out) ≡ (path ∷ seen, out ++ f ∷ [])
  note_new out h = rw (h, note_file) refl

abbrev files_in : List Offer → List ReusableFile
files_in l = map (λ o. o.1) l

note_all-firsts :
    (seen : List String) (out : List ReusableFile) (os : List Offer)
    → (note_all (seen, out) os).1 ≡ out ++ files_in (keep (fresh seen) (firsts os))
unfolding note_all firsts
note_all-firsts seen out [] = sym (append-nil out)
note_all-firsts seen out ((path, f) ∷ os) =
    let q = λ (o : Offer). not (str_eq path o.0) in
    let m = firsts os in
    elim (Bool-cases (is_seen path seen)) [
      | inl e ↦
          ap (λ l. (note_all l os).1) (note_seen seen path f out e)
          ∙ note_all-firsts seen out os
          ∙ ap (λ l. out ++ files_in l)
              (sym (
                skip_seen seen path f (keep q m) e
                ∙ keep-keep (fresh seen) q m
                ∙ keep_same _ (fresh seen) m (λ o. seen_path seen path o e)))
      | inr e ↦
          ap (λ l. (note_all l os).1) (note_new seen path f out e)
          ∙ note_all-firsts (path ∷ seen) (out ++ f ∷ []) os
          ∙ append_assoc out (f ∷ []) (files_in (keep (fresh (path ∷ seen)) m))
          ∙ ap (λ l. out ++ files_in l)
              (sym (
                take_new seen path f (keep q m) e
                ∙ ap (λ l. (path, f) ∷ l)
                    (keep-keep (fresh seen) q m
                      ∙ keep_same _ (fresh (path ∷ seen)) m (new_path seen path))))
    ]

keep-fresh : (l : List Offer) → keep (fresh []) l ≡ l
keep-fresh [] = refl
keep-fresh (o ∷ l) = ap (λ m. o ∷ m) (keep-fresh l)

-- The files that are listed are those that are on disk as the output of a job that is done or the input of a job, in
-- the order of the jobs, and of those with one path the first.
pub list_from-firsts :
    (s : Shelf) (js : List Job)
    → (list_from s ([], []) js).1 ≡ map (λ o. o.1) (firsts (offers s js))
list_from-firsts s js =
    ap (λ (l : Listing). l.1) (list_from-note_all s ([], []) js)
    ∙ note_all-firsts [] [] (offers s js)
    ∙ ap (map (λ (o : Offer). o.1)) (keep-fresh (firsts (offers s js)))
