-- ===== src/Api/Create/Accepted.antt =====
-- What a job is that a request has led to.
use aiofiles.Prelude.{
  ℕ, String, true, str_eq, str_eq_iff, ◌≡◌, refl, ap, inl, inr, some, [], ◌∷◌, ◌++◌, Result, ok,
  err, >>=-ok, ok-injective, Bool-cases,
}
use mathlib.Core.Path.{subst}
use aiofiles.Prelude.Int.{ℤ}
use aiofiles.Prelude.Bytes.{Bytes, same_codes, trim_by}
use aiofiles.Jobs.Types.{JobType, download, convert, compress, image, edit, other, valid, Job}
use aiofiles.Presets.Edit.{Seconds}
use aiofiles.Presets.Source.{Url, validate_source_url, is_space}
use aiofiles.Presets.Source.Accepts.{Accepts, validate_source_url-Accepts}
use aiofiles.Uploads
use aiofiles.Uploads.{original_name}
use aiofiles.Uploads.Ids.{IdError, eval_dir, resolve_upload}
use aiofiles.Uploads.Inside.{IsName, IsBelow, resolve_upload-IsBelow}
use aiofiles.Api.Create.{
  CreateRequest, type_of, Validated, parse_params, Server, Origin, upload_origin, upload_start,
  bad_upload, origin_of, expiry, requested_job,
}

module _ (F : Seconds) where
  abbrev FromUpload : Server F → CreateRequest → Bytes → Type 0
  FromUpload s r path =
      IsName r.upload_id
      × ((dir : Bytes) × (eval_dir s.clean s.disk s.upload_dir ≡ ok dir)
          × (s.disk.real_path (s.clean (dir ++ b'/' ∷ s.encode r.upload_id)) ≡ some path)
          × IsBelow dir path
          × (s.disk.is_regular path ≡ true))

  -- A download starts from an accepted address, any other job from a file of the uploads.
  abbrev pub Starts : Server F → CreateRequest → JobType → Origin F → Type 0
  Starts s r download o = (u : Url) × Accepts s.net (trim_by is_space r.url) o.source u
  Starts s r _ o = FromUpload s r o.input

  bad_upload-ok : {A : Type 0} (x : Result IdError A) {a : A} → bad_upload F x ≡ ok a → x ≡ ok a
  bad_upload-ok (ok a) h = ap ok (ok-injective h)
  bad_upload-ok (err e) h = absurd cc

  upload_start-FromUpload :
      (s : Server F) (r : CreateRequest) {o : Origin F}
      → upload_start F s r ≡ ok o
      → FromUpload s r o.input
  unfolding upload_start upload_origin
  upload_start-FromUpload s r h =
      elim (Bool-cases (same_codes (trim_by Uploads.is_space r.upload_id) [])) [
        | inl e ↦ absurd (cc (rw (e, upload_start) at h))
        | inr e ↦
            let (path, e', same) =
              >>=-ok
                (bad_upload F (resolve_upload s.clean s.encode s.disk s.upload_dir r.upload_id)) _
                (rw (e, upload_start) at h) in
            subst (λ (o : Origin F). FromUpload s r o.input) (ok-injective same)
              (resolve_upload-IsBelow s.clean s.encode s.disk s.upload_dir r.upload_id
                (bad_upload-ok _ e'))
      ]

  origin_of-Starts :
      (s : Server F) (r : CreateRequest) (kind : JobType) {o : Origin F}
      → origin_of F s kind r ≡ ok o
      → Starts s r kind o
  unfolding origin_of
  origin_of-Starts s r download h =
      let (url, e, same) = >>=-ok (validate_source_url s.net r.url) _ h in
      subst (λ (o : Origin F). (u : Url) × Accepts s.net (trim_by is_space r.url) o.source u)
        (ok-injective same) (validate_source_url-Accepts s.net r.url e)
  origin_of-Starts s r kind h = upload_start-FromUpload s r h

  -- The type that a text names.
  abbrev Names : String → JobType → Type 0
  Names s download = s ≡ "download"
  Names s convert = s ≡ "convert"
  Names s compress = s ≡ "compress"
  Names s image = s ≡ "image"
  Names s edit = s ≡ "edit"
  Names s (other t) = ⊥

  type_of-Names : (s : String) → valid (type_of s) ≡ true → Names s (type_of s)
  unfolding type_of valid
  type_of-Names s h = elim (Bool-cases (str_eq s "download")) [
    | inl e ↦ rw (e, type_of) ((str_eq_iff s "download").0 e)
    | inr e ↦ elim (Bool-cases (str_eq s "convert")) [
      | inl f ↦ rw (e, f, type_of) ((str_eq_iff s "convert").0 f)
      | inr f ↦ elim (Bool-cases (str_eq s "compress")) [
        | inl g ↦ rw (e, f, g, type_of) ((str_eq_iff s "compress").0 g)
        | inr g ↦ elim (Bool-cases (str_eq s "image")) [
          | inl i ↦ rw (e, f, g, i, type_of) ((str_eq_iff s "image").0 i)
          | inr i ↦ elim (Bool-cases (str_eq s "edit")) [
            | inl k ↦ rw (e, f, g, i, k, type_of) ((str_eq_iff s "edit").0 k)
            | inr k ↦ absurd (cc (rw (e, f, g, i, k, type_of) at h))
          ]
        ]
      ]
    ]
  ]

  -- What a job that is submitted is made of: its type is the one of the five that the request names, its start is checked, and its parameters
  -- and its expiry are those that the checks leave of the ones that were sent.
  pub record IsChecked (s : Server F) (now : ℕ) (r : CreateRequest) (j : Job) : Type 0 where
    pub kind_named : Names (s.trim r.kind) j.kind
    pub origin : Origin F
    pub starts : Starts s r j.kind origin
    pub input_kept : j.input_path ≡ s.text origin.input
    pub source_kept : j.source ≡ s.text origin.source
    pub validated : Validated F
    pub days : ℤ
    pub parsed : parse_params F s.codec j.kind r.params s.default_days ≡ ok (validated, days)
    pub params_kept : j.params ≡ s.codec.marshal validated
    pub expires : j.expires_at ≡ expiry F now days

  -- A request leads to a job only if its type is one of the five names, its parameters pass the checks of that type, and it starts from
  -- an accepted address, for a download, or from a regular file in the directory of the uploads or below it, for any
  -- other; what is stored is what the checks leave, and never the text that was sent.
  pub requested_job-IsChecked :
      (s : Server F) (now : ℕ) (r : CreateRequest) {j : Job}
      → requested_job F s now r ≡ ok j
      → IsChecked s now r j
  unfolding requested_job
  requested_job-IsChecked s now r h =
      let kind = type_of (s.trim r.kind) in
      elim (Bool-cases (valid kind)) [
        | inl e ↦
            let (o, start, h) = >>=-ok (origin_of F s kind r) _ (rw (e, requested_job) at h) in
            let ((v, days), parsed, h) =
              >>=-ok (parse_params F s.codec kind r.params s.default_days) _ h in
            subst (IsChecked s now r) (ok-injective h) (record {
              kind_named = type_of-Names (s.trim r.kind) e;
              origin = o;
              starts = origin_of-Starts s r kind start;
              input_kept = refl;
              source_kept = refl;
              validated = v;
              days = days;
              parsed = parsed;
              params_kept = refl;
              expires = refl;
            })
        | inr e ↦ absurd (cc (rw (e, requested_job) at h))
      ]
