-- ===== src/Examples/Serving.antt =====
-- The handlers, the routes and the password hashes at concrete inputs.
use aiofiles.Prelude.{
  ℕ, zero, suc, ◌<◌, ◌%◌, String, Bool, true, false, ◌≡◌, refl, ◌⊎◌, List, [], ◌∷◌, ◌++◌, map,
  codes, str_eq, str_dec, some, none, ok, Option, Result, length, All, if◌then◌else◌, arith,
}
use aiofiles.Prelude.Bytes.{Bytes, same_codes, trim_right_by}
use aiofiles.Prelude.Base64.{AllBytes}
use aiofiles.Prelude.Split.{split_at}
use aiofiles.Prelude.Cleaned.{abs_path, abs_in, clean_from, rel_path, rel_elements}
use aiofiles.Prelude.Paths.{path_base, path_ext, last_element, find_ext}
use aiofiles.Jobs.Types.{Job, done}
use aiofiles.Jobs.Store.{get, find_row}
use aiofiles.Proxy.{Net, Request}
use aiofiles.Auth.Manager.{Manager, authenticated, enabled, new_manager, check_session}
use aiofiles.Auth.Passwords.{IdKey, argon_params, argon_key_len, hash_password, verify_password}
use aiofiles.Auth.Passwords.Hashed.{verify_password-hash_password}
use aiofiles.Api.Guards.{passes, host_guard, origin_guard}
use aiofiles.Api.Replies.{lookup}
use aiofiles.Api.Downloads.{
  Delivery, Download, redirected, handle_download, download_of, send, accel_path, accel_of,
  location, path_escape, content_type_for,
}
use aiofiles.Api.Downloads.Served.{SentFrom, handle_download-SentFrom}
use aiofiles.Api.Files.{Shelf, list_from}
use aiofiles.Api.Files.Once.{Offer, offers, firsts, list_from-firsts}
use aiofiles.Api.Routes.{
  Front, list_jobs, serve, dispatch, mux, from_slash, below_root, route, is_open, is_clean,
}
use aiofiles.Api.Routes.Protected.{LetIn, serve-LetIn}
use aiofiles.Examples.Samples.{old_job}

abbrev run_of : ℕ → ℕ → Bytes
run_of b zero = []
run_of b (suc n) = b ∷ run_of b n

run_of-good : (b n : ℕ) → b < 256 → AllBytes (run_of b n) × (length (run_of b n) ≡ n)
run_of-good b zero h = (tt, refl)
run_of-good b (suc n) h = let (all, long) = run_of-good b n h in ((h, all), omega (arith, long))

abbrev toy_key : IdKey
toy_key p s a n = run_of (length p % 256) n

abbrev salt : Bytes
salt = 1 ∷ 2 ∷ 3 ∷ 4 ∷ []

verify_password-hash_password_example :
    (h : Bytes) × (hash_password toy_key (some salt) (codes "secret") ≡ some h)
    × (verify_password toy_key h (codes "secret") ≡ ok true)
    × (verify_password toy_key h (codes "guess")
        ≡ ok (
            same_codes
              (toy_key (codes "guess") salt argon_params argon_key_len)
              (toy_key (codes "secret") salt argon_params argon_key_len)))
verify_password-hash_password_example =
    verify_password-hash_password toy_key salt (codes "secret") (codes "guess")
      (λ p s a n. run_of-good (length p % 256) n (omega arith))
      ((omega arith, (omega arith, (omega arith, (omega arith, tt)))), omega arith)

abbrev delivery : Delivery
delivery = record {
  bytes = codes;
  lower = λ s. s;
  system_type = λ e. [];
  is_regular = λ p. str_eq p "/d/a b";
  cwd = none;
  xaccel_prefix = codes "/files/";
  download_dir = codes "/d";
}

abbrev done_job : Job
done_job = record old_job { output_path = "/d/a b" }

abbrev sent_file : Download
sent_file = record {
  name = codes "a b";
  sent = redirected (codes "/files/a%20b") (codes "application/octet-stream");
}

handle_download-SentFrom_example :
    (j : Job) × (lookup true "a" (done_job ∷ []) ≡ ok j)
    × (j.status ≡ done)
    × (delivery.is_regular j.output_path ≡ true)
    × (sent_file.name ≡ path_base (delivery.bytes j.output_path))
    × SentFrom delivery j.output_path sent_file.sent
unfolding handle_download download_of lookup get find_row send accel_path accel_of location abs_path
    abs_in clean_from split_at rel_path rel_elements path_escape content_type_for path_base path_ext
    trim_right_by last_element find_ext str_dec
handle_download-SentFrom_example =
    handle_download-SentFrom delivery true "a" (done_job ∷ []) {file = sent_file} refl

-- Only the upload is on disk.
abbrev shelf : Shelf
shelf = record { stat = λ p. if str_eq p "/u/x" then some 5 else none; text = λ s. "t" }

list_from-firsts_example :
    (list_from shelf ([], []) (old_job ∷ old_job ∷ [])).1
    ≡ map (λ (o : Offer). o.1) (firsts (offers shelf (old_job ∷ old_job ∷ [])))
list_from-firsts_example = list_from-firsts shelf (old_job ∷ old_job ∷ [])

abbrev a_net : Net String String
a_net = record {
  parse_addr = λ s. some s;
  unmap = λ a. a;
  addr_text = λ a. a;
  contains = λ p a. str_eq p a;
  split_host = λ s. some s;
  url_hostname = λ s. s;
  lower = λ s. s;
  equal_fold = λ s t. str_eq s t;
}

abbrev listing : Request
listing = record {
  remote_addr = "127.0.0.1";
  tls = false;
  host = "box";
  forwarded_for = [];
  forwarded_proto = "";
  forwarded_host = "";
  real_ip = "";
  method = "GET";
  path = "/api/jobs";
  fetch_site = "same-origin";
  origin = "";
}

abbrev front : Front a_net []
front = record {
  rules = record { proxy_only = false; allowed_hosts = [] };
  parse_url = λ s. none;
  unescape = λ s. s;
}

abbrev signed_in : Manager
signed_in = record (new_manager "admin" "$argon2id$" 1) { sessions = ("tok", 500) ∷ [] }

serve-LetIn_example :
    (host_guard a_net [] front.rules listing ≡ passes)
    × (origin_guard a_net [] front.parse_url listing ≡ passes)
    × LetIn (authenticated true 20 "tok" signed_in).1 list_jobs
unfolding serve dispatch authenticated enabled check_session aiofiles.Prelude.Dict.lookup str_dec
    mux from_slash below_root route is_open is_clean split_at host_guard origin_guard
serve-LetIn_example =
    serve-LetIn a_net [] front true 20 "tok" signed_in listing (codes "/api/jobs") {h = list_jobs}
      refl
