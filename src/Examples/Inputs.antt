-- ===== src/Examples/Inputs.antt =====
-- Uploads, the addresses of downloads and the settings at concrete inputs.
use aiofiles.Prelude.{
  ℕ, true, false, ◌≡◌, refl, List, [], ◌∷◌, ◌++◌, All, codes, some, none, ok, str_eq, if◌then◌else◌,
}
use aiofiles.Prelude.Bytes.{same_codes, Bytes, trim_by}
use aiofiles.Prelude.Paths.{path_base}
use aiofiles.Presets.Source.{
  v4, quad, Url, Lookup, validate_source_url, check_source_host, addr_permitted, unmap, is_space,
}
use aiofiles.Presets.Source.Accepts.{Accepts, validate_source_url-Accepts}
use aiofiles.Runner.Names.{has_dots}
use aiofiles.Uploads.{stored_name, sanitise_filename}
use aiofiles.Uploads.Ids.{Disk, bad_id, eval_dir, resolve_upload, resolve_in}
use aiofiles.Uploads.Stored.{bad_id-stored_name}
use aiofiles.Uploads.Inside.{IsName, IsBelow, resolve_upload-IsBelow}
use aiofiles.Settings.{Config, Outside, settings, load, check_config, parse_level, warn}
use aiofiles.Settings.Hosts.{NetIp, IsEntry, is_bracketed_ipv6, parse_hosts, parse_prefixes}
use aiofiles.Settings.Bounds.{IsValid, load-IsValid}

abbrev plain_path : Bytes → Bytes
plain_path s = s

abbrev token : List ℕ
token = codes "0123456789abcdef"

-- The name of a file that the server stores and does not take back.
abbrev dotted : List ℕ
dotted = codes "a..b.mp4"

bad_id-stored_name_example :
    bad_id plain_path (stored_name token (sanitise_filename dotted))
    ≡ has_dots (sanitise_filename dotted)
bad_id-stored_name_example =
    bad_id-stored_name plain_path token dotted (λ u h k. refl)
      (
        (
          refl,
          (
            refl,
            (
              refl,
              (
                refl,
                (
                  refl,
                  (
                    refl,
                    (
                      refl,
                      (refl, (refl, (refl, (refl, (refl, (refl, (refl, (refl, (refl, tt))))))))),
                    ),
                  ),
                ),
              ),
            ),
          ),
        ),
        refl,
      )

-- The path of the id is a link to another file of the directory.
abbrev one_link : Disk
one_link = record {
  abs_path = λ s. some s;
  real_path = λ s. if same_codes s (codes "/up") then some s else some (codes "/up/real.mp4");
  is_regular = λ s. same_codes s (codes "/up/real.mp4");
}

resolve_upload-IsBelow_example :
    IsName (codes "ab-c.mp4")
    × ((dir : Bytes) × (eval_dir plain_path one_link (codes "/up") ≡ ok dir)
        × (one_link.real_path (plain_path (dir ++ b'/' ∷ plain_path (codes "ab-c.mp4")))
            ≡ some (codes "/up/real.mp4"))
        × IsBelow dir (codes "/up/real.mp4")
        × (one_link.is_regular (codes "/up/real.mp4") ≡ true))
unfolding resolve_upload bad_id eval_dir resolve_in has_dots path_base
resolve_upload-IsBelow_example =
    resolve_upload-IsBelow plain_path plain_path one_link (codes "/up") (codes "ab-c.mp4")
      {p = codes "/up/real.mp4"} refl

abbrev page : Url
page = record {
  scheme = codes "https";
  host = codes "8.8.8.8";
  hostname = codes "8.8.8.8";
  text = codes "https://8.8.8.8/v";
}

abbrev net : Lookup
net = record {
  parse_url = λ s. some page;
  parse_addr = λ s. some (v4 (quad 8 8 8 8));
  lookup_addrs = λ s. none;
}

validate_source_url-Accepts_example :
    (u : Url) × Accepts net
      (trim_by is_space (codes " https://8.8.8.8/v"))
      (codes "https://8.8.8.8/v")
      u
unfolding validate_source_url check_source_host addr_permitted unmap trim_by
validate_source_url-Accepts_example =
    validate_source_url-Accepts net (codes " https://8.8.8.8/v") {out = codes "https://8.8.8.8/v"}
      refl

abbrev no_net : NetIp ℕ ℕ
no_net = record {
  parse_prefix = λ s. none;
  parse_addr = λ s. none;
  is_6 = λ a. false;
  whole = λ a. a;
}

abbrev home : Outside ℕ ℕ
home = record {
  look = λ key. if str_eq key "ALLOWED_HOSTS" then some (codes "files.lan,*.lan") else none;
  lower = λ s. s;
  join = λ l. codes "/data/x";
  net = no_net;
}

abbrev loaded : Config ℕ
loaded = settings home warn [] (codes "files.lan" ∷ codes "*.lan" ∷ [])

load-IsValid_example :
    IsValid loaded × All (IsEntry (is_bracketed_ipv6 no_net)) loaded.allowed_hosts
unfolding load check_config parse_level parse_hosts parse_prefixes is_bracketed_ipv6 settings
load-IsValid_example = load-IsValid home {c = loaded} refl
