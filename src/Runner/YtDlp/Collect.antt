-- ===== src/Runner/YtDlp/Collect.antt =====
-- internal/runner/ytdlp.go: the file that yt-dlp has left in its directory, and the title beside it.
pub mod Largest
use aiofiles.Prelude.{
  ℕ, Bool, true, false, ◌||◌, List, [], ◌∷◌, ◌++◌, if◌then◌else◌, codes, Option, none, some, Result,
  ok, err,
}
use aiofiles.Prelude.Int.{ℤ, pos, negsuc, ltb_ℤ}
use aiofiles.Prelude.Bytes.{Bytes, has_suffix}
use aiofiles.Runner.Texts.{is_empty}

-- An entry of a directory; `size` is what `Info` tells, if it does.
pub record Entry : Type 0 where
  pub name : Bytes
  pub is_dir : Bool
  pub size : Option ℕ

-- What is asked of the standard library: `strings.ToLower`, `os.ReadFile`, and the title that `json.Unmarshal` finds
-- in a text, if the text is of the form.
pub record Reader : Type 0 where
  pub lower : Bytes → Bytes
  pub read_file : Bytes → Option Bytes
  pub title_in : Bytes → Option Bytes

pub record Found : Type 0 where
  pub title : Bytes
  pub best : Bytes
  pub best_size : ℤ

pub data CollectError : Type 0 where
  unreadable no_output : CollectError

abbrev pub or_none : Option Bytes → Bytes
or_none none = []
or_none (some t) = t

abbrev pub is_partial : Bytes → Bool
is_partial s =
    has_suffix s (codes ".part") || (has_suffix s (codes ".ytdl") || has_suffix s (codes ".temp"))

-- `filepath.Join` of a clean path and a name without a slash.
abbrev pub in_dir : Bytes → Bytes → Bytes
in_dir dir name = dir ++ b'/' ∷ name

abbrev pub or_title : Bytes → Bytes → Bytes
or_title t old = if is_empty t then old else t

abbrev pub larger : Bytes → Option ℕ → Found → Found
larger path none f = f
larger path (some n) f =
    if ltb_ℤ f.best_size (pos n) then record f { best = path; best_size = pos n } else f

abbrev pub nothing_yet : Found
nothing_yet = record { title = []; best = []; best_size = negsuc 0 }

abbrev pub chosen : Found → Result CollectError (Bytes × Bytes)
chosen f = if is_empty f.best then err no_output else ok (f.title, f.best)

module _ (r : Reader) where
  unfoldable pub read_info_json_title : Bytes → Bytes
  read_info_json_title path = elim (r.read_file path) [
    | none ↦ []
    | some b ↦ or_none (r.title_in b)
  ]

  -- The body of the loop.
  unfoldable pub visit : Bytes → Found → Entry → Found
  unfolding has_suffix read_info_json_title
  visit dir f e =
      let lower = r.lower e.name in
      if e.is_dir
      then f
      else if is_partial lower
      then f
      else if has_suffix lower (codes ".info.json")
      then record f { title = or_title (read_info_json_title (in_dir dir e.name)) f.title }
      else if has_suffix lower (codes ".json")
      then f
      else larger (in_dir dir e.name) e.size f

  unfoldable pub visit_all : Bytes → Found → List Entry → Found
  unfolding visit
  visit_all dir f [] = f
  visit_all dir f (e ∷ es) = visit_all dir (visit dir f e) es

  -- The entries are what `os.ReadDir` gives, if it does.
  unfoldable pub collect_download :
      Bytes → Option (List Entry) → Result CollectError (Bytes × Bytes)
  unfolding visit_all
  collect_download dir none = err unreadable
  collect_download dir (some es) = chosen (visit_all dir nothing_yet es)
