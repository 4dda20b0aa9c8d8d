-- ===== src/Runner/YtDlp/Media.antt =====
-- internal/runner/ytdlp.go: what the form is told of an address, from the output of `yt-dlp -J`.
use aiofiles.Prelude.{
  Bool, true, false, ◌||◌, List, [], ◌∷◌, map, if◌then◌else◌, codes, Option, none, some,
}
use aiofiles.Prelude.Bytes.{Bytes, same_codes}
use aiofiles.Runner.Texts.{is_empty, first_non_empty}
use aiofiles.Runner.YtDlp.Formats.{RawFormat, Format, Numbers, convert_format, sort_raw_formats}

-- The fields of `rawInfo` other than the entries.
pub record Described (F : Type 0) : Type 0 where
  pub kind : Bytes
  pub title : Bytes
  pub uploader : Bytes
  pub channel : Bytes
  pub uploader_id : Bytes
  pub duration : F
  pub thumbnail : Bytes
  pub webpage_url : Bytes
  pub extractor : Bytes
  pub extractor_lc : Bytes
  pub formats : List (RawFormat F)

mutual
  pub data RawInfo (F : Type 0) : Type 0 where
    info : Described F → Entries F → RawInfo F

  pub data Entries (F : Type 0) : Type 0 where
    no_entries : Entries F
    entry : RawInfo F → Entries F → Entries F

pub record MediaInfo (F : Type 0) : Type 0 where
  pub title : Bytes
  pub uploader : Bytes
  pub duration : F
  pub thumbnail : Bytes
  pub webpage_url : Bytes
  pub extractor : Bytes
  pub is_playlist : Bool
  pub formats : List (Format F)

abbrev pub or_else : Bytes → Bytes → Bytes
or_else s t = if is_empty s then t else s

module _ {F : Type 0} where
  -- `firstNonEmpty(info.Uploader, info.Channel, info.UploaderID)`
  abbrev pub uploader_of : Described F → Bytes
  unfolding first_non_empty
  uploader_of d = first_non_empty (d.uploader ∷ d.channel ∷ d.uploader_id ∷ [])

  abbrev pub is_list : Described F → Bool
  is_list d = same_codes d.kind (codes "playlist") || same_codes d.kind (codes "multi_video")

  abbrev pub first_entry : Entries F → Option (Described F)
  first_entry no_entries = none
  first_entry (entry (info d _) _) = some d

  -- The streams that are shown: a list's are those of its first entry, if it has one.
  abbrev pub formats_of : Described F → Option (Described F) → List (RawFormat F)
  formats_of d none = d.formats
  formats_of d (some e) = e.formats

  abbrev pub offered : RawInfo F → List (RawFormat F)
  offered (info d more) = if is_list d then formats_of d (first_entry more) else d.formats

module _ {F : Type 0} (num : Numbers F) where
  -- What is built before a list is looked at.
  abbrev pub plain_media : Described F → MediaInfo F
  plain_media d = record {
    title = d.title;
    uploader = uploader_of d;
    duration = d.duration;
    thumbnail = d.thumbnail;
    webpage_url = d.webpage_url;
    extractor = first_non_empty (d.extractor ∷ d.extractor_lc ∷ []);
    is_playlist = false;
    formats = [];
  }

  -- What is missing is taken from the first entry.
  abbrev pub fill : Option (Described F) → MediaInfo F → MediaInfo F
  fill none m = m
  fill (some e) m = record m {
    title = or_else m.title e.title;
    duration = if num.nought m.duration then e.duration else m.duration;
    thumbnail = or_else m.thumbnail e.thumbnail;
    uploader = or_else m.uploader (uploader_of e);
  }

  abbrev pub with_formats : List (RawFormat F) → MediaInfo F → MediaInfo F
  with_formats l m = record m { formats = map convert_format l }

  unfoldable pub build_media_info : RawInfo F → MediaInfo F
  unfolding sort_raw_formats convert_format first_non_empty
  build_media_info (info d more) =
      let m = plain_media d in
      with_formats (sort_raw_formats num (offered (info d more)))
        (if is_list d then fill (first_entry more) (record m { is_playlist = true }) else m)
