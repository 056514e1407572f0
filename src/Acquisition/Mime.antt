-- ===== src/Acquisition/Mime.antt =====
-- The kinds and patterns of media types in dsh-tool-acquisition/src/filetype.ts.
use deepseek_harness_web3_ag.Prelude.{
  ℕ, Bool, true, false, ◌||◌, not, Option, none, some, List, [], ◌∷◌, Text, codes, text_eq, ◌==◌,
  if◌then◌else◌, any,
}
use deepseek_harness_web3_ag.Wildcard.{any_then, is_line_end}
use deepseek_harness_web3_ag.Acquisition.Texts.{to_lower, trim, ends_with, split}

pub data MediaKind : Type 0 where
  video audio image document text archive torrent nzb other : MediaKind

abbrev pub torrent_mime : Text
torrent_mime = codes "application/x-bittorrent"

abbrev pub nzb_mime : Text
nzb_mime = codes "application/x-nzb"

abbrev document_mimes : List Text
document_mimes =
    codes "application/pdf"
    ∷ codes "application/epub+zip"
    ∷ codes "application/x-mobipocket-ebook"
    ∷ codes "application/vnd.amazon.ebook"
    ∷ codes "image/vnd.djvu"
    ∷ codes "application/postscript"
    ∷ codes "application/rtf"
    ∷ codes "application/msword"
    ∷ codes "application/vnd.openxmlformats-officedocument.wordprocessingml.document"
    ∷ codes "application/vnd.openxmlformats-officedocument.spreadsheetml.sheet"
    ∷ codes "application/vnd.openxmlformats-officedocument.presentationml.presentation"
    ∷ codes "application/vnd.ms-excel"
    ∷ codes "application/vnd.ms-powerpoint"
    ∷ codes "application/vnd.oasis.opendocument.text"
    ∷ codes "application/vnd.oasis.opendocument.spreadsheet"
    ∷ codes "application/vnd.oasis.opendocument.presentation"
    ∷ codes "application/x-fictionbook+xml"
    ∷ codes "application/vnd.comicbook+zip"
    ∷ codes "application/vnd.comicbook-rar"
    ∷ codes "application/x-cbr"
    ∷ codes "application/x-cbz"
    ∷ []

abbrev archive_mimes : List Text
archive_mimes =
    codes "application/zip"
    ∷ codes "application/x-tar"
    ∷ codes "application/gzip"
    ∷ codes "application/x-gzip"
    ∷ codes "application/x-bzip2"
    ∷ codes "application/x-xz"
    ∷ codes "application/zstd"
    ∷ codes "application/x-7z-compressed"
    ∷ codes "application/vnd.rar"
    ∷ codes "application/x-rar-compressed"
    ∷ codes "application/x-iso9660-image"
    ∷ []

abbrev text_application_mimes : List Text
text_application_mimes =
    codes "application/json"
    ∷ codes "application/xml"
    ∷ codes "application/x-ndjson"
    ∷ codes "application/yaml"
    ∷ codes "application/x-yaml"
    ∷ codes "application/toml"
    ∷ codes "application/x-tex"
    ∷ codes "application/x-bibtex"
    ∷ []

abbrev pub has : List Text → Text → Bool
has set t = any (text_eq t) set

abbrev first_part : List Text → Text
first_part [] = []
first_part (part ∷ parts) = part

-- `mime.split(';', 1)[0]?.trim().toLowerCase()`
unfoldable pub base_of : Text → Text
base_of mime = to_lower (trim (first_part (split b';' mime)))

-- The kinds of whole types and of their major parts, in the order of the source.
unfoldable pub kind_of_base : Text → MediaKind
kind_of_base base =
    let major = first_part (split b'/' base) in
    if text_eq base torrent_mime || text_eq base (codes "text/x-magnet")
    then torrent
    else if text_eq base nzb_mime
    then nzb
    else if has document_mimes base
    then document
    else if has archive_mimes base
    then archive
    else if text_eq major (codes "video")
    then video
    else if text_eq major (codes "audio")
    then audio
    else if text_eq major (codes "image")
    then image
    else if text_eq major (codes "text")
        || has text_application_mimes base
        || ends_with base (codes "+json")
        || ends_with base (codes "+xml")
    then text
    else other

unfoldable pub media_kind : Option Text → MediaKind
media_kind none = other
media_kind (some []) = other
media_kind (some (c ∷ mime)) = kind_of_base (base_of (c ∷ mime))

-- One character in front of what the continuation accepts.
abbrev one_then : (ℕ → Bool) → (Text → Bool) → Text → Bool
one_then p k [] = false
one_then p k (c ∷ s) = if p c then k s else false

abbrev ends : Text → Bool
ends [] = true
ends (c ∷ s) = false

-- `globMatch(value, pattern)`: its pattern comes first.
unfoldable pub glob_match : Text → Text → Bool
unfolding any_then
glob_match [] s = ends s
glob_match (p ∷ ps) s =
    if p == b'*'
    then any_then (glob_match ps) s
    else if p == b'?'
    then one_then (λ c. not (is_line_end c)) (glob_match ps) s
    else one_then (λ c. c == p) (glob_match ps) s

abbrev kind_named : Text → Option MediaKind
kind_named name =
    if text_eq name (codes "video")
    then some video
    else if text_eq name (codes "audio")
    then some audio
    else if text_eq name (codes "image")
    then some image
    else if text_eq name (codes "document")
    then some document
    else if text_eq name (codes "text")
    then some text
    else if text_eq name (codes "archive")
    then some archive
    else if text_eq name (codes "torrent")
    then some torrent
    else if text_eq name (codes "nzb")
    then some nzb
    else if text_eq name (codes "other")
    then some other
    else none

abbrev pub kind_eq : MediaKind → MediaKind → Bool
kind_eq video video = true
kind_eq audio audio = true
kind_eq image image = true
kind_eq document document = true
kind_eq text text = true
kind_eq archive archive = true
kind_eq torrent torrent = true
kind_eq nzb nzb = true
kind_eq other other = true
kind_eq _ _ = false

abbrev is_empty : Text → Bool
is_empty [] = true
is_empty (c ∷ s) = false

-- Whether the loop returns `true` at a pattern.
unfoldable pub pattern_accepts : Text → MediaKind → Text → Bool
pattern_accepts base kind pattern =
    if is_empty pattern
    then false
    else if has (codes "*" ∷ codes "any" ∷ codes "*/*" ∷ []) pattern
    then true
    else elim (kind_named pattern) [ some k ↦ kind_eq k kind | none ↦ glob_match pattern base ]

abbrev or_blank : Option Text → Text
or_blank none = []
or_blank (some mime) = mime

unfoldable pub mime_matches : Option Text → List Text → Bool
mime_matches mime patterns =
    let base = base_of (or_blank mime) in
    any (λ raw. pattern_accepts base (media_kind (some base)) (to_lower (trim raw))) patterns
