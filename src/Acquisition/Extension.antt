-- ===== src/Acquisition/Extension.antt =====
-- The types that extensions imply: `mimeFromExtension` of dsh-tool-acquisition/src/filetype.ts.
use deepseek_harness_web3_ag.Prelude.{
  ◌||◌, Option, none, some, [], ◌∷◌, Text, codes, ◌==◌, if◌then◌else◌, any,
}
use deepseek_harness_web3_ag.Prelude.Maps.{Dict, get}
use deepseek_harness_web3_ag.Acquisition.Texts.{to_lower}
use deepseek_harness_web3_ag.Acquisition.Mime.{torrent_mime, nzb_mime}

abbrev pub extension_mimes : Dict Text
extension_mimes =
    (codes ".epub", codes "application/epub+zip")
    ∷ (codes ".mobi", codes "application/x-mobipocket-ebook")
    ∷ (codes ".azw", codes "application/vnd.amazon.ebook")
    ∷ (codes ".azw3", codes "application/vnd.amazon.ebook")
    ∷ (codes ".djvu", codes "image/vnd.djvu")
    ∷ (codes ".djv", codes "image/vnd.djvu")
    ∷ (codes ".fb2", codes "application/x-fictionbook+xml")
    ∷ (codes ".cbz", codes "application/vnd.comicbook+zip")
    ∷ (codes ".cbr", codes "application/vnd.comicbook-rar")
    ∷ (codes ".mkv", codes "video/x-matroska")
    ∷ (codes ".mk3d", codes "video/x-matroska")
    ∷ (codes ".mka", codes "audio/x-matroska")
    ∷ (codes ".flac", codes "audio/flac")
    ∷ (codes ".opus", codes "audio/ogg")
    ∷ (codes ".oga", codes "audio/ogg")
    ∷ (codes ".ogv", codes "video/ogg")
    ∷ (codes ".ogg", codes "audio/ogg")
    ∷ (codes ".m4a", codes "audio/mp4")
    ∷ (codes ".m4b", codes "audio/mp4")
    ∷ (codes ".ts", codes "video/mp2t")
    ∷ (codes ".mts", codes "video/mp2t")
    ∷ (codes ".m2ts", codes "video/mp2t")
    ∷ (codes ".webp", codes "image/webp")
    ∷ (codes ".avif", codes "image/avif")
    ∷ (codes ".heic", codes "image/heic")
    ∷ (codes ".heif", codes "image/heif")
    ∷ (codes ".md", codes "text/markdown")
    ∷ (codes ".markdown", codes "text/markdown")
    ∷ (codes ".tex", codes "application/x-tex")
    ∷ (codes ".bib", codes "application/x-bibtex")
    ∷ (codes ".ndjson", codes "application/x-ndjson")
    ∷ (codes ".jsonl", codes "application/x-ndjson")
    ∷ (codes ".yaml", codes "application/yaml")
    ∷ (codes ".yml", codes "application/yaml")
    ∷ (codes ".toml", codes "application/toml")
    ∷ (codes ".7z", codes "application/x-7z-compressed")
    ∷ (codes ".rar", codes "application/vnd.rar")
    ∷ (codes ".zst", codes "application/zstd")
    ∷ (codes ".xz", codes "application/x-xz")
    ∷ (codes ".iso", codes "application/x-iso9660-image")
    ∷ (codes ".torrent", torrent_mime)
    ∷ (codes ".nzb", nzb_mime)
    ∷ (codes ".mp4", codes "video/mp4")
    ∷ (codes ".m4v", codes "video/mp4")
    ∷ (codes ".mov", codes "video/quicktime")
    ∷ (codes ".qt", codes "video/quicktime")
    ∷ (codes ".avi", codes "video/x-msvideo")
    ∷ (codes ".wmv", codes "video/x-ms-wmv")
    ∷ (codes ".asf", codes "video/x-ms-asf")
    ∷ (codes ".flv", codes "video/x-flv")
    ∷ (codes ".webm", codes "video/webm")
    ∷ (codes ".mpg", codes "video/mpeg")
    ∷ (codes ".mpeg", codes "video/mpeg")
    ∷ (codes ".vob", codes "video/dvd")
    ∷ (codes ".3gp", codes "video/3gpp")
    ∷ (codes ".3g2", codes "video/3gpp2")
    ∷ (codes ".f4v", codes "video/x-f4v")
    ∷ (codes ".rm", codes "video/x-pn-realvideo")
    ∷ (codes ".rmvb", codes "video/x-pn-realvideo")
    ∷ (codes ".divx", codes "video/divx")
    ∷ (codes ".mp3", codes "audio/mpeg")
    ∷ (codes ".wav", codes "audio/wav")
    ∷ (codes ".aac", codes "audio/aac")
    ∷ (codes ".wma", codes "audio/x-ms-wma")
    ∷ (codes ".aiff", codes "audio/aiff")
    ∷ (codes ".aif", codes "audio/aiff")
    ∷ (codes ".au", codes "audio/basic")
    ∷ (codes ".mid", codes "audio/midi")
    ∷ (codes ".midi", codes "audio/midi")
    ∷ (codes ".spx", codes "audio/ogg")
    ∷ (codes ".weba", codes "audio/webm")
    ∷ (codes ".jpg", codes "image/jpeg")
    ∷ (codes ".jpeg", codes "image/jpeg")
    ∷ (codes ".png", codes "image/png")
    ∷ (codes ".gif", codes "image/gif")
    ∷ (codes ".bmp", codes "image/bmp")
    ∷ (codes ".tiff", codes "image/tiff")
    ∷ (codes ".tif", codes "image/tiff")
    ∷ (codes ".svg", codes "image/svg+xml")
    ∷ (codes ".ico", codes "image/x-icon")
    ∷ (codes ".psd", codes "image/vnd.adobe.photoshop")
    ∷ (codes ".pdf", codes "application/pdf")
    ∷ (codes ".ps", codes "application/postscript")
    ∷ (codes ".rtf", codes "application/rtf")
    ∷ (codes ".doc", codes "application/msword")
    ∷ (codes ".xls", codes "application/vnd.ms-excel")
    ∷ (codes ".ppt", codes "application/vnd.ms-powerpoint")
    ∷ (
      codes ".docx",
      codes "application/vnd.openxmlformats-officedocument.wordprocessingml.document",
    )
    ∷ (codes ".xlsx", codes "application/vnd.openxmlformats-officedocument.spreadsheetml.sheet")
    ∷ (
      codes ".pptx",
      codes "application/vnd.openxmlformats-officedocument.presentationml.presentation",
    )
    ∷ (codes ".odt", codes "application/vnd.oasis.opendocument.text")
    ∷ (codes ".ods", codes "application/vnd.oasis.opendocument.spreadsheet")
    ∷ (codes ".odp", codes "application/vnd.oasis.opendocument.presentation")
    ∷ (codes ".zip", codes "application/zip")
    ∷ (codes ".tar", codes "application/x-tar")
    ∷ (codes ".gz", codes "application/gzip")
    ∷ (codes ".tgz", codes "application/gzip")
    ∷ (codes ".bz2", codes "application/x-bzip2")
    ∷ (codes ".tbz", codes "application/x-bzip2")
    ∷ (codes ".txt", codes "text/plain")
    ∷ (codes ".srt", codes "text/plain")
    ∷ (codes ".vtt", codes "text/vtt")
    ∷ (codes ".ass", codes "text/plain")
    ∷ (codes ".ssa", codes "text/plain")
    ∷ (codes ".cue", codes "text/plain")
    ∷ (codes ".nfo", codes "text/plain")
    ∷ (codes ".sfv", codes "text/plain")
    ∷ (codes ".csv", codes "text/csv")
    ∷ (codes ".json", codes "application/json")
    ∷ (codes ".xml", codes "application/xml")
    ∷ (codes ".html", codes "text/html")
    ∷ (codes ".htm", codes "text/html")
    ∷ (codes ".css", codes "text/css")
    ∷ (codes ".js", codes "text/javascript")
    ∷ (codes ".m3u", codes "audio/x-mpegurl")
    ∷ (codes ".m3u8", codes "audio/x-mpegurl")
    ∷ (codes ".pls", codes "audio/x-scpls")
    ∷ []

-- The text from the last dot on, if no slash of either kind comes behind the dot.
unfoldable pub extension_of : Text → Option Text
extension_of [] = none
extension_of (c ∷ s) = elim (extension_of s) [
  | some extension ↦ some extension
  | none ↦
      if c == b'.'
      then (if any (λ d. d == b'.' || d == b'/' || d == b'\\') s then none else some (c ∷ s))
      else none
]

unfoldable pub mime_from_extension : Text → Option Text
unfolding extension_of
mime_from_extension path = elim (extension_of path) [
  | none ↦ none
  | some extension ↦ get (to_lower extension) extension_mimes
]
