-- ===== src/Acquisition/Sniff.antt =====
-- Types told by the leading bytes: `sniffBytes` of dsh-tool-acquisition/src/filetype.ts.
pub mod Pointers
use deepseek_harness_web3_ag.Prelude.{
  starts_with, ℕ, ◌-◌, ◌%◌, ◌≡◌, Bool, true, false, ◌&&◌, ◌||◌, not, Option, none, some, List, [],
  ◌∷◌, ◌++◌, Text, codes, text_eq, leb, ltb, ◌==◌, if◌then◌else◌, any, take, drop, length, map,
}
use deepseek_harness_web3_ag.Acquisition.Texts.{to_lower}
use deepseek_harness_web3_ag.Acquisition.Mime.{torrent_mime, nzb_mime}

-- `sliceAscii`
abbrev slice : Text → ℕ → ℕ → Text
slice head from to = take (to - from) (drop from head)

abbrev is_white : ℕ → Bool
is_white b = b == 0x20 || b == 0x09 || b == 0x0d || b == 0x0a

-- The bytes behind white space and byte order marks.
unfoldable pub strip_head : Text → Text
strip_head [] = []
strip_head (a ∷ []) = if is_white a then [] else a ∷ []
strip_head (a ∷ b ∷ []) = elim (is_white a) [
  | true ↦ if is_white b then [] else b ∷ []
  | false ↦ a ∷ b ∷ []
]
strip_head (a ∷ b ∷ c ∷ rest) = elim (is_white a) [
  | true ↦ strip_head (b ∷ c ∷ rest)
  | false ↦ elim (a == 0xef && b == 0xbb && c == 0xbf) [
    | true ↦ strip_head rest
    | false ↦ a ∷ b ∷ c ∷ rest
  ]
]

unfoldable pub includes : Text → Text → Bool
includes [] needle = text_eq needle []
includes (c ∷ s) needle = starts_with needle (c ∷ s) || includes s needle

-- `containsAscii`
unfoldable pub contains_ascii : Text → Text → ℕ → Bool
contains_ascii head needle limit = includes (to_lower (take limit head)) needle

-- What follows the `d` of a torrent: the first of its sorted keys.
abbrev pub torrent_keys : List Text
torrent_keys =
    codes "8:announce"
    ∷ codes "13:announce-list"
    ∷ codes "7:comment"
    ∷ codes "10:created by"
    ∷ codes "13:creation date"
    ∷ codes "8:encoding"
    ∷ codes "4:info"
    ∷ codes "8:url-list"
    ∷ codes "5:nodes"
    ∷ codes "9:httpseeds"
    ∷ []

abbrev is_torrent_start : Text → Bool
is_torrent_start ascii = any (λ key. starts_with (b'd' ∷ key) ascii) torrent_keys

abbrev sniff_xml : Text → Text
sniff_xml stripped =
    if contains_ascii stripped (codes "<nzb") 4096
    then nzb_mime
    else if contains_ascii stripped (codes "<svg") 4096
    then codes "image/svg+xml"
    else if contains_ascii stripped (codes "<html") 4096
    then codes "text/html"
    else codes "application/xml"

-- The first rule whose test holds.
abbrev first_rule : List (Bool × Text) → Option Text
first_rule [] = none
first_rule ((test, mime) ∷ rules) = if test then some mime else first_rule rules

abbrev byte_at : Text → ℕ → ℕ
byte_at head i = first (drop i head)
  where
    first : Text → ℕ
    first [] = 0
    first (b ∷ rest) = b

abbrev sniff_brand : Text → Text
sniff_brand brand =
    if text_eq brand (codes "M4A ") || text_eq brand (codes "M4B ")
    then codes "audio/mp4"
    else if text_eq brand (codes "qt  ")
    then codes "video/quicktime"
    else if text_eq brand (codes "avif") || text_eq brand (codes "avis")
    then codes "image/avif"
    else if text_eq brand (codes "heic")
        || text_eq brand (codes "heix")
        || text_eq brand (codes "mif1")
    then codes "image/heic"
    else codes "video/mp4"

abbrev riff : Text → Text → Bool
riff head form = text_eq (slice head 0 4) (codes "RIFF") && text_eq (slice head 8 12) form

-- The rules behind those on markup, in the order of the source.
abbrev magic_rules : Text → Text → List (Bool × Text)
magic_rules head ascii =
    (
      starts_with (0x89 ∷ 0x50 ∷ 0x4e ∷ 0x47 ∷ 0x0d ∷ 0x0a ∷ 0x1a ∷ 0x0a ∷ []) head,
      codes "image/png",
    )
    ∷ (starts_with (0xff ∷ 0xd8 ∷ 0xff ∷ []) head, codes "image/jpeg")
    ∷ (starts_with (codes "GIF87a") ascii || starts_with (codes "GIF89a") ascii, codes "image/gif")
    ∷ (riff head (codes "WEBP"), codes "image/webp")
    ∷ (riff head (codes "WAVE"), codes "audio/wav")
    ∷ (riff head (codes "AVI "), codes "video/x-msvideo")
    ∷ (
      starts_with (codes "AT&TFORM") ascii && text_eq (slice head 12 15) (codes "DJV"),
      codes "image/vnd.djvu",
    )
    ∷ (
      leb 68 (length head) && text_eq (slice head 60 68) (codes "BOOKMOBI"),
      codes "application/x-mobipocket-ebook",
    )
    ∷ (
      starts_with (0x50 ∷ 0x4b ∷ 0x03 ∷ 0x04 ∷ []) head
          || starts_with (0x50 ∷ 0x4b ∷ 0x05 ∷ 0x06 ∷ []) head,
      codes "application/zip",
    )
    ∷ (starts_with (0x1f ∷ 0x8b ∷ []) head, codes "application/gzip")
    ∷ (starts_with (codes "BZh") ascii, codes "application/x-bzip2")
    ∷ (starts_with (0xfd ∷ 0x37 ∷ 0x7a ∷ 0x58 ∷ 0x5a ∷ 0x00 ∷ []) head, codes "application/x-xz")
    ∷ (starts_with (0x28 ∷ 0xb5 ∷ 0x2f ∷ 0xfd ∷ []) head, codes "application/zstd")
    ∷ (
      starts_with (0x37 ∷ 0x7a ∷ 0xbc ∷ 0xaf ∷ 0x27 ∷ 0x1c ∷ []) head,
      codes "application/x-7z-compressed",
    )
    ∷ (starts_with (0x52 ∷ 0x61 ∷ 0x72 ∷ 0x21 ∷ 0x1a ∷ 0x07 ∷ []) head, codes "application/vnd.rar")
    ∷ (
      leb 262 (length head) && text_eq (slice head 257 262) (codes "ustar"),
      codes "application/x-tar",
    )
    ∷ (starts_with (codes "fLaC") ascii, codes "audio/flac")
    ∷ (starts_with (codes "OggS") ascii, codes "audio/ogg")
    ∷ (
      starts_with (codes "ID3") ascii
          || ltb 1 (length head)
            && byte_at head 0 == 0xff
            && byte_at head 1 - byte_at head 1 % 32 == 0xe0
            && not (byte_at head 1 == 0xff),
      codes "audio/mpeg",
    )
    ∷ (
      starts_with (0x1a ∷ 0x45 ∷ 0xdf ∷ 0xa3 ∷ []) head && contains_ascii head (codes "webm") 64,
      codes "video/webm",
    )
    ∷ (starts_with (0x1a ∷ 0x45 ∷ 0xdf ∷ 0xa3 ∷ []) head, codes "video/x-matroska")
    ∷ (text_eq (slice head 4 8) (codes "ftyp"), sniff_brand (slice head 8 12))
    ∷ (starts_with (codes "{\\rtf") ascii, codes "application/rtf")
    ∷ (starts_with (codes "%!PS") ascii, codes "application/postscript")
    ∷ (
      starts_with (0xd0 ∷ 0xcf ∷ 0x11 ∷ 0xe0 ∷ 0xa1 ∷ 0xb1 ∷ 0x1a ∷ 0xe1 ∷ []) head,
      codes "application/x-ole-storage",
    )
    ∷ []

abbrev sniff_markup : Text → Text → Option Text
sniff_markup head stripped =
    let markup = to_lower (take 512 stripped) in
    if starts_with (codes "<?xml") markup
      || starts_with (codes "<!doctype nzb") markup
      || starts_with (codes "<nzb") markup
    then some (sniff_xml stripped)
    else if starts_with (codes "<!doctype html") markup || starts_with (codes "<html") markup
    then some (codes "text/html")
    else first_rule (magic_rules head (take 64 head))

unfoldable pub sniff_bytes : Text → Option Text
sniff_bytes [] = none
sniff_bytes (b ∷ rest) =
    let ascii = take 64 (b ∷ rest) in
    if starts_with (codes "%PDF-") ascii
    then some (codes "application/pdf")
    else if starts_with (codes "magnet:?") ascii
    then some (codes "text/x-magnet")
    else if is_torrent_start ascii
    then some torrent_mime
    else sniff_markup (b ∷ rest) (strip_head (b ∷ rest))
