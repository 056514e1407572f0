-- ===== src/Acquisition/Torrent/InfoHash.antt =====
-- The info-hash that dsh-tool-acquisition/src/bencode.ts computes of a torrent.
use deepseek_harness_web3_ag.Prelude.{
  suc, ◌≡◌, refl, ap, ◌∙◌, inl, inr, none, some, [], ◌∷◌, ◌++◌, Text, codes, length, length-append,
  if◌then◌else◌, Bool-cases, arith, text_eq, text_eq→eq, text_eq_iff,
}
use deepseek_harness_web3_ag.Prelude.Maps.{Dict, get, insert, get-insert}
use deepseek_harness_web3_ag.Acquisition.Bencode.{
  BencodeValue, dictionary, Fields, end, field, set_field, get_field, read_fields, decode_at,
  max_depth,
}
use deepseek_harness_web3_ag.Acquisition.Bencode.Encode.{encode, encode_fields, Fresh, Fits}
use deepseek_harness_web3_ag.Acquisition.Bencode.RoundTrip.{spans_of, merge-end, reads_fields}
use deepseek_harness_web3_ag.Acquisition.Bencode.Rounded.{
  rounded, rounded_fields, get_field-rounded, Fresh-rounded,
}
use deepseek_harness_web3_ag.Acquisition.Torrent.{TorrentMeta, meta_of, rooted, parse_torrent}

get_field-set_field :
    (k j : Text) (v : BencodeValue) (m : Fields)
    → get_field j (set_field k v m) ≡ (if text_eq k j then some v else get_field j m)
unfolding get_field set_field
get_field-set_field k j v end = refl
get_field-set_field k j v (field i w m) =
    ground (arith, text_eq_iff k j, text_eq_iff i k, text_eq_iff i j, get_field-set_field k j v m)

-- A key that was read before does not come again.
Fresh-absent :
    (j : Text) (w : BencodeValue) (read m : Fields)
    → Fresh read m
    → get_field j read ≡ some w
    → get_field j m ≡ none
unfolding get_field
Fresh-absent j w read end f e = refl
Fresh-absent j w read (field k v m) f e = elim (Bool-cases (text_eq k j)) [
  | inl same ↦ absurd (ground (arith, f.0, e, text_eq→eq k j same))
  | inr other ↦
      rw other (
        Fresh-absent j w (set_field k v read) m f.1 (get_field-set_field k j v read ∙ ground arith))
]

get-spans_of_absent :
    (j : Text) (spans : Dict Text) (m : Fields)
    → get_field j m ≡ none
    → get j (spans_of spans m) ≡ get j spans
unfolding get_field
get-spans_of_absent j spans end h = refl
get-spans_of_absent j spans (field k v m) h = elim (Bool-cases (text_eq k j)) [
  | inl same ↦ absurd (ground arith)
  | inr other ↦
      get-spans_of_absent j (insert k (encode v) spans) m (ground arith)
      ∙ get-insert k j (encode v) spans
      ∙ ground arith
]

-- The bytes kept of a key are the encoding of its value.
get-spans_of :
    (j : Text) (w : BencodeValue) (spans : Dict Text) (read m : Fields)
    → Fresh read m
    → get_field j m ≡ some w
    → get j (spans_of spans m) ≡ some (encode w)
unfolding get_field
get-spans_of j w spans read end f h = absurd (ground arith)
get-spans_of j w spans read (field k v m) f h = elim (Bool-cases (text_eq k j)) [
  | inl same ↦
      get-spans_of_absent j (insert k (encode v) spans) m (
        Fresh-absent j v (set_field k v read) m f.1 (get_field-set_field k j v read ∙ ground arith))
      ∙ get-insert k j (encode v) spans
      ∙ ground arith
  | inr other ↦
      get-spans_of j w (insert k (encode v) spans) (set_field k v read) m f.1 (ground arith)
]

module _ (utf8_of sha1_hex : Text → Text) where
  rooted-read :
      (m info : Fields) (spans : Dict Text) (rest span : Text)
      → get (codes "info") spans ≡ some span
      → get_field (codes "info") m ≡ some (dictionary info)
      → rooted utf8_of sha1_hex (some ((m, spans), rest))
        ≡ some (meta_of utf8_of sha1_hex span info)
  rooted-read m info spans rest span s i = rw (s, i) refl

  parse_torrent-dictionary :
      (s rest : Text) (m : Fields) (spans : Dict Text)
      → read_fields (decode_at max_depth) (suc (length s)) (end, []) s ≡ some ((m, spans), rest)
      → parse_torrent utf8_of sha1_hex (b'd' ∷ s)
        ≡ rooted utf8_of sha1_hex (some ((m, spans), rest))
  unfolding parse_torrent
  parse_torrent-dictionary s rest m spans e = rw e refl

  -- A bencoded dictionary with an info dictionary that has `pieces`, nested at most 64 deep and with no key
  -- twice, is read as a torrent, whatever follows it; its info-hash is the SHA-1 digest of exactly the
  -- encoding of the info dictionary.
  pub parse_torrent-encode :
      (m info : Fields) (pieces : BencodeValue) (rest : Text)
      → Fits (dictionary m) (suc max_depth)
      → get_field (codes "info") m ≡ some (dictionary info)
      → get_field (codes "pieces") info ≡ some pieces
      → (meta : TorrentMeta) × (parse_torrent utf8_of sha1_hex (encode (dictionary m) ++ rest)
          ≡ some meta)
        × (meta.info_hash ≡ sha1_hex (encode (dictionary info)))
  unfolding encode Fits rounded
  parse_torrent-encode m info pieces rest f e has_pieces =
      let span = encode (dictionary info) in
      let s = encode_fields m ++ rest in
      let read : read_fields (decode_at max_depth) (suc (length s)) (end, []) s
          ≡ some ((rounded_fields m, spans_of [] m), rest) =
        reads_fields m max_depth (suc (length s)) (end, []) rest
          (omega (arith, length-append (encode_fields m) rest)) f.2
        ∙ ap (λ x. some ((x, spans_of [] m), rest))
            (merge-end (rounded_fields m) (Fresh-rounded end m f.1)) in
      (
        meta_of utf8_of sha1_hex span (rounded_fields info),
        parse_torrent-dictionary s rest (rounded_fields m) (spans_of [] m) read
            ∙ rooted-read (rounded_fields m) (rounded_fields info) (spans_of [] m) rest span
                (get-spans_of (codes "info") (dictionary info) [] end m f.1 e)
                (get_field-rounded (codes "info") (dictionary info) m e),
        rw (get_field-rounded (codes "pieces") pieces info has_pieces) refl,
      )
