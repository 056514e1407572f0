-- ===== src/Acquisition/Torrent/Tests.antt =====
-- A small torrent.
use deepseek_harness_web3_ag.Prelude.{suc, ◌≡◌, refl, some, [], ◌++◌, codes, arith}
use deepseek_harness_web3_ag.Acquisition.Bencode.{
  pos, negsuc, integer, bytes, items, dictionary, nil, cons, Fields, end, field, get_field,
  set_field, decode, max_depth,
}
use deepseek_harness_web3_ag.Acquisition.Bencode.Encode.{encode, Fits}
use deepseek_harness_web3_ag.Acquisition.Bencode.Rounded.{IsExact}
use deepseek_harness_web3_ag.Acquisition.Bencode.RoundTrip.{decode-encode}
use deepseek_harness_web3_ag.Acquisition.Torrent.{TorrentMeta, parse_torrent}
use deepseek_harness_web3_ag.Acquisition.Torrent.InfoHash.{parse_torrent-encode}

abbrev info : Fields
info = field (codes "length") (integer (pos 12)) (field (codes "pieces") (bytes (codes "0123")) end)

abbrev torrent : Fields
torrent =
    field (codes "announce") (items (cons (integer (negsuc 4)) (cons (bytes []) nil)))
      (field (codes "info") (dictionary info) end)

torrent-Fits : Fits (dictionary torrent) (suc max_depth)
unfolding Fits get_field set_field
torrent-Fits = (
  omega arith,
  (refl, (refl, tt)),
  (
    omega arith,
    (omega arith, (omega arith, (omega arith, tt))),
    (
      omega arith,
      (omega arith, (refl, (refl, tt)), (omega arith, omega arith, (omega arith, omega arith, tt))),
      tt,
    ),
  ),
)

decode-encode_example :
    decode (encode (dictionary torrent) ++ codes "rest") ≡ some (dictionary torrent)
unfolding IsExact
decode-encode_example =
    decode-encode (dictionary torrent) (codes "rest") torrent-Fits
      ((omega arith, (tt, tt)), (((omega arith), (tt, tt)), tt))

parse_torrent-encode_example :
    (meta : TorrentMeta) × (parse_torrent (λ b. b) (λ b. b) (encode (dictionary torrent) ++ [])
      ≡ some meta)
    × (meta.info_hash ≡ encode (dictionary info))
unfolding get_field
parse_torrent-encode_example =
    parse_torrent-encode (λ b. b) (λ b. b) torrent info (bytes (codes "0123")) [] torrent-Fits refl
      refl
