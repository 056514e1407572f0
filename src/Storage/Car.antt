-- ===== src/Storage/Car.antt =====
-- dsh-storage-synapse/src/singleBlockCar.ts: bytes packed as a CARv1 archive of one raw block. The
-- SHA-256 digest and the text of a CID come from other packages, and are parameters.
pub mod Read
use deepseek_harness_web3_ag.Prelude.{
  ℕ, zero, suc, ◌+◌, ◌/◌, ◌%◌, Option, none, some, List, [], ◌∷◌, ◌++◌, Text, ltb, length,
  if◌then◌else◌,
}

abbrev pub Bytes : Type 0
Bytes = List ℕ

-- The loop, on fuel: a number is divided by 128 fewer times than itself and one more.
unfoldable pub varint : ℕ → ℕ → Bytes
varint zero v = []
varint (suc f) v =
    let rest = varint f (v / 128) in
    if ltb 0 (v / 128) then (v % 128 + 128) ∷ rest else (v % 128) ∷ []

abbrev pub max_safe : ℕ
max_safe = 9007199254740991

-- A length is a natural number, and may be past the safe ones.
unfoldable pub encode_varint : ℕ → Option Bytes
encode_varint value = if ltb max_safe value then none else some (varint (suc value) value)

abbrev pub header_prefix : Bytes
header_prefix =
    0xa2 ∷ 0x65 ∷ 0x72 ∷ 0x6f ∷ 0x6f ∷ 0x74 ∷ 0x73 ∷ 0x81 ∷ 0xd8 ∷ 0x2a ∷ 0x58 ∷ 0x25 ∷ 0x00 ∷ 0x01
    ∷ 0x55 ∷ 0x12 ∷ 0x20 ∷ []

abbrev pub header_suffix : Bytes
header_suffix = 0x67 ∷ 0x76 ∷ 0x65 ∷ 0x72 ∷ 0x73 ∷ 0x69 ∷ 0x6f ∷ 0x6e ∷ 0x01 ∷ []

-- CIDv1, raw codec, SHA-256.
abbrev pub cid_bytes : Bytes → Bytes
cid_bytes digest = 0x01 ∷ 0x55 ∷ 0x12 ∷ 0x20 ∷ digest

abbrev pub header_body : Bytes → Bytes
header_body digest = header_prefix ++ (digest ++ header_suffix)

pub record Packed : Type 0 where
  pub car_bytes : Bytes
  pub root_cid : Text

abbrev join : Option Bytes → Bytes → Option Bytes → Bytes → Text → Option Packed
join none header block body cid = none
join (some n) header none body cid = none
join (some n) header (some m) body cid =
    some (record { car_bytes = n ++ (header ++ (m ++ body)); root_cid = cid })

unfoldable pub pack_single_block_car :
    (sha256 : Bytes → Bytes) (cid_text : Bytes → Text) → Bytes → Option Packed
pack_single_block_car sha256 cid_text bytes =
    let digest = sha256 bytes in
    let cid = cid_bytes digest in
    join (encode_varint (length (header_body digest))) (header_body digest)
      (encode_varint (length cid + length bytes)) (cid ++ bytes) (cid_text cid)
