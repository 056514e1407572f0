-- ===== src/Storage/Car/Read.antt =====
-- Reading an archive back: frames of a varint length and so many bytes.
use deepseek_harness_web3_ag.Prelude.{
  ℕ, zero, suc, ◌+◌, ◌-◌, ◌*◌, ◌/◌, ◌≤◌, ◌<◌, ◌≡◌, refl, inl, inr, Option, none, some, List, [],
  ◌∷◌, ◌++◌, append-nil, Text, ltb, length, length-append, take, drop, if◌then◌else◌, arith,
  Bool-cases,
}
use deepseek_harness_web3_ag.Storage.Car.{
  Bytes, varint, max_safe, encode_varint, header_suffix, header_body, cid_bytes, Packed,
  pack_single_block_car,
}

abbrev more : ℕ → Option (ℕ × Bytes) → Option (ℕ × Bytes)
more b none = none
more b (some (n, rest)) = some (n * 128 + (b - 128), rest)

-- A number in base 128, the least digit first; the last digit is below 128.
unfoldable pub read_varint : Bytes → Option (ℕ × Bytes)
read_varint [] = none
read_varint (b ∷ bs) = if ltb b 128 then some (b, bs) else more b (read_varint bs)

-- A frame and what follows it.
abbrev cut : Option (ℕ × Bytes) → Option (Bytes × Bytes)
cut none = none
cut (some (n, rest)) = if ltb (length rest) n then none else some (take n rest, drop n rest)

unfoldable pub read_frame : Bytes → Option (Bytes × Bytes)
read_frame bytes = cut (read_varint bytes)

read_varint-varint :
    (f n : ℕ) (rest : Bytes) → n < f → read_varint (varint f n ++ rest) ≡ some (n, rest)
unfolding varint read_varint
read_varint-varint zero n rest h = absurd (omega arith)
read_varint-varint (suc f) n rest h = elim (Bool-cases (ltb 0 (n / 128))) [
  | inr last ↦ rw last (ground arith)
  | inl longer ↦ rw longer (ground (arith, read_varint-varint f (n / 128) rest))
]

take-append : {A : Type 0} (xs ys : List A) → take (length xs) (xs ++ ys) ≡ xs
take-append [] ys = refl
take-append (x ∷ xs) ys = rw (take-append xs ys)

drop-append : {A : Type 0} (xs ys : List A) → drop (length xs) (xs ++ ys) ≡ ys
drop-append [] ys = refl
drop-append (x ∷ xs) ys = drop-append xs ys

-- A number within the safe integers is encoded, and a frame that starts with it is read back.
read_frame-encode_varint :
    (body rest : Bytes)
    → length body ≤ max_safe
    → (n : Bytes) × (encode_varint (length body) ≡ some n)
      × (read_frame (n ++ (body ++ rest)) ≡ some (body, rest))
unfolding encode_varint read_frame
read_frame-encode_varint body rest h = (
  varint (suc (length body)) (length body),
  ground arith,
  rw (read_varint-varint (suc (length body)) (length body) (body ++ rest) (omega arith))
      (ground (arith, length-append body rest, take-append body rest, drop-append body rest)),
)

-- Packing bytes that are not too long gives an archive of two frames and no more: the header with
-- the digest of the bytes at its root, and the block with the CID of that digest in front of exactly
-- the bytes. The CID that is handed out is the text of that one. A digest has 32 bytes.
pub pack_single_block_car-read_frame :
    (sha256 : Bytes → Bytes) (cid_text : Bytes → Text) (bytes : Bytes)
    → length (sha256 bytes) ≡ 32
    → length bytes + 36 ≤ max_safe
    → (car : Packed) × (rest : Bytes) × (pack_single_block_car sha256 cid_text bytes ≡ some car)
      × (read_frame car.car_bytes ≡ some (header_body (sha256 bytes), rest))
      × (read_frame rest ≡ some (cid_bytes (sha256 bytes) ++ bytes, []))
      × (car.root_cid ≡ cid_text (cid_bytes (sha256 bytes)))
unfolding pack_single_block_car
pack_single_block_car-read_frame sha256 cid_text bytes size short =
    let digest = sha256 bytes in
    let block = cid_bytes digest ++ bytes in
    let (m, coded_block, read_block) =
      read_frame-encode_varint block []
        (omega (arith, length-append (cid_bytes digest) bytes, size)) in
    let (n, coded_header, read_header) =
      read_frame-encode_varint (header_body digest) (m ++ block)
        (ground (arith, length-append digest header_suffix, size)) in
    (
      record {
        car_bytes = n ++ (header_body digest ++ (m ++ block));
        root_cid = cid_text (cid_bytes digest);
      },
      m ++ block,
      rw (coded_header, ← length-append (cid_bytes digest) bytes, coded_block) refl,
      read_header,
      rw (append-nil block) at read_block,
      refl,
    )
