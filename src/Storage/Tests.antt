-- ===== src/Storage/Tests.antt =====
-- The archives at concrete inputs.
use deepseek_harness_web3_ag.Prelude.{ℕ, zero, suc, ◌≡◌, refl, some, [], ◌∷◌, ◌++◌, arith, length}
use deepseek_harness_web3_ag.Storage.Car.{
  Bytes, header_body, cid_bytes, Packed, pack_single_block_car,
}
use deepseek_harness_web3_ag.Storage.Car.Read.{read_frame, pack_single_block_car-read_frame}

abbrev repeat : ℕ → ℕ → Bytes
repeat zero b = []
repeat (suc n) b = b ∷ repeat n b

abbrev sha256 : Bytes → Bytes
sha256 bytes = repeat 32 (length bytes)

pack_single_block_car-read_frame_example :
    (car : Packed) × (rest : Bytes) × (pack_single_block_car sha256 (λ b. b) (7 ∷ 8 ∷ [])
      ≡ some car)
    × (read_frame car.car_bytes ≡ some (header_body (sha256 (7 ∷ 8 ∷ [])), rest))
    × (read_frame rest ≡ some (cid_bytes (sha256 (7 ∷ 8 ∷ [])) ++ (7 ∷ 8 ∷ []), []))
    × (car.root_cid ≡ cid_bytes (sha256 (7 ∷ 8 ∷ [])))
pack_single_block_car-read_frame_example =
    pack_single_block_car-read_frame sha256 (λ b. b) (7 ∷ 8 ∷ []) refl (omega arith)
