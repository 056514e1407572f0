-- ===== src/Aol/KeyCache/Epochs.antt =====
-- What the cache of epoch keys gives back.
use deepseek_harness_web3_ag.Prelude.{
  ◌≡◌, refl, sym, ◌∙◌, ap, inl, inr, some, [], ◌∷◌, Text, arith, Option-cases,
}
use deepseek_harness_web3_ag.Prelude.Maps.{get, insert, get-insert_self}
use deepseek_harness_web3_ag.Acquisition.Texts.{to_lower}
use deepseek_harness_web3_ag.Aol.KeyCache.{
  EpochBucket, EpochAesKey, Cache, is_empty, make_epoch_cache_key, put_epoch, get_epoch,
}

-- The same bucket, whatever the case of the token address.
pub record SameBucket (a b : EpochBucket) : Type 0 where
  pub chain : a.chain ≡ b.chain
  pub token : to_lower a.token_address ≡ to_lower b.token_address
  pub threshold : a.threshold ≡ b.threshold
  pub epoch : a.epoch ≡ b.epoch

is_empty-to_lower : (s : Text) → is_empty (to_lower s) ≡ is_empty s
is_empty-to_lower [] = refl
is_empty-to_lower (c ∷ s) = refl

make_epoch_cache_key-SameBucket :
    (a b : EpochBucket) → SameBucket a b → make_epoch_cache_key a ≡ make_epoch_cache_key b
unfolding make_epoch_cache_key
make_epoch_cache_key-SameBucket a b s =
    let empty : is_empty a.token_address ≡ is_empty b.token_address =
      sym (is_empty-to_lower a.token_address)
      ∙ ap is_empty s.token
      ∙ is_empty-to_lower b.token_address in
    rw (s.chain, empty, s.token, s.threshold, s.epoch) refl

put_epoch_stores :
    (bucket : EpochBucket) (value : EpochAesKey) (r r' : Cache EpochAesKey)
    → put_epoch bucket value r ≡ some r'
    → (slot : Text) × (make_epoch_cache_key bucket ≡ some slot)
      × (r'.entries ≡ insert slot value r.entries)
unfolding put_epoch
put_epoch_stores bucket value r r' h = elim (Option-cases (make_epoch_cache_key bucket)) [
  | inl bad ↦ absurd (ground arith)
  | inr (slot, e) ↦ (slot, e, ground arith)
]

get_epoch_at :
    (bucket : EpochBucket) (r : Cache EpochAesKey) (slot : Text)
    → make_epoch_cache_key bucket ≡ some slot
    → get_epoch bucket r ≡ some (get slot r.entries)
unfolding get_epoch
get_epoch_at bucket r slot e = rw (e, get_epoch) refl

-- A key that was stored for a bucket is found for it again, also under another case of the token
-- address.
get_epoch-put_epoch :
    (a b : EpochBucket) (value : EpochAesKey) (r r' : Cache EpochAesKey)
    → SameBucket a b
    → put_epoch a value r ≡ some r'
    → get_epoch b r' ≡ some (some value)
get_epoch-put_epoch a b value r r' s h =
    let (slot, e, stored) = put_epoch_stores a value r r' h in
    get_epoch_at b r' slot (sym (make_epoch_cache_key-SameBucket a b s) ∙ e)
    ∙ ap (λ m. some (get slot m)) stored
    ∙ ap some (get-insert_self slot value r.entries)
