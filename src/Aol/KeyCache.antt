-- ===== src/Aol/KeyCache.antt =====
-- dsh-haven-aol/src/keyCache.ts: the two caches of keys. Both fill a missing slot by one call of a factory
-- whose promise every other caller of the slot waits for. `getOrFetch` and `getOrCreate` are cut where
-- they await that promise; what the factory answers is an argument.
pub mod World
pub mod Single
pub mod Epochs
use deepseek_harness_web3_ag.Prelude.{
  ℕ, suc, ◌+◌, ◌≡◌, Bool, true, false, ◌&&◌, ◌||◌, not, Option, none, some, List, [], ◌∷◌, ◌++◌,
  Text, codes, ◌==◌, if◌then◌else◌, length,
}
use deepseek_harness_web3_ag.Prelude.Maps.{Dict, get, insert, erase}
use deepseek_harness_web3_ag.Prelude.Decimal.{show}
use deepseek_harness_web3_ag.ExactlyOnce.Json.{quote}
use deepseek_harness_web3_ag.Acquisition.Texts.{to_lower}

-- `threshold` and `epoch` are not negative here.
pub record EpochBucket : Type 0 where
  pub chain : Text
  pub token_address : Text
  pub threshold : ℕ
  pub epoch : ℕ

pub record EpochAesKey : Type 0 where
  pub raw_key : List ℕ
  pub wrapped_b64 : Text

abbrev pub is_empty : Text → Bool
is_empty [] = true
is_empty (c ∷ s) = false

-- `none` where the source throws.
unfoldable pub make_epoch_cache_key : EpochBucket → Option Text
make_epoch_cache_key bucket =
    if is_empty bucket.chain || is_empty bucket.token_address
    then none
    else if bucket.threshold == 0 && not (bucket.epoch == 0)
    then none
    else some (
        codes "["
        ++ quote bucket.chain
        ++ codes ","
        ++ quote (to_lower bucket.token_address)
        ++ codes ","
        ++ quote (show bucket.threshold)
        ++ codes ","
        ++ show bucket.epoch
        ++ codes "]")

-- The two maps of a cache. `inflight` holds the number of the fill whose promise it is.
pub record Cache (V : Type 0) : Type 0 where
  pub entries : Dict V
  pub inflight : Dict ℕ
  pub begun : ℕ

-- What a caller gets: the cached key, the promise of a fill under way, or a fill of its own.
pub data Lookup (V : Type 0) : Type 0 where
  hit : V → Lookup V
  attached : ℕ → Lookup V
  filling : ℕ → Lookup V

abbrev is_fill : Option ℕ → ℕ → Bool
is_fill none n = false
is_fill (some m) n = m == n

module _ {V : Type 0} where
  -- Up to the await of the fill.
  unfoldable pub enter : Text → Cache V → Lookup V × Cache V
  enter slot r = elim (get slot r.entries) [
    | some value ↦ (hit value, r)
    | none ↦ elim (get slot r.inflight) [
      | some n ↦ (attached n, r)
      | none ↦ (
        filling r.begun,
        record r { inflight = insert slot r.begun r.inflight; begun = suc r.begun },
      )
    ]
  ]

  -- `if (this.inflight.get(slot) === fill) this.inflight.delete(slot)`
  unfoldable pub release : ℕ → Text → Cache V → Cache V
  release n slot r =
      if is_fill (get slot r.inflight) n then record r { inflight = erase slot r.inflight } else r

  unfoldable pub put : Text → V → Cache V → Option (Cache V)
  put [] value r = none
  put (c ∷ slot) value r = some (record r { entries = insert (c ∷ slot) value r.entries })

  -- The fill resolved: the key is cached, and the fill leaves no trace.
  unfoldable pub fetched : ℕ → Text → V → Cache V → Cache V
  unfolding release
  fetched n slot value r = release n slot (record r { entries = insert slot value r.entries })

  -- The fill was rejected.
  unfoldable pub failed : ℕ → Text → Cache V → Cache V
  unfolding release
  failed n slot r = release n slot (release n slot r)

  unfoldable pub clear : Cache V → Cache V
  clear r = record r { entries = [] }

-- `EpochAesKeyCache.put`: the checks of the value and of the bucket.
unfoldable pub put_epoch :
    EpochBucket → EpochAesKey → Cache EpochAesKey → Option (Cache EpochAesKey)
put_epoch bucket value r =
    if not (length value.raw_key == 32) || is_empty value.wrapped_b64
    then none
    else elim (make_epoch_cache_key bucket) [
      | none ↦ none
      | some slot ↦ some (record r { entries = insert slot value r.entries })
    ]

-- `get`
unfoldable pub get_epoch : EpochBucket → Cache EpochAesKey → Option (Option EpochAesKey)
get_epoch bucket r = elim (make_epoch_cache_key bucket) [
  | none ↦ none
  | some slot ↦ some (get slot r.entries)
]

-- The fill of `getOrCreate` from the answer of its factory on: a value that `put` refuses rejects it.
-- Between the entry and the release no other code runs that could tell them apart: it hits the entry.
unfoldable pub created :
    ℕ → Text → EpochBucket → EpochAesKey → Cache EpochAesKey → Cache EpochAesKey
unfolding put_epoch release
created n slot bucket value r = elim (put_epoch bucket value r) [
  | none ↦ release n slot r
  | some stored ↦ release n slot stored
]
