-- ===== src/Wallet.antt =====
-- The class `WalletRuntime` of dsh-wallet/src/index.ts, and the check of its events in
-- dsh-wallet/src/invariant.ts.
pub mod Signed
pub mod Lanes
mod Tests
use deepseek_harness_web3_ag.Prelude.{
  ℕ, suc, Bool, true, false, Option, none, some, List, [], ◌∷◌, map, Text, text_eq, ◌==◌,
  if◌then◌else◌,
}
use deepseek_harness_web3_ag.Prelude.Maps.{Dict, get, insert, erase}
use deepseek_harness_web3_ag.Treasury.Domain.{is_blank}

pub data WalletErrorCode : Type 0 where
  wallet_not_found chain_unsupported credential_unconfigured : WalletErrorCode
  invalid_key_ref duplicate_adapter : WalletErrorCode

-- `other` is what an adapter or the credentials throw.
pub data Thrown : Type 0 where
  wallet_error : WalletErrorCode → Thrown
  other : Text → Thrown

pub data Result (A : Type 0) : Type 0 where
  ok : A → Result A
  threw : Thrown → Result A

pub record WalletDescriptor : Type 0 where
  pub chain : Text
  pub wallet : Text
  pub key_ref : Option Text

-- A descriptor that was validated: its `key_ref` is a reference.
pub record ResolvedDescriptor : Type 0 where
  pub chain : Text
  pub wallet : Text
  pub key_ref : Option Text

pub record WalletKeySource : Type 0 where
  pub wallet : Text
  pub chain : Text
  pub secret : Option Text

pub record WalletInfo : Type 0 where
  pub name : Text
  pub chain : Text
  pub wallet : Text
  pub key_ref_configured : Bool
  pub adapter_registered : Bool

pub data Operation : Type 0 where
  sign_message sign_transaction sign_digest : Operation

pub record WalletSignedEvent : Type 0 where
  pub wallet : Text
  pub chain : Text
  pub operation : Operation
  pub address : Text

abbrev is_some : {A : Type 0} → Option A → Bool
is_some none = false
is_some (some a) = true

-- `credentialRef` is `credential_ref`, and `none` where it throws.
module _ (credential_ref : Text → Option Text) where
  abbrev referenced : WalletDescriptor → Option Text → Result ResolvedDescriptor
  referenced d none = threw (wallet_error invalid_key_ref)
  referenced d (some ref) = ok (record { chain = d.chain; wallet = d.wallet; key_ref = some ref })

  abbrev checked : WalletDescriptor → Option Text → Result ResolvedDescriptor
  checked d none = ok (record { chain = d.chain; wallet = d.wallet; key_ref = none })
  checked d (some ref) = referenced d (credential_ref ref)

  unfoldable pub resolve_descriptor : WalletDescriptor → Result ResolvedDescriptor
  resolve_descriptor d =
      if is_blank d.chain
      then threw (wallet_error invalid_key_ref)
      else if is_blank d.wallet
      then threw (wallet_error invalid_key_ref)
      else checked d d.key_ref

  -- The constructor: the first descriptor that does not resolve throws.
  abbrev configured :
      Dict ResolvedDescriptor
      → Text
      → (Dict ResolvedDescriptor → Result (Dict ResolvedDescriptor))
      → Result ResolvedDescriptor
      → Result (Dict ResolvedDescriptor)
  configured wallets name next (ok d) = next (insert name d wallets)
  configured wallets name next (threw e) = threw e

  unfoldable pub configure :
      Dict ResolvedDescriptor → Dict WalletDescriptor → Result (Dict ResolvedDescriptor)
  configure wallets [] = ok wallets
  configure wallets ((name, d) ∷ rest) =
      configured wallets name (λ m. configure m rest) (resolve_descriptor d)

-- Adapters are told apart by numbers.
pub record WalletRuntime : Type 0 where
  pub adapters : Dict ℕ
  pub wallets : Dict ResolvedDescriptor

abbrev registered : Text → ℕ → WalletRuntime → Option ℕ → Result WalletRuntime
registered chain adapter r (some a) = threw (wallet_error duplicate_adapter)
registered chain adapter r none = ok (record r { adapters = insert chain adapter r.adapters })

unfoldable pub register : Text → ℕ → WalletRuntime → Result WalletRuntime
register chain adapter r = registered chain adapter r (get chain r.adapters)

-- Whether the adapter is this one.
abbrev is_adapter : ℕ → Option ℕ → Bool
is_adapter adapter none = false
is_adapter adapter (some a) = a == adapter

-- The disposer that `register` returns.
unfoldable pub dispose : Text → ℕ → WalletRuntime → WalletRuntime
dispose chain adapter r =
    if is_adapter adapter (get chain r.adapters)
    then record r { adapters = erase chain r.adapters }
    else r

abbrev pub info_of : WalletRuntime → Text × ResolvedDescriptor → WalletInfo
info_of r (name, d) = record {
  name = name;
  chain = d.chain;
  wallet = d.wallet;
  key_ref_configured = is_some d.key_ref;
  adapter_registered = is_some (get d.chain r.adapters);
}

unfoldable pub list : WalletRuntime → List WalletInfo
list r = map (info_of r) r.wallets

-- The adapter of a chain, over keys `K` and an outside world `W`.
pub record CryptoAdapter (W K : Type 0) : Type 0 where
  pub load_key : WalletKeySource → W → Result (Text × K) × W
  pub sign_message : K → Text → W → Result Text × W
  pub sign_transaction : K → Text → W → Result Text × W
  pub sign_digest : Option (K → Text → W → Result Text × W)

-- The adapters, and the `resolve` of the credentials.
pub record Providers : Type 1 where
  pub W : Type 0
  pub K : Type 0
  pub adapter : ℕ → CryptoAdapter W K
  pub resolve : Text → W → Result (Option Text) × W

-- What `beginOperation` returns.
pub record Opened : Type 0 where
  pub adapter : ℕ
  pub descriptor : ResolvedDescriptor
  pub source : WalletKeySource

abbrev pub open_with : ℕ → ResolvedDescriptor → Option Text → Opened
open_with a d secret = record {
  adapter = a;
  descriptor = d;
  source = record { wallet = d.wallet; chain = d.chain; secret = secret };
}

module _ (P : Providers) where
  -- The outside world, and the events that were emitted, the last one first.
  pub record Session : Type 0 where
    pub outside : P.W
    pub events : List WalletSignedEvent

  abbrev pub with_secret : ℕ → ResolvedDescriptor → Result (Option Text) × P.W → Result Opened × P.W
  with_secret a d (ok none, w) = (threw (wallet_error credential_unconfigured), w)
  with_secret a d (ok (some value), w) = (ok (open_with a d (some value)), w)
  with_secret a d (threw e, w) = (threw e, w)

  abbrev pub with_ref : ℕ → ResolvedDescriptor → Option Text → P.W → Result Opened × P.W
  with_ref a d none w = (ok (open_with a d none), w)
  with_ref a d (some ref) w = with_secret a d (P.resolve ref w)

  abbrev pub with_adapter : ResolvedDescriptor → Option ℕ → P.W → Result Opened × P.W
  with_adapter d none w = (threw (wallet_error chain_unsupported), w)
  with_adapter d (some a) w = with_ref a d d.key_ref w

  abbrev pub with_descriptor : WalletRuntime → Option ResolvedDescriptor → P.W → Result Opened × P.W
  with_descriptor r none w = (threw (wallet_error wallet_not_found), w)
  with_descriptor r (some d) w = with_adapter d (get d.chain r.adapters) w

  unfoldable pub begin_operation : WalletRuntime → Text → P.W → Result Opened × P.W
  begin_operation r name w = with_descriptor r (get name r.wallets) w

  -- `address`
  abbrev loaded : Result (Text × P.K) × P.W → Result Text × P.W
  loaded (ok (address, key), w) = (ok address, w)
  loaded (threw e, w) = (threw e, w)

  abbrev load : Result Opened × P.W → Result Text × P.W
  load (ok o, w) = loaded ((P.adapter o.adapter).load_key o.source w)
  load (threw e, w) = (threw e, w)

  unfoldable pub address : WalletRuntime → Text → P.W → Result Text × P.W
  address r name w = load (begin_operation r name w)

  -- Which method of the adapter signs.
  abbrev digested :
      Option (P.K → Text → P.W → Result Text × P.W) → P.K → Text → P.W → Result Text × P.W
  digested none key payload w = (threw (wallet_error chain_unsupported), w)
  digested (some f) key payload w = f key payload w

  abbrev pub sign_with : Operation → ℕ → P.K → Text → P.W → Result Text × P.W
  sign_with sign_message a key payload w = (P.adapter a).sign_message key payload w
  sign_with sign_transaction a key payload w = (P.adapter a).sign_transaction key payload w
  sign_with sign_digest a key payload w = digested (P.adapter a).sign_digest key payload w

  abbrev pub event_of : Text → Operation → Opened → Text → WalletSignedEvent
  event_of name op o addr = record {
    wallet = name;
    chain = o.descriptor.chain;
    operation = op;
    address = addr;
  }

  abbrev pub committed :
      WalletSignedEvent
      → List WalletSignedEvent
      → Result Text × P.W
      → Result (Text × Text) × Session
  committed event events (ok signature, w) =
      (ok (event.address, signature), record { outside = w; events = event ∷ events })
  committed event events (threw e, w) = (threw e, record { outside = w; events = events })

  module _ (name : Text) (op : Operation) (payload : Text) (events : List WalletSignedEvent) where
    abbrev pub sign_loaded : Opened → Result (Text × P.K) × P.W → Result (Text × Text) × Session
    sign_loaded o (ok (addr, key), w) =
        committed (event_of name op o addr) events (sign_with op o.adapter key payload w)
    sign_loaded o (threw e, w) = (threw e, record { outside = w; events = events })

    abbrev pub sign_opened : Result Opened × P.W → Result (Text × Text) × Session
    sign_opened (ok o, w) = sign_loaded o ((P.adapter o.adapter).load_key o.source w)
    sign_opened (threw e, w) = (threw e, record { outside = w; events = events })

  -- `signMessage`, `signTransaction` and `signDigest` are `sign` with their operation.
  unfoldable pub sign :
      WalletRuntime → Text → Operation → Text → Session → Result (Text × Text) × Session
  sign r name op payload s = sign_opened name op payload s.events (begin_operation r name s.outside)

-- The check of one event.
pub data Verdict : Type 0 where
  agrees not_configured other_chain : Verdict

unfoldable pub find_info : Text → List WalletInfo → Option WalletInfo
find_info name [] = none
find_info name (info ∷ infos) = if text_eq info.name name then some info else find_info name infos

abbrev pub verdict : WalletSignedEvent → Option WalletInfo → Verdict
verdict event none = not_configured
verdict event (some info) = if text_eq info.chain event.chain then agrees else other_chain

unfoldable pub check_signed : WalletRuntime → WalletSignedEvent → Verdict
check_signed r event = verdict event (find_info event.wallet (list r))
