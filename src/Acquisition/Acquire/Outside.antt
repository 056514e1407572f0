-- ===== src/Acquisition/Acquire/Outside.antt =====
-- What the pipeline of dsh-tool-acquisition/src/acquire.ts talks to: the torrent backends, the fetches, the
-- file system and the clock; and the steps of its methods over them and the handle store.
use deepseek_harness_web3_ag.Prelude.{
  ℕ, Bool, false, true, Option, none, some, List, [], ◌∷◌, Text, codes,
}
use deepseek_harness_web3_ag.Acquisition.Store.{
  AcquireState, TorrentClientName, Handle, StoredAcquisition, File, put, find, find_by_content_key,
}

pub data AcquisitionErrorCode : Type 0 where
  not_configured invalid_request unsafe_url fetch_error too_large : AcquisitionErrorCode
  invalid_torrent no_backend backend_error backend_auth : AcquisitionErrorCode
  prowlarr_auth not_found unsupported select_rejected : AcquisitionErrorCode

-- `causes` follows the chain of causes from the error itself, up to one that was seen before: the system's
-- code of each, `none` where it has none. The messages are left out.
pub record AcquisitionError : Type 0 where
  pub code : AcquisitionErrorCode
  pub permanent : Bool
  pub causes : List (Option Text)

-- `other` is any error that is no `AcquisitionError`.
pub data Thrown : Type 0 where
  acquisition : AcquisitionError → Thrown
  other : Text → Thrown

-- `stuck`: the fuel of a loop ran out.
pub data Result (A : Type 0) : Type 0 where
  ok : A → Result A
  threw : Thrown → Result A
  stuck : Result A

-- The error of a write of the store that the file system does not take.
abbrev pub write_failed : Thrown
write_failed = other (codes "save")

-- What a call to the outside gives.
pub data Answer (A : Type 0) : Type 0 where
  gave : A → Answer A
  broke : Thrown → Answer A

pub record TorrentPayload : Type 0 where
  pub magnet : Option Text
  pub torrent : Option Text
  pub info_hash : Option Text

pub record BackendStatus : Type 0 where
  pub state : AcquireState
  pub progress : ℕ
  pub content_path : Option Text
  pub error : Option Text

pub record FetchedFile : Type 0 where
  pub path : Text
  pub mime : Text
  pub content_type : Text
  pub size : ℕ

-- What a fetch gives, and what a Prowlarr link leads to.
pub data FetchOutcome : Type 0 where
  file : FetchedFile → FetchOutcome
  magnet_link : Text → FetchOutcome

pub data Resolved : Type 0 where
  magnet_link redirect : Text → Resolved
  file : FetchedFile → Resolved

-- The world outside, in a state of type `W`. A call may change it; `sleep` tells whether it ran to its
-- end, and `save` whether the file system took a write of the store.
pub record Outside : Type 1 where
  pub W : Type 0
  pub submit : TorrentClientName → TorrentPayload → Text → W → Answer Handle × W
  pub status : TorrentClientName → Handle → W → Answer BackendStatus × W
  pub fetch_direct : Text → Text → Text → W → Answer FetchOutcome × W
  pub resolve : Text → Text → Text → W → Answer Resolved × W
  pub now : W → ℕ × W
  pub save : W → Bool × W
  pub sleep : ℕ → W → Bool × W
  pub walk : Text → W → List Text
  pub size_of : W → Text → Option ℕ
  pub detect_mime : W → Text → Text
  pub is_directory : W → Text → Option Bool
  pub read_file : Text → W → Answer Text × W
  pub unlink : Text → W → W
  pub import_files : List Text → Text → Option Text → W → Answer (List Text) × W

module _ (O : Outside) where
  pub record World : Type 0 where
    pub outside : O.W
    pub store : File

  abbrev pub Action : Type 0 → Type 0
  Action A = World → Result A × World

abbrev pub unreadable_store : Thrown
unreadable_store =
    acquisition (record { code = backend_error; permanent = false; causes = none ∷ [] })

module _ {O : Outside} where
  -- An `await` that threw skips what follows.
  abbrev pub continue : {A B : Type 0} → Result A × World O → (A → Action O B) → Result B × World O
  continue (ok a, s) k = k a s
  continue (threw e, s) k = (threw e, s)
  continue (stuck, s) k = (stuck, s)

  infixl 5 ◌>>=◌ ◌>>◌
  abbrev pub ◌>>=◌ : {A B : Type 0} → Action O A → (A → Action O B) → Action O B
  ◌>>=◌ m k s = continue (m s) k

  abbrev pub ◌>>◌ : {A B : Type 0} → Action O A → Action O B → Action O B
  ◌>>◌ m k s = continue (m s) (λ _. k)

  abbrev pub pure : {A : Type 0} → A → Action O A
  pure a s = (ok a, s)

  abbrev pub throw : {A : Type 0} → Thrown → Action O A
  throw e s = (threw e, s)

  -- A call to the outside.
  abbrev back : {A : Type 0} → File → Answer A × O.W → Result A × World O
  back f (gave a, w) = (ok a, record { outside = w; store = f })
  back f (broke e, w) = (threw e, record { outside = w; store = f })

  abbrev pub call : {A : Type 0} → (O.W → Answer A × O.W) → Action O A
  call f s = back s.store (f s.outside)

  abbrev pub read_clock : Action O ℕ
  read_clock s = let (t, w) = O.now s.outside in (ok t, record s { outside = w })

  -- `save` of the store: the renaming puts the new file in its place at once, and where a step before it
  -- throws the old file stays.
  abbrev pub saved : World O → File → Bool × O.W → Result (Unit {0}) × World O
  saved s f (true, w) = (ok tt, record { outside = w; store = f })
  saved s f (false, w) = (threw write_failed, record s { outside = w })

  -- The store: a file that cannot be read throws, and nothing is written.
  abbrev stored : World O → Option File → Result (Unit {0}) × World O
  stored s none = (threw unreadable_store, s)
  stored s (some f) = saved s f (O.save s.outside)

  abbrev pub told : {A : Type 0} → World O → Option A → Result A × World O
  told s none = (threw unreadable_store, s)
  told s (some a) = (ok a, s)

  abbrev pub put_record : StoredAcquisition → Action O (Unit {0})
  put_record r s = stored s (put r s.store)

  abbrev pub get_record : Text → Action O (Option StoredAcquisition)
  get_record id s = told s (find id s.store)

  abbrev pub look_up : Text → Action O (Option StoredAcquisition)
  look_up key s = told s (find_by_content_key key s.store)
