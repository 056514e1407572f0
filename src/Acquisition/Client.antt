-- ===== src/Acquisition/Client.antt =====
-- What the clients of dsh-tool-acquisition/src/qbittorrent.ts and dsh-tool-acquisition/src/transmission.ts
-- share: their errors, and the torrent that a submission hands over.
pub mod Clean
use deepseek_harness_web3_ag.Prelude.{Bool, true, Option, none, some, List, [], ◌∷◌, Text}
use deepseek_harness_web3_ag.Acquisition.Torrent.{TorrentMeta, parse_torrent}
use deepseek_harness_web3_ag.Acquisition.Magnet.{magnet_info_hash}
use deepseek_harness_web3_ag.Acquisition.Acquire.Outside.{
  AcquisitionErrorCode, invalid_request, invalid_torrent, AcquisitionError, Thrown, acquisition,
  Answer, gave, broke,
}
use deepseek_harness_web3_ag.Acquisition.Acquire.Status.{Library}

-- An error over the chain of causes behind it.
abbrev pub error_of : AcquisitionErrorCode → Bool → List (Option Text) → AcquisitionError
error_of code permanent chain = record { code = code; permanent = permanent; causes = none ∷ chain }

abbrev pub fault : AcquisitionErrorCode → Bool → List (Option Text) → Thrown
fault code permanent chain = acquisition (error_of code permanent chain)

abbrev pub or_empty : Option Text → Text
or_empty none = []
or_empty (some t) = t

abbrev pub unless_empty : Text → Option Text
unless_empty [] = none
unless_empty (c ∷ t) = some (c ∷ t)

-- The bytes of a torrent, or a magnet link.
pub data Added : Type 0 where
  torrents urls : Text → Added

-- `(infoHash === undefined || infoHash === '') && meta.infoHash !== ''`
abbrev pub or_meta : Option Text → Text → Option Text
or_meta (some (c ∷ hash)) h = some (c ∷ hash)
or_meta none h = unless_empty h
or_meta (some []) [] = some []
or_meta (some []) (c ∷ h) = some (c ∷ h)

abbrev pub with_meta : Option Text → Text → Option TorrentMeta → Answer (Option Text × Added)
with_meta hash data_ none = broke (fault invalid_torrent true [])
with_meta hash data_ (some meta) = gave (or_meta hash meta.info_hash, torrents data_)

module _ (library : Library) where
  abbrev pub or_magnet : Option Text → Text → Option Text
  or_magnet none uri = magnet_info_hash library.xt uri
  or_magnet (some hash) uri = some hash

  -- The info-hash and what is added.
  abbrev pub prepare : Option Text → Option Text → Option Text → Answer (Option Text × Added)
  prepare hash (some data_) magnet =
      with_meta hash data_ (parse_torrent library.utf8_of library.sha1_hex data_)
  prepare hash none (some uri) = gave (or_magnet hash uri, urls uri)
  prepare hash none none = broke (fault invalid_request true [])
