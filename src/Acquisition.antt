-- ===== src/Acquisition.antt =====
-- dsh-tool-acquisition: what may be fetched, the pipeline that fetches it, and its clients.
pub mod Texts
pub mod Hosts
pub mod Addresses
pub mod FetchTarget
pub mod Store
pub mod Mime
pub mod Redact
pub mod Extension
pub mod Sniff
pub mod Selection
pub mod Number
pub mod Bencode
pub mod Torrent
pub mod Magnet
pub mod PathMappings
pub mod Acquire
pub mod Client
pub mod Qbittorrent
pub mod Transmission
pub mod Backends
mod Tests
