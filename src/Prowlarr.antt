-- ===== src/Prowlarr.antt =====
-- dsh-tool-prowlarr: the search of releases.
pub mod Links
mod Tests
