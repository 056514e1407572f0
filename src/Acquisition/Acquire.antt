-- ===== src/Acquisition/Acquire.antt =====
-- dsh-tool-acquisition/src/acquire.ts: the pipeline from a submitted source to files in the workspace.
pub mod Outside
pub mod Status
pub mod Clients
pub mod Poll
pub mod Stays
pub mod Tracked
pub mod Placed
pub mod Once
pub mod Ends
pub mod Deadline
pub mod Torrents
pub mod Fetched
pub mod Submit
pub mod Check
pub mod Keeps
pub mod Identities
pub mod Replays
mod Tests
