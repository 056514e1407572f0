-- ===== src/Acquisition/Acquire/Tests/Scene.antt =====
-- A small world for the pipeline of dsh-tool-acquisition/src/acquire.ts: two clients and a clock.
use deepseek_harness_web3_ag.Prelude.{
  ℕ, ◌+◌, Bool, true, false, none, some, [], ◌∷◌, ◌++◌, Text, codes,
}
use deepseek_harness_web3_ag.Acquisition.Selection.{every}
use deepseek_harness_web3_ag.Acquisition.Store.{
  AcquireState, queued, missing, TorrentClientName, qbittorrent, transmission, Handle, absent,
}
use deepseek_harness_web3_ag.Acquisition.Acquire.Outside.{
  backend_error, AcquisitionError, acquisition, other, Answer, gave, broke, TorrentPayload,
  BackendStatus, Outside, World,
}
use deepseek_harness_web3_ag.Acquisition.Acquire.Status.{Library, AcquireServiceOptions}

-- The time, and which client holds the torrent.
pub record Small : Type 0 where
  pub time : ℕ
  pub in_qbittorrent : Bool
  pub in_transmission : Bool

abbrev pub has : Small → TorrentClientName → Bool
has w qbittorrent = w.in_qbittorrent
has w transmission = w.in_transmission

abbrev pub lost : AcquisitionError
lost = record {
  code = backend_error;
  permanent = false;
  causes = none ∷ some (codes "ECONNRESET") ∷ [];
}

-- qBittorrent queues and does not answer; Transmission answers.
abbrev pub small_submit : TorrentClientName → TorrentPayload → Text → Small → Answer Handle × Small
small_submit qbittorrent payload label w =
    (broke (acquisition lost), record w { in_qbittorrent = true })
small_submit transmission payload label w = (gave [], record w { in_transmission = true })

abbrev state_if : Bool → AcquireState
state_if true = queued
state_if false = missing

abbrev pub small_status : TorrentClientName → Handle → Small → Answer BackendStatus × Small
small_status name handle w = (
  gave (record { state = state_if (has w name); progress = 0; content_path = none; error = none }),
  w,
)

abbrev pub small : Outside
small = record {
  W = Small;
  submit = small_submit;
  status = small_status;
  fetch_direct = λ url dir hint w. (broke (other []), w);
  resolve = λ link dir hint w. (broke (other []), w);
  now = λ w. (w.time, w);
  save = λ w. (true, w);
  sleep = λ ms w. (true, record w { time = w.time + ms });
  walk = λ path w. [];
  size_of = λ w path. none;
  detect_mime = λ w path. [];
  is_directory = λ w path. none;
  read_file = λ path w. (broke (other []), w);
  unlink = λ path w. w;
  import_files = λ paths dir root w. (gave paths, w);
}

abbrev pub library : Library
library = record {
  join = λ parts. [];
  dirname = λ path. path;
  sha256_hex = λ text. text;
  xt = λ uri. some ((codes "urn:btih:" ++ hash) ∷ []);
  dn = λ uri. none;
  url_name = λ url. none;
  describe_url = λ url. url;
  safe_filename = λ name. name;
  excluded = λ name. false;
  utf8_of = λ b. b;
  sha1_hex = λ b. b;
}
  where
    hash : Text
    hash = codes "0123456789abcdef0123456789ABCDEF01234567"

abbrev pub options : AcquireServiceOptions
options = record {
  torrent_clients = qbittorrent ∷ transmission ∷ [];
  qbittorrent_url = some (codes "http://q");
  transmission_url = some (codes "http://t");
  download_dir = codes "/d";
  selection = record {
    accept = codes "*" ∷ [];
    reject = [];
    min_size = 0;
    max_size = 0;
    mode = every;
    max_files = 5;
  };
  poll_interval_ms = 100;
  default_wait_ms = 250;
  max_wait_ms = 1000;
}

abbrev pub start : World small
start = record {
  outside = record { time = 7; in_qbittorrent = false; in_transmission = false };
  store = absent;
}

abbrev pub payload : TorrentPayload
payload = record { magnet = some (codes "magnet:?xt"); torrent = none; info_hash = none }
