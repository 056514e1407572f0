-- ===== src/Acquisition/Transmission/Tests.antt =====
-- A Transmission that asks for its session, and refuses the torrent; and one that is asked for no hash.
use deepseek_harness_web3_ag.Prelude.{
  ◌≡◌, refl, Bool, true, false, none, some, [], codes, text_eq, starts_with,
}
use deepseek_harness_web3_ag.Acquisition.Sniff.{includes}
use deepseek_harness_web3_ag.Acquisition.Magnet.{magnet_info_hash}
use deepseek_harness_web3_ag.Acquisition.Acquire.Outside.{backend_error, broke, TorrentPayload}
use deepseek_harness_web3_ag.Acquisition.Acquire.Status.{Library}
use deepseek_harness_web3_ag.Acquisition.Client.{fault}
use deepseek_harness_web3_ag.Acquisition.Transmission.{
  TransmissionOptions, Daemon, Client, Reply, Response, responded, submit, rpc, is_success,
}

abbrev reply : Reply
reply = record {
  result = codes "invalid argument";
  torrent_added = none;
  torrent_duplicate = none;
  torrents = [];
  version = none;
}

abbrev by_session : Bool → Response
by_session true = record { status = 200; session = none; json = some reply }
by_session false = record { status = 409; session = some (codes "s1"); json = none }

-- The world tells whether the torrent is there.
abbrev daemon : Daemon
daemon = record {
  W = Bool;
  fetch = λ session method w. (responded (by_session (text_eq session (codes "s1"))), w);
}

abbrev options : TransmissionOptions
options = record { download_dir = []; labels = true; path_mappings = [] }

abbrev library : Library
library = record {
  join = λ parts. [];
  dirname = λ path. path;
  sha256_hex = λ text. text;
  xt = λ uri. none;
  dn = λ uri. none;
  url_name = λ url. none;
  describe_url = λ url. url;
  safe_filename = λ name. name;
  excluded = λ name. false;
  utf8_of = λ b. b;
  sha1_hex = λ b. b;
}

abbrev fresh : Client daemon
fresh = record { session_id = []; outside = false }

abbrev payload : TorrentPayload
payload = record { magnet = some (codes "magnet:?xt"); torrent = none; info_hash = none }

refused_run :
    (submit daemon options library payload (codes "t") fresh).0
    ≡ broke (fault backend_error true [])
unfolding submit rpc is_success includes starts_with magnet_info_hash
refused_run = refl
