-- ===== src/Acquisition/Backends/Tests.antt =====
-- A qBittorrent that refuses every torrent, and a Transmission that is not running.
use deepseek_harness_web3_ag.Prelude.{◌≡◌, refl, ◌⊎◌, Bool, true, false, none, some, [], ◌∷◌, codes}
use deepseek_harness_web3_ag.Acquisition.Store.{qbittorrent, transmission}
use deepseek_harness_web3_ag.Acquisition.Magnet.{magnet_info_hash}
use deepseek_harness_web3_ag.Acquisition.Acquire.Outside.{
  backend_error, AcquisitionError, acquisition, broke, TorrentPayload,
}
use deepseek_harness_web3_ag.Acquisition.Acquire.Status.{Library}
use deepseek_harness_web3_ag.Acquisition.Client.{fault}
use deepseek_harness_web3_ag.Acquisition.Client.Clean.{is_definite}
use deepseek_harness_web3_ag.Acquisition.Qbittorrent.Protocol.{
  QbittorrentOptions, Server, responded,
}
use deepseek_harness_web3_ag.Acquisition.Transmission.{TransmissionOptions, Daemon, unanswered}
use deepseek_harness_web3_ag.Acquisition.Transmission as T
use deepseek_harness_web3_ag.Acquisition.Backends.{Servers, submit_to, held, submit_to_refuses}

abbrev server : Server
server = record {
  W = Bool;
  fetch = λ request w. (
    responded
        (record { status = 415; set_cookies = []; set_cookie = none; body = none; json = none }),
    w,
  );
}

abbrev daemon : Daemon
daemon = record {
  W = Bool;
  fetch = λ session method w. (unanswered (some (codes "ECONNREFUSED") ∷ []), w);
}

abbrev q_options : QbittorrentOptions
q_options = record {
  username = [];
  password = [];
  category = [];
  save_path = [];
  path_mappings = [];
}

abbrev t_options : TransmissionOptions
t_options = record { download_dir = []; labels = true; path_mappings = [] }

abbrev library : Library
library = record {
  join = λ parts. [];
  dirname = λ path. path;
  sha256_hex = λ text. text;
  xt = λ uri. none;
  dn = λ uri. none;
  url_name = λ url. none;
  describe_url = λ url. url;
  safe_filename = λ name. name;
  excluded = λ name. false;
  utf8_of = λ b. b;
  sha1_hex = λ b. b;
}

abbrev servers : Servers server daemon q_options t_options library
servers = record { q = true; t = false }

abbrev payload : TorrentPayload
payload = record { magnet = some (codes "magnet:?xt"); torrent = none; info_hash = none }

refused_run :
    (submit_to server daemon q_options t_options library transmission payload (codes "t") servers).0
    ≡ broke (fault backend_error false (some (codes "ECONNREFUSED") ∷ []))
unfolding submit_to T.submit T.rpc magnet_info_hash
refused_run = refl

submit_to_refuses_example :
    (held server daemon q_options t_options library
        (λ w. w)
        (λ w. w)
        (submit_to server daemon q_options t_options library transmission payload
          (codes "t")
          servers).1
        qbittorrent
      ≡ true)
    × (e : AcquisitionError) × (fault backend_error false (some (codes "ECONNREFUSED") ∷ [])
        ≡ acquisition e)
    × ((is_definite e ≡ false)
        ⊎ (held server daemon q_options t_options library
              (λ w. w)
              (λ w. w)
              (submit_to server daemon q_options t_options library transmission payload
                (codes "t")
                servers).1
              transmission
            ≡ false))
submit_to_refuses_example =
    submit_to_refuses server daemon q_options t_options library (λ w. w) (λ w. w) transmission
      qbittorrent payload (codes "t") servers
      (fault backend_error false (some (codes "ECONNREFUSED") ∷ []))
      (record {
        logging_in = λ user password w. refl;
        rejecting = λ cookie form w r e h. refl;
        unsent = λ cookie form w c e h. refl;
      })
      (record {
        rejecting = λ session arguments w r e h. refl;
        unsent = λ session arguments w c e h. refl;
      })
      (λ e. cc e) refused_run
