-- ===== src/Acquisition/Qbittorrent/Tests.antt =====
-- A qBittorrent that logs in once its session is gone, and refuses the torrent; and mapped paths.
use deepseek_harness_web3_ag.Prelude.{
  ℕ, ◌≤◌, ◌≡◌, refl, ◌⊎◌, Bool, true, false, Option, none, some, [], ◌∷◌, ◌++◌, Text, codes, length,
  drop, starts_with, All,
}
use deepseek_harness_web3_ag.Acquisition.Texts.{split}
use deepseek_harness_web3_ag.Acquisition.Bencode.{break_at}
use deepseek_harness_web3_ag.Acquisition.Magnet.{magnet_info_hash}
use deepseek_harness_web3_ag.Acquisition.PathMappings.{
  Mapping, with_slashes, read_mapping, covers, best_of, apply_path_mappings,
}
use deepseek_harness_web3_ag.Acquisition.PathMappings.Longest.{
  Among, cover_length, apply_path_mappings_longest,
}
use deepseek_harness_web3_ag.Acquisition.Acquire.Outside.{
  AcquisitionError, acquisition, broke, TorrentPayload,
}
use deepseek_harness_web3_ag.Acquisition.Acquire.Status.{Library}
use deepseek_harness_web3_ag.Acquisition.Client.Clean.{is_definite}
use deepseek_harness_web3_ag.Acquisition.Qbittorrent.{Client, submit, call, login, refusal}
use deepseek_harness_web3_ag.Acquisition.Qbittorrent.Protocol.{
  QbittorrentOptions, Server, Response, Fetched, responded, unanswered, Request, auth_login,
  authorized, torrents_add, torrents_info, app_version, last_sid,
}
use deepseek_harness_web3_ag.Acquisition.Qbittorrent.Refused.{Queues, submit_fails_cleanly}

abbrev answer : ℕ → Text → Response
answer status body = record {
  status = status;
  set_cookies = [];
  set_cookie = some (codes "SID=abc; path=/");
  body = some body;
  json = none;
}

abbrev by_cookie : Option Text → Response
by_cookie none = answer 403 []
by_cookie (some sid) = answer 415 []

-- The world tells whether the torrent is there.
abbrev serve : Request → Bool → Fetched × Bool
serve (auth_login user password) w = (responded (answer 200 (codes "Ok.")), w)
serve (authorized cookie (torrents_add form)) w = (responded (by_cookie cookie), w)
serve (authorized cookie (torrents_info query)) w = (unanswered [], w)
serve (authorized cookie app_version) w = (unanswered [], w)

abbrev server : Server
server = record { W = Bool; fetch = serve }

abbrev options : QbittorrentOptions
options = record {
  username = codes "me";
  password = codes "pass";
  category = [];
  save_path = [];
  path_mappings = [];
}

abbrev library : Library
library = record {
  join = λ parts. [];
  dirname = λ path. path;
  sha256_hex = λ text. text;
  xt = λ uri. none;
  dn = λ uri. none;
  url_name = λ url. none;
  describe_url = λ url. url;
  safe_filename = λ name. name;
  excluded = λ name. false;
  utf8_of = λ b. b;
  sha1_hex = λ b. b;
}

abbrev stale : Client server options
stale = record { logged_in = true; cookie = none; outside = false }

abbrev payload : TorrentPayload
payload = record { magnet = some (codes "magnet:?xt"); torrent = none; info_hash = none }

server-Queues : Queues server (λ w. w)
server-Queues = record {
  logging_in = λ user password w. refl;
  rejecting = λ cookie form w r e refused. refl;
  unsent = λ cookie form w chain e definite. refl;
}

-- The first attempt meets 403, and the second one, with the new session, the refusal.
refused_run :
    (submit server options library payload (codes "t") stale).0
    ≡ broke (refusal server options (answer 415 []))
unfolding submit call login last_sid starts_with split magnet_info_hash
refused_run = refl

submit_fails_cleanly_example :
    (e : AcquisitionError) × (refusal server options (answer 415 []) ≡ acquisition e)
    × ((is_definite e ≡ false)
        ⊎ ((submit server options library payload (codes "t") stale).1.outside ≡ false))
submit_fails_cleanly_example =
    submit_fails_cleanly server (λ w. w) options library payload (codes "t") stale
      (refusal server options (answer 415 [])) server-Queues refused_run

abbrev some_path : Text
some_path = codes "D:\\tv\\x.mkv"

apply_path_mappings_longest_example :
    (All
        (λ text. cover_length (with_slashes some_path) text ≡ 0)
        (codes "D:=/a" ∷ codes "D:\\tv\\=/b/" ∷ [])
      × (apply_path_mappings some_path (codes "D:=/a" ∷ codes "D:\\tv\\=/b/" ∷ []) ≡ some_path))
    ⊎ ((m : Mapping) × Among (with_slashes some_path) m (codes "D:=/a" ∷ codes "D:\\tv\\=/b/" ∷ [])
        × All
            (λ text. cover_length (with_slashes some_path) text ≤ length m.remote)
            (codes "D:=/a" ∷ codes "D:\\tv\\=/b/" ∷ [])
        × (apply_path_mappings some_path (codes "D:=/a" ∷ codes "D:\\tv\\=/b/" ∷ [])
            ≡ m.local ++ drop (length m.remote) (with_slashes some_path)))
apply_path_mappings_longest_example =
    apply_path_mappings_longest some_path (codes "D:=/a" ∷ codes "D:\\tv\\=/b/" ∷ [])

mapped_run :
    apply_path_mappings some_path (codes "D:=/a" ∷ codes "D:\\tv\\=/b/" ∷ []) ≡ codes "/b/x.mkv"
unfolding apply_path_mappings best_of read_mapping covers break_at starts_with
mapped_run = refl
