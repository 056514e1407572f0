-- ===== src/Acquisition/Tests.antt =====
-- Fetch targets at concrete inputs.
use deepseek_harness_web3_ag.Prelude.{
  ℕ, ◌+◌, ◌*◌, ◌≡◌, Bool, take, All, refl, ◌↔◌, ◌⊎◌, true, false, none, some, Option, List, [], ◌∷◌,
  Text, codes, arith, ◌++◌,
}
use deepseek_harness_web3_ag.Prelude.Maps.{Dict, get}
use deepseek_harness_web3_ag.Prelude.Decimal.{show}
use deepseek_harness_web3_ag.Acquisition.Store.{
  completed, queued, StoredAcquisition, client, qbittorrent, holds, load, find_by_content_key,
}
use deepseek_harness_web3_ag.Acquisition.Store.Live.{Told, find_by_content_key-Told}
use deepseek_harness_web3_ag.Acquisition.Selection.{
  every, largest, SelectionPolicy, AcquiredFile, select_files, accepts_mime, accepts_name,
}
use deepseek_harness_web3_ag.Acquisition.Selection.Chosen.{Selects, select_files_every}
use deepseek_harness_web3_ag.Acquisition.Texts.{split}
use deepseek_harness_web3_ag.Acquisition.Mime.{media_kind, kind_of_base, base_of}
use deepseek_harness_web3_ag.Acquisition.Extension.{mime_from_extension}
use deepseek_harness_web3_ag.Acquisition.Sniff.{sniff_bytes}
use deepseek_harness_web3_ag.Acquisition.Sniff.Pointers.{pointer_starts, accepts_mime-sniff_bytes}
use deepseek_harness_web3_ag.Acquisition.Hosts.{host_matches, bare, Named, host_matches_iff}
use deepseek_harness_web3_ag.Acquisition.Addresses.{
  ipv4_to_int, ipv4_is_public, ipv6_is_public, hextets_are_public, expand_ipv6, octet, in_cidr_v4,
}
use deepseek_harness_web3_ag.Acquisition.Addresses.V4.{IsPublic, ipv4_is_public_iff}
use deepseek_harness_web3_ag.Acquisition.Addresses.Mapped.{hextets_are_public_iff}
use deepseek_harness_web3_ag.Acquisition.FetchTarget.{
  Url, FetchTargetOptions, allowed, check_fetch_target, Acceptable, LeadsToPublic,
  check_fetch_target_iff,
}

host_matches_iff_example :
    (host_matches (codes "cdn.Example.org.") (codes "example.org" ∷ []) ≡ true)
    ↔ Named (codes "example.org" ∷ []) (bare (codes "cdn.Example.org."))
host_matches_iff_example = host_matches_iff (codes "cdn.Example.org.") (codes "example.org" ∷ [])

ipv4_is_public_iff_example :
    (ipv4_is_public (codes "172.20.1.9") ≡ true)
    ↔ ((n : ℕ) × (ipv4_to_int (codes "172.20.1.9") ≡ some n) × IsPublic n)
ipv4_is_public_iff_example = ipv4_is_public_iff (codes "172.20.1.9")

hextets_are_public_iff_example :
    (hextets_are_public (0 ∷ 0 ∷ 0 ∷ 0 ∷ 0 ∷ 0xffff ∷ 0x7f00 ∷ 1 ∷ []) ≡ true)
    ↔ IsPublic (0x7f00 * 65536 + 1)
hextets_are_public_iff_example = hextets_are_public_iff 0x7f00 1 (omega arith) (omega arith)

mapped_loopback : ipv6_is_public (codes "::ffff:127.0.0.1") ≡ false
unfolding ipv6_is_public expand_ipv6 ipv4_to_int octet hextets_are_public ipv4_is_public show
    in_cidr_v4
mapped_loopback = refl

global_address : ipv6_is_public (codes "2606:4700::1111") ≡ true
unfolding ipv6_is_public expand_ipv6 hextets_are_public
global_address = refl

abbrev names_only : Text → ℕ
names_only host = 0

abbrev resolver : Text → Option (List Text)
resolver host = some (codes "10.0.0.8" ∷ [])

abbrev target : Url
target = record { scheme = codes "https"; hostname = codes "intranet" }

abbrev options : FetchTargetOptions
options = record { allowed_hosts = []; allow_private = false; allowed_schemes = none }

check_fetch_target_iff_example :
    (check_fetch_target names_only resolver (some target) options ≡ allowed) ↔ (
      (url : Url) × (some target ≡ some url)
      × Acceptable names_only resolver options url
      × ((options.allow_private ≡ true) ⊎ LeadsToPublic names_only resolver url.hostname))
check_fetch_target_iff_example = check_fetch_target_iff names_only resolver (some target) options

abbrev stored : StoredAcquisition
stored = record {
  id = codes "acq_1";
  backend = client qbittorrent;
  handle = (codes "info_hash", codes "1") ∷ [];
  title = codes "a release";
  created_at = 5;
  updated_at = 6;
  state = completed;
  progress = 1000000;
  files = [];
  error = none;
  content_key = some (codes "torrent:1");
  aliases = [];
}

abbrev rerun : StoredAcquisition
rerun = record stored { id = codes "acq_2"; state = queued }

abbrev records : Dict StoredAcquisition
records = (codes "acq_1", stored) ∷ (codes "acq_2", rerun) ∷ []

find_by_content_key-Told_example :
    (found : Option StoredAcquisition) × (find_by_content_key (codes "torrent:1") (holds records)
      ≡ some found)
    × Told (codes "torrent:1") none records found
unfolding load
find_by_content_key-Told_example =
    find_by_content_key-Told (codes "torrent:1") (holds records) records refl

abbrev policy : SelectionPolicy
policy = record {
  accept = codes "*" ∷ [];
  reject = [];
  min_size = 10;
  max_size = 0;
  mode = every;
  max_files = 2;
}

abbrev nothing_excluded : Text → Bool
nothing_excluded name = false

abbrev sizes : Text → Option ℕ
sizes path = some 20

abbrev types : Text → Text
types path = codes "video/mp4"

abbrev files : List Text
files = codes "dir/a.mp4" ∷ codes "dir/b.mp4" ∷ codes "dir/c.mp4" ∷ []

select_files_every_example :
    (content : List AcquiredFile) × Selects nothing_excluded sizes types policy files content
    × (select_files nothing_excluded sizes types policy files ≡ take 2 content)
select_files_every_example =
    select_files_every nothing_excluded sizes types policy files refl (omega arith)

abbrev largest_policy : SelectionPolicy
largest_policy = record policy { mode = largest }

accepts_mime-sniff_bytes_example :
    All
      (λ begin. (rest : Text) → accepts_mime policy (sniff_bytes (begin ++ rest)) ≡ false)
      pointer_starts
accepts_mime-sniff_bytes_example = accepts_mime-sniff_bytes policy

torrent_name : accepts_name nothing_excluded policy (codes "dir.d/x.TORRENT") ≡ some false
unfolding accepts_name mime_from_extension get accepts_mime media_kind kind_of_base base_of split
torrent_name = refl

no_extension : accepts_name nothing_excluded policy (codes "dir.d/x") ≡ none
unfolding accepts_name mime_from_extension
no_extension = refl
