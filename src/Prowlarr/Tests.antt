-- ===== src/Prowlarr/Tests.antt =====
-- The table of links at concrete inputs.
use deepseek_harness_web3_ag.Prelude.{refl, none, some, [], ◌∷◌, codes, arith}
use deepseek_harness_web3_ag.Prelude.Maps.{Dict, get}
use deepseek_harness_web3_ag.Prowlarr.Links.{ReleaseLinks, store_release_links, take_release_links}
use deepseek_harness_web3_ag.Prowlarr.Links.Keeps.{Kept, store_release_links-Kept}

abbrev links : ReleaseLinks
links = record { download_url = some (codes "http://x/1"); magnet_url = none }

abbrev table : Dict ReleaseLinks
table = (codes "pl_1", links) ∷ []

store_release_links-Kept_example :
    Kept (codes "pl_2") links table (store_release_links (codes "pl_2") links table)
unfolding take_release_links get
store_release_links-Kept_example =
    store_release_links-Kept (codes "pl_2") links table (refl, tt) (omega arith) refl
