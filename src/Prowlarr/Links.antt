-- ===== src/Prowlarr/Links.antt =====
-- dsh-tool-prowlarr/src/links.ts: the table from short references to the links of releases. The random
-- reference is an argument.
pub mod Keeps
use deepseek_harness_web3_ag.Prelude.{
  ℕ, ◌/◌, true, false, Bool, Option, List, [], ◌∷◌, Text, ltb, leb, length, if◌then◌else◌,
}
use deepseek_harness_web3_ag.Prelude.Maps.{Dict, get, insert, erase, keys}

pub record ReleaseLinks : Type 0 where
  pub download_url : Option Text
  pub magnet_url : Option Text

abbrev pub max_link_refs : ℕ
max_link_refs = 1000

-- The loop over the keys, oldest first.
unfoldable pub drop_oldest : List Text → Dict ReleaseLinks → Dict ReleaseLinks
drop_oldest [] table = table
drop_oldest (key ∷ ks) table = elim (leb (length table) (max_link_refs / 2)) [
  | true ↦ table
  | false ↦ drop_oldest ks (erase key table)
]

unfoldable pub store_release_links : Text → ReleaseLinks → Dict ReleaseLinks → Dict ReleaseLinks
store_release_links ref links table =
    let stored = insert ref links table in
    if ltb max_link_refs (length stored) then drop_oldest (keys stored) stored else stored

unfoldable pub take_release_links : Text → Dict ReleaseLinks → Option ReleaseLinks
take_release_links ref table = get ref table
