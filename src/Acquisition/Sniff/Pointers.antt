-- ===== src/Acquisition/Sniff/Pointers.antt =====
-- Files that only say where content is.
use deepseek_harness_web3_ag.Prelude.{
  starts_with, ◌≡◌, refl, false, List, ◌∷◌, ◌++◌, Text, codes, All, map,
}
use deepseek_harness_web3_ag.Acquisition.Texts.{split, ends_with}
use deepseek_harness_web3_ag.Acquisition.Mime.{media_kind, kind_of_base, base_of}
use deepseek_harness_web3_ag.Acquisition.Selection.{SelectionPolicy, accepts_mime}
use deepseek_harness_web3_ag.Acquisition.Sniff.{torrent_keys, sniff_bytes}

-- How torrents and magnet links begin.
abbrev pub pointer_starts : List Text
pointer_starts = codes "magnet:?" ∷ map (λ key. b'd' ∷ key) torrent_keys

-- Whatever a policy accepts, a file that begins like a torrent or a magnet link never counts as content.
pub accepts_mime-sniff_bytes :
    (policy : SelectionPolicy)
    → All
        (λ begin. (rest : Text) → accepts_mime policy (sniff_bytes (begin ++ rest)) ≡ false)
        pointer_starts
unfolding accepts_mime sniff_bytes starts_with media_kind kind_of_base base_of split ends_with
accepts_mime-sniff_bytes policy = (
  λ rest. refl,
  (
    λ rest. refl,
    (
      λ rest. refl,
      (
        λ rest. refl,
        (
          λ rest. refl,
          (
            λ rest. refl,
            (λ rest. refl, (λ rest. refl, (λ rest. refl, (λ rest. refl, (λ rest. refl, tt))))),
          ),
        ),
      ),
    ),
  ),
)
