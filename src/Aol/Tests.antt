-- ===== src/Aol/Tests.antt =====
-- The key caches at concrete inputs.
use deepseek_harness_web3_ag.Prelude.{ℕ, ◌+◌, ◌≤◌, refl, [], codes}
use deepseek_harness_web3_ag.Prelude.Maps.{get, insert}
use deepseek_harness_web3_ag.Aol.KeyCache.{enter, fetched}
use deepseek_harness_web3_ag.Aol.KeyCache.Single.{get_or_fetch_once}
use deepseek_harness_web3_ag.Aol.KeyCache.World.{
  World, start, place, Step, here, next, count, count_fills,
}

abbrev two_callers : World ℕ
two_callers =
    let w = place (codes "k") (enter (codes "k") start.cache) start in
    place (codes "k") (enter (codes "k") w.cache) w

abbrev answered : World ℕ
answered = record two_callers { cache = fetched 0 (codes "k") 7 two_callers.cache; fetching = [] }

get_or_fetch_once_example :
    (count_fills (codes "k") answered.fetching ≤ 1)
    × (count (codes "k") answered.started
        ≤ count (codes "k") answered.failures + answered.clears + 1)
unfolding enter get insert
get_or_fetch_once_example = get_or_fetch_once {V = ℕ} (codes "k") (
    next (next (next here (Step.arrive (codes "k"))) (Step.arrive (codes "k")))
      (Step.answer [] [] 0 (codes "k") 7 refl))
