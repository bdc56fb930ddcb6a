-- ===== src/Gateway/Costs/Tests.antt =====
-- The percentile of concrete latencies.
use gen_xtaxi_ai.Common.{ℕ, ◌≡◌, refl, List, [], ◌∷◌}
use gen_xtaxi_ai.Common.Sort.{sort}
use gen_xtaxi_ai.Gateway.Costs.{p50, p95, percentile}
use gen_xtaxi_ai.Gateway.Costs.Laws.{IsPercentile, percentile_lem}

abbrev latencies : List ℕ
latencies = 300 ∷ 100 ∷ 200 ∷ []

percentile_lem_example :
    IsPercentile 50 (400 ∷ latencies) (percentile (400 ∷ latencies) p50)
    × IsPercentile 95 (400 ∷ latencies) (percentile (400 ∷ latencies) p95)
percentile_lem_example = percentile_lem 400 latencies

median : percentile latencies p50 ≡ 200
unfolding percentile sort
median = refl
