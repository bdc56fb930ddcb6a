-- ===== src/Insights/Zones.antt =====
-- pipeline/zone-aggregation.service.ts and pipeline/iso-week.ts. The embeddings of the gateway are a
-- parameter, and so is what the calendar says of a day: its year and the first day of a year. MongoDB
-- may give the groups of an aggregation in any order; here zones and aspects come as they first occur.
use gen_xtaxi_ai.Common.{
  ℕ, ◌+◌, ◌-◌, ◌*◌, ◌/◌, ◌%◌, String, str_eq, Bool, ◌&&◌, not, Option, none, some, List, [], ◌∷◌,
  map, take, keep, length, ltb, leb, ◌==◌, if◌then◌else◌,
}
use gen_xtaxi_ai.Common.Double.{plus, leb_number}
use gen_xtaxi_ai.Common.Int.{pos}
use gen_xtaxi_ai.Common.Number.{Fraction, Number, finite}
use gen_xtaxi_ai.Common.Text.{Text}
use gen_xtaxi_ai.Common.Double.{divide}
use gen_xtaxi_ai.Insights.{AspectResult, Review, limit}
use gen_xtaxi_ai.Insights.Aspects.{number}
use gen_xtaxi_ai.Insights.Clusters.{Vector, Clusterable, Cluster, greedy_cluster}
use gen_xtaxi_ai.Insights.Groups.{grouped, lookup, or_empty}
use gen_xtaxi_ai.Insights.Ingest.{is_set}
use gen_xtaxi_ai.Insights.Summaries.{round2, total}
use mathlib.Core.List.{flat_map}

pub record ComplaintCluster : Type 0 where
  pub label : Text
  pub size : ℕ
  pub representative : Text

pub record IsoWeek : Type 0 where
  pub year : ℕ
  pub week : ℕ

pub record ZoneInsight : Type 0 where
  pub zone_id : String
  pub week : IsoWeek
  pub aspect : String
  pub avg_sentiment : Number
  pub volume : ℕ
  pub clusters : List ComplaintCluster
  pub computed_at : ℕ

-- `getUTCDay`, of days since 1970-01-01, with 7 for Sunday.
abbrev pub day_num : ℕ → ℕ
day_num day = if (day + 4) % 7 == 0 then 7 else (day + 4) % 7

-- The week of the local day `day`.
unfoldable pub iso_week : (ℕ → ℕ) → (ℕ → ℕ) → ℕ → IsoWeek
iso_week utc_full_year first_of_january day =
    let thursday = day + 4 - day_num day in
    let year = utc_full_year thursday in
    record { year = year; week = (thursday - first_of_january year + 7) / 7 }

abbrev same_week : IsoWeek → IsoWeek → Bool
same_week a b = (a.year == b.year) && (a.week == b.week)

abbrev zone_of : Option String → String
zone_of none = "unknown"
zone_of (some zone) = zone

abbrev same_row : ZoneInsight → ZoneInsight → Bool
same_row a b = str_eq a.zone_id b.zone_id && (same_week a.week b.week && str_eq a.aspect b.aspect)

-- `updateOne({ zoneId, week, aspect }, { $set }, { upsert: true })`
unfoldable pub upsert : ZoneInsight → List ZoneInsight → List ZoneInsight
upsert z [] = z ∷ []
upsert z (e ∷ es) = let rest = upsert z es in if same_row e z then z ∷ es else e ∷ rest

-- A zone and an aspect with its mentions' sentiments.
pub record Row : Type 0 where
  pub zone_id : String
  pub aspect : String
  pub sentiments : List Number

abbrev mentions_of : Review → List (String × AspectResult)
mentions_of v = map (λ a. (zone_of v.zone_id, a)) v.aspects

-- The double nearest to 0.6.
abbrev pub cluster_threshold : Number
cluster_threshold = finite (record { num = pos 5404319552844595; below = 9007199254740991 })

abbrev complaint : List Clusterable → ComplaintCluster
complaint [] = record { label = []; size = 0; representative = [] }
complaint (m ∷ ms) = record {
  label = take 60 m.text;
  size = length (m ∷ ms);
  representative = m.text;
}

abbrev with_vectors : List Text → List Vector → List Clusterable
with_vectors (t ∷ ts) (v ∷ vs) = record { text = t; vector = v } ∷ with_vectors ts vs
with_vectors _ _ = []

module _ {S : Type 0} (fl : Fraction → Number) (sqrt : Number → Number)
    (embed : List Text → S → List Vector × S) where
  unfoldable pub rows : ℕ → List Review → List Row
  unfolding grouped flat_map
  rows since reviews =
      flat_map
        (λ z.
          map (λ e. record { zone_id = z.0; aspect = e.0; sentiments = e.1 })
            (grouped (λ a. a.aspect) (λ a. a.sentiment) z.1 []))
        (grouped (λ m. m.0) (λ m. m.1)
          (flat_map mentions_of
            (keep (λ v. not v.excluded && (v.aspects_processed && leb since v.created_at)) reviews))
          [])

  abbrev complaints : List Cluster → List ComplaintCluster
  complaints clusters =
      map (λ c. complaint c.members) (take 5 (keep (λ c. leb 2 (length c.members)) clusters))

  -- The clusters of one zone, or nothing where there are too few texts or the vectors are not of them.
  unfoldable pub zone_clusters : List Text → S → Option (List ComplaintCluster) × S
  unfolding greedy_cluster
  zone_clusters texts s =
      if ltb (length texts) 3
      then (none, s)
      else let (vectors, after) = embed texts s in
        if length vectors == length texts
        then (
          some (complaints (greedy_cluster fl sqrt cluster_threshold (with_vectors texts vectors))),
          after,
        )
        else (none, after)

  abbrev entry :
      String
      → Option (List ComplaintCluster)
      → List (String × List ComplaintCluster)
      → List (String × List ComplaintCluster)
  entry zone none rest = rest
  entry zone (some cs) rest = (zone, cs) ∷ rest

  abbrev clusters_of : List (String × List Text) → S → List (String × List ComplaintCluster) × S
  clusters_of [] s = ([], s)
  clusters_of (z ∷ zs) s =
      let (found, after) = zone_clusters z.1 s in
      let (rest, last) = clusters_of zs after in (entry z.0 found rest, last)

  unfoldable pub build_clusters : ℕ → List Review → S → List (String × List ComplaintCluster) × S
  unfolding grouped zone_clusters leb_number
  build_clusters since reviews s =
      clusters_of
        (grouped (λ v. zone_of v.zone_id) (λ v. v.text)
          (limit 500 (
            keep
              (λ v.
                not v.excluded
                && (leb since v.created_at
                    && (leb_number v.rating (number (pos 2)) && is_set v.text)))
              reviews))
          [])
        s

  abbrev average : List Number → Number
  average ns = divide fl (total fl ns (number (pos 0))) (number (pos (length ns)))

  abbrev insight : IsoWeek → ℕ → List (String × List ComplaintCluster) → Row → ZoneInsight
  insight week now clusters r = record {
    zone_id = r.zone_id;
    week = week;
    aspect = r.aspect;
    avg_sentiment = round2 fl (average r.sentiments);
    volume = length r.sentiments;
    clusters = or_empty (lookup r.zone_id clusters);
    computed_at = now;
  }

  abbrev upserted : List ZoneInsight → List ZoneInsight → List ZoneInsight
  upserted [] zones = zones
  upserted (z ∷ zs) zones = upserted zs (upsert z zones)

  -- How many rows are written, the insights behind that, and the gateway's state.
  unfoldable pub aggregate_current_week :
      IsoWeek → ℕ → List Review → List ZoneInsight → S → ℕ × List ZoneInsight × S
  unfolding rows build_clusters upsert divide plus round2
  aggregate_current_week week now reviews zones s =
      let since = now - 7 * 86400000 in
      let found = rows since reviews in
      let (clusters, after) = build_clusters since reviews s in
      (length found, upserted (map (insight week now clusters) found) zones, after)
