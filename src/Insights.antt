-- ===== src/Insights.antt =====
-- insights-service: the reviews, summaries and insights of its schemas, the taxonomy of
-- pipeline/aspects.ts and what is shared by the children. Times are in milliseconds since 1970.
pub mod Source
pub mod Client
pub mod Ingest
pub mod Filter
pub mod Groups
pub mod Aspects
pub mod Summaries
pub mod Clusters
pub mod Zones
pub mod Serving
pub mod Scheduler
mod Tests
use gen_xtaxi_ai.Common.{
  ℕ, zero, suc, String, str_eq, Bool, true, false, Option, none, some, List, [], ◌∷◌, ◌++◌, take,
  if◌then◌else◌,
}
use gen_xtaxi_ai.Common.Number.{Number}
use gen_xtaxi_ai.Common.Text.{Text}

pub data SubjectType : Type 0 where
  driver rider : SubjectType

abbrev pub same_type : SubjectType → SubjectType → Bool
same_type driver driver = true
same_type rider rider = true
same_type _ _ = false

pub record RawReview : Type 0 where
  pub ride_id : String
  pub author_id : String
  pub subject_id : String
  pub subject_type : SubjectType
  pub rating : Number
  pub text : Text
  pub zone_id : Option String
  pub created_at : ℕ

abbrev pub aspects : List String
aspects =
    "punctuality" ∷ "driving_safety" ∷ "cleanliness" ∷ "communication" ∷ "vehicle_condition"
    ∷ "route_efficiency" ∷ "pricing_fairness" ∷ []

pub record AspectResult : Type 0 where
  pub aspect : String
  pub sentiment : Number
  pub evidence_span : Option Text

pub data ExcludedReason : Type 0 where
  toxicity review_bombing : ExcludedReason

pub record Review : Type 0 where
  pub ride_id : String
  pub author_id : String
  pub subject_id : String
  pub subject_type : SubjectType
  pub rating : Number
  pub text : Text
  pub lang : String
  pub created_at : ℕ
  pub aspects : List AspectResult
  pub aspects_processed : Bool
  pub excluded : Bool
  pub excluded_reason : Option ExcludedReason
  pub zone_id : Option String

-- MongoDB's `limit`, for which 0 is none.
abbrev pub limit {ℓ} : {A : Type ℓ} → ℕ → List A → List A
limit zero xs = xs
limit (suc n) xs = take (suc n) xs
