-- ===== src/Insights/Source.antt =====
-- The ratings of rides since a watermark: ingest/mongo-review.source.ts, over the projection of
-- ingest/ride.readmodel.ts. Rides of one `updatedAt`, which MongoDB may return in any order, stay in
-- that of the collection. An id is a string here.
pub mod Laws
use gen_xtaxi_ai.Common.{
  ℕ, String, str_eq, Bool, true, false, ◌&&◌, ◌||◌, not, Option, none, some, List, [], ◌∷◌, ◌++◌,
  keep, ltb, if◌then◌else◌,
}
use gen_xtaxi_ai.Common.Int.{pos}
use gen_xtaxi_ai.Common.Number.{Number, finite, whole}
use gen_xtaxi_ai.Common.Sort.{sort}
use gen_xtaxi_ai.Common.Text.{Text}
use gen_xtaxi_ai.Insights.{SubjectType, driver, rider, RawReview, limit}

pub record EmbeddedRating : Type 0 where
  pub rating : Option Number
  pub review : Option Text
  pub rated_at : Option ℕ

pub record RideReadModel : Type 0 where
  pub id : String
  pub passenger : Option String
  pub driver : Option String
  pub zone_id : Option String
  pub passenger_rating : Option EmbeddedRating
  pub driver_rating : Option EmbeddedRating
  pub updated_at : ℕ

pub record Pulled : Type 0 where
  pub reviews : List RawReview
  pub new_watermark : ℕ

abbrev pub rated_at : Option EmbeddedRating → Option ℕ
rated_at none = none
rated_at (some r) = r.rated_at

abbrev pub is_after : ℕ → Option ℕ → Bool
is_after watermark none = false
is_after watermark (some t) = ltb watermark t

-- `if (id)`
abbrev set_id : Option String → Option String
set_id none = none
set_id (some id) = if str_eq id "" then none else some id

abbrev or_zero : Option Number → Number
or_zero none = finite (whole (pos 0))
or_zero (some n) = n

abbrev or_blank : Option Text → Text
or_blank none = []
or_blank (some t) = t

-- The review that one rating of a ride makes, of a subject by an author, if it has a time behind the
-- watermark and the ride has both.
abbrev review_of :
    ℕ
    → RideReadModel
    → SubjectType
    → Option String
    → Option String
    → Option EmbeddedRating
    → Option RawReview
review_of watermark ride type (some author) (some subject) (some r) = elim r.rated_at [
  | none ↦ none
  | some t ↦
      if ltb watermark t
      then some (record {
        ride_id = ride.id;
        author_id = author;
        subject_id = subject;
        subject_type = type;
        rating = or_zero r.rating;
        text = or_blank r.review;
        zone_id = ride.zone_id;
        created_at = t;
      })
      else none
]
review_of watermark ride type _ _ _ = none

abbrev pub push : Option RawReview → Pulled → Pulled
push none p = p
push (some r) p = record {
  reviews = p.reviews ++ r ∷ [];
  new_watermark = if ltb p.new_watermark r.created_at then r.created_at else p.new_watermark;
}

abbrev pub scan_ride : ℕ → RideReadModel → Pulled → Pulled
scan_ride watermark ride p =
    push
      (review_of watermark ride rider (set_id ride.driver) (set_id ride.passenger)
        ride.passenger_rating)
      (push
        (review_of watermark ride driver (set_id ride.passenger) (set_id ride.driver)
          ride.driver_rating)
        p)

abbrev pub scan : ℕ → List RideReadModel → Pulled → Pulled
scan watermark [] p = p
scan watermark (ride ∷ rides) p = scan watermark rides (scan_ride watermark ride p)

abbrev pub has_news : ℕ → RideReadModel → Bool
has_news watermark ride =
    is_after watermark (rated_at ride.driver_rating)
    || is_after watermark (rated_at ride.passenger_rating)

unfoldable pub pull_since : List RideReadModel → ℕ → ℕ → Pulled
unfolding sort
pull_since rides watermark n =
    scan watermark
      (limit n (sort (λ a b. ltb a.updated_at b.updated_at) (keep (has_news watermark) rides)))
      (record { reviews = []; new_watermark = watermark })
