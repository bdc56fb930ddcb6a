-- ===== src/Insights/Source/Laws.antt =====
-- The watermark of mongo-review.source.ts and the reviews that it is taken from.
use gen_xtaxi_ai.Common.{
  ℕ, ◌≤◌, ◌<◌, String, ◌≡◌, refl, ◌⊎◌, inl, inr, Option, none, some, List, [], ◌∷◌, keep, ltb,
  Bool-cases, arith, All, All-append, Any, Any-append_iff,
}
use gen_xtaxi_ai.Common.Sort.{sort}
use gen_xtaxi_ai.Insights.{SubjectType, RawReview, limit, driver, rider}
use gen_xtaxi_ai.Insights.Source.{
  EmbeddedRating, RideReadModel, Pulled, review_of, set_id, push, scan_ride, scan, has_news,
  pull_since,
}

-- The reviews are of times behind `watermark` and up to the new one, which is the last of them, or
-- `watermark` itself.
abbrev pub Reaches : ℕ → Pulled → Type 0
Reaches watermark p =
    All (λ r. (watermark < r.created_at) × (r.created_at ≤ p.new_watermark)) p.reviews
    × (watermark ≤ p.new_watermark)
    × ((p.new_watermark ≡ watermark) ⊎ Any (λ r. r.created_at ≡ p.new_watermark) p.reviews)

All-raise :
    (w m n : ℕ) (rs : List RawReview)
    → m ≤ n
    → All (λ r. (w < r.created_at) × (r.created_at ≤ m)) rs
    → All (λ r. (w < r.created_at) × (r.created_at ≤ n)) rs
All-raise w m n [] h k = tt
All-raise w m n (r ∷ rs) h ((a, b), k) = ((a, omega (arith, b, h)), All-raise w m n rs h k)

push-Reaches :
    (w : ℕ) (r : RawReview) (p : Pulled)
    → w < r.created_at
    → Reaches w p
    → Reaches w (push (some r) p)
push-Reaches w r p h (within, above, last) = elim (Bool-cases (ltb p.new_watermark r.created_at)) [
  | inl e ↦
      let later : p.new_watermark < r.created_at = ground (arith, e) in
      rw e (
        All-append (λ x. (w < x.created_at) × (x.created_at ≤ r.created_at)) p.reviews (r ∷ [])
            (All-raise w p.new_watermark r.created_at p.reviews (omega (arith, later)) within)
            ((h, omega arith), tt),
        omega (arith, h),
        inr (
            (Any-append_iff (λ x. x.created_at ≡ r.created_at) p.reviews (r ∷ [])).1
              (inr (inl refl))),
      )
  | inr e ↦
      let earlier : r.created_at ≤ p.new_watermark = ground (arith, e) in
      rw e (
        All-append (λ x. (w < x.created_at) × (x.created_at ≤ p.new_watermark)) p.reviews (r ∷ [])
            within ((h, earlier), tt),
        above,
        elim last [
          | inl same ↦ inl same
          | inr some_last ↦ inr (
              (Any-append_iff (λ x. x.created_at ≡ p.new_watermark) p.reviews (r ∷ [])).1
                (inl some_last))
        ],
      )
]

push-review_of :
    (w : ℕ) (ride : RideReadModel) (type : SubjectType) (author subject : Option String)
    (rating : Option EmbeddedRating) (p : Pulled)
    → Reaches w p
    → Reaches w (push (review_of w ride type author subject rating) p)
push-review_of w ride type none subject rating p h = h
push-review_of w ride type (some a) none rating p h = h
push-review_of w ride type (some a) (some s) none p h = h
push-review_of w ride type (some a) (some s) (some r) p h = timed r.rated_at refl
  where
    timed :
        (o : Option ℕ)
        → r.rated_at ≡ o
        → Reaches w (push (review_of w ride type (some a) (some s) (some r)) p)
    timed none e = rw e h
    timed (some t) e = elim (Bool-cases (ltb w t)) [
      | inl k ↦ rw (e, k) (push-Reaches w _ p (ground (arith, k)) h)
      | inr k ↦ rw (e, k) h
    ]

scan-Reaches :
    (w : ℕ) (rides : List RideReadModel) (p : Pulled) → Reaches w p → Reaches w (scan w rides p)
scan-Reaches w [] p h = h
scan-Reaches w (ride ∷ rides) p h = scan-Reaches w rides (scan_ride w ride p) (
    push-review_of w ride rider (set_id ride.driver) (set_id ride.passenger) ride.passenger_rating _
      (push-review_of w ride driver (set_id ride.passenger) (set_id ride.driver) ride.driver_rating
        p h))

-- A pull never takes the watermark back: each review is of a time behind the old one and up to the new
-- one, which is the time of the last of the reviews if there are any that move it.
pub pull_since-Reaches : (rides : List RideReadModel) (w n : ℕ) → Reaches w (pull_since rides w n)
unfolding pull_since
pull_since-Reaches rides w n =
    scan-Reaches w (limit n (sort (λ a b. ltb a.updated_at b.updated_at) (keep (has_news w) rides)))
      (record { reviews = []; new_watermark = w }) (tt, omega arith, inl refl)
