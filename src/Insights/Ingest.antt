-- ===== src/Insights/Ingest.antt =====
-- ingest/ingest.service.ts: the batch, its content filter and its review bombing, upserted into the
-- reviews; the collections are the state. MongoDB's upsert with `$setOnInsert` inserts a document
-- where none has the key, and else changes nothing.
pub mod Laws
pub mod Bombing
use gen_xtaxi_ai.Common.{
  ℕ, zero, suc, ◌+◌, ◌/◌, String, str_eq, Bool, true, false, ◌&&◌, ◌||◌, not, Option, none, some,
  List, [], ◌∷◌, ◌++◌, map, any, length, keep, ltb, leb, if◌then◌else◌,
}
use gen_xtaxi_ai.Common.Text.{Text, text_eq, trim}
use gen_xtaxi_ai.Insights.{RawReview, Review, ExcludedReason, toxicity, review_bombing, same_type}
use gen_xtaxi_ai.Insights.Groups.{grouped, selected}
use gen_xtaxi_ai.Insights.Filter.{Pattern, FilterResult, filter}
use gen_xtaxi_ai.Insights.Source.{RideReadModel, Pulled, pull_since}

-- The size of `new Set(texts)`.
abbrev pub distinct : List Text → ℕ
distinct [] = 0
distinct (t ∷ ts) = let rest = distinct ts in if any (text_eq t) ts then rest else suc rest

abbrev pub is_set : Text → Bool
is_set [] = false
is_set (c ∷ t) = true

-- Many texts of a subject, of which few differ.
abbrev pub is_bombed : List Text → Bool
is_bombed texts =
    let non_empty = keep is_set texts in
    not (ltb (length texts) 5)
    && (leb 5 (length non_empty) && leb (distinct non_empty) ((length non_empty + 2) / 3))

pub record Store : Type 0 where
  pub reviews : List Review
  -- `lastRatedAt`, once there is one.
  pub watermark : Option ℕ

abbrev pub or_epoch : Option ℕ → ℕ
or_epoch none = 0
or_epoch (some t) = t

-- The unique key (rideId, subjectType).
abbrev pub has_key : RawReview → Review → Bool
has_key r v = str_eq v.ride_id r.ride_id && same_type v.subject_type r.subject_type

module _ (replace_all : Pattern → Text → Text × ℕ) (lower : Text → Text)
    (default_lang : String) where
  abbrev pub bombing_text : RawReview → Text
  bombing_text r = lower (trim r.text)

  unfoldable pub detect_review_bombing : List RawReview → List String
  unfolding grouped
  detect_review_bombing reviews =
      selected (λ subject. is_bombed) (grouped (λ r. r.subject_id) bombing_text reviews [])

  abbrev reason_of : Bool → Bool → Option ExcludedReason
  reason_of toxic bombed =
      if toxic then some toxicity else if bombed then some review_bombing else none

  abbrev pub inserted : List String → RawReview → Review
  inserted bombed r =
      let f = filter replace_all lower r.text in
      let is_bombed_subject = any (λ s. str_eq s r.subject_id) bombed in
      record {
        ride_id = r.ride_id;
        author_id = r.author_id;
        subject_id = r.subject_id;
        subject_type = r.subject_type;
        rating = r.rating;
        text = f.clean;
        lang = default_lang;
        created_at = r.created_at;
        aspects = [];
        aspects_processed = false;
        excluded = f.toxic || is_bombed_subject;
        excluded_reason = reason_of f.toxic is_bombed_subject;
        zone_id = r.zone_id;
      }

  -- What a loop over the batch makes of the reviews, and how many it inserts.
  unfoldable pub upsert_all : List String → List RawReview → List Review → List Review × ℕ
  upsert_all bombed [] reviews = (reviews, 0)
  upsert_all bombed (r ∷ rs) reviews = elim (any (has_key r) reviews) [
    | true ↦ upsert_all bombed rs reviews
    | false ↦
        let (after, n) = upsert_all bombed rs (reviews ++ inserted bombed r ∷ []) in (after, suc n)
  ]

  abbrev pub ingest_pulled : Pulled → Store → ℕ × Store
  ingest_pulled p s = elim p.reviews [
    | [] ↦ (0, s)
    | r ∷ rs ↦
        let (after, n) = upsert_all (detect_review_bombing (r ∷ rs)) (r ∷ rs) s.reviews in
        (n, record { reviews = after; watermark = some p.new_watermark })
  ]

  unfoldable pub ingest_batch : List RideReadModel → ℕ → Store → ℕ × Store
  ingest_batch rides n s = ingest_pulled (pull_since rides (or_epoch s.watermark) n) s
