-- ===== src/Insights/Aspects.antt =====
-- pipeline/aspect-extraction.service.ts. The gateway is a parameter: what it answers about a text, a
-- rating and a language, which may be nothing, or an answer whose aspects are no list, on which the
-- method throws. `sentiment` of a raw aspect is what `Number` makes of the one that was answered.
pub mod Laws
use gen_xtaxi_ai.Common.{
  ℕ, zero, suc, String, str_eq, Bool, true, false, ◌&&◌, not, Option, none, some, List, [], ◌∷◌,
  map, any, keep, length, if◌then◌else◌,
}
use gen_xtaxi_ai.Common.Double.{ltb_number}
use gen_xtaxi_ai.Common.Int.{ℤ, pos, negsuc}
use gen_xtaxi_ai.Common.Number.{Number, finite, infinite, nan, whole}
use gen_xtaxi_ai.Common.Text.{Text, trim}
use gen_xtaxi_ai.Insights.{AspectResult, Review, aspects}

pub data Answer : Type 0 where
  answered : List AspectResult → Answer
  unanswered : Answer
  no_list : Answer

abbrev pub number : ℤ → Number
number n = finite (whole n)

abbrev pub in_taxonomy : AspectResult → Bool
in_taxonomy a = any (λ name. str_eq name a.aspect) aspects

-- `n || 0`
abbrev pub or_zero : Number → Number
or_zero nan = number (pos 0)
or_zero n = n

-- `Math.max(-1, Math.min(1, n))` of a number that is one.
unfoldable pub clamp : Number → Number
unfolding ltb_number
clamp n =
    if ltb_number (number (pos 1)) n
    then number (pos 1)
    else if ltb_number n (number (negsuc 0))
    then number (negsuc 0)
    else n

abbrev pub clamped : AspectResult → AspectResult
clamped a = record {
  aspect = a.aspect;
  sentiment = clamp (or_zero a.sentiment);
  evidence_span = a.evidence_span;
}

module _ {S : Type 0} (ask : Text → Number → String → S → Answer × S) where
  -- The aspects, or nothing where the method throws.
  abbrev pub extracted : Answer → Option (List AspectResult)
  extracted (answered raw) = some (map clamped (keep in_taxonomy raw))
  extracted unanswered = some []
  extracted no_list = none

  unfoldable pub extract : Text → Number → String → S → Option (List AspectResult) × S
  extract text rating lang s = elim (trim text) [
    | [] ↦ (some [], s)
    | _ ↦ let (answer, after) = ask text rating lang s in (extracted answer, after)
  ]

  pub record Processed : Type 0 where
    pub reviews : List Review
    pub done : ℕ
    pub threw : Bool
    pub state : S

  abbrev pub is_pending : Review → Bool
  is_pending v = not v.aspects_processed && not v.excluded

  abbrev pub with_aspects : List AspectResult → Review → Review
  with_aspects found v = record v { aspects = found; aspects_processed = true }

  abbrev pub behind : Review → Processed → Processed
  behind v p = record p { reviews = v ∷ p.reviews }

  abbrev pub stored :
      Review → List Review → Option (List AspectResult) → S → (S → Processed) → Processed
  stored v vs none s rest = record { reviews = v ∷ vs; done = 0; threw = true; state = s }
  stored v vs (some found) s rest =
      let p = rest s in
      record {
        reviews = with_aspects found v ∷ p.reviews;
        done = suc p.done;
        threw = p.threw;
        state = p.state;
      }

  -- The first `batch` pending reviews of the collection, each saved where it stands; the batch ends
  -- where one throws.
  unfoldable pub process_first : ℕ → List Review → S → Processed
  process_first zero vs s = record { reviews = vs; done = 0; threw = false; state = s }
  process_first (suc batch) [] s = record { reviews = []; done = 0; threw = false; state = s }
  process_first (suc batch) (v ∷ vs) s =
      let rest = process_first batch vs in
      let passed = process_first (suc batch) vs s in
      if is_pending v
      then stored v vs (extract v.text v.rating v.lang s).0 (extract v.text v.rating v.lang s).1
          rest
      else behind v passed

  -- `.limit(batch)` of n documents, which a batch of 0 does not bound.
  abbrev bound : ℕ → ℕ → ℕ
  bound zero n = n
  bound (suc batch) n = suc batch

  unfoldable pub process_pending : ℕ → List Review → S → Processed
  unfolding process_first
  process_pending batch vs s = process_first (bound batch (length vs)) vs s
