-- ===== src/Chat/Coords.antt =====
-- `parseCoords` of src/tools/tool-executor.service.ts: a text of the form "lat,lng", with a fraction
-- in both, is read as two numbers; any other text stays.
use gen_xtaxi_ai.Common.{
  ℕ, ◌-◌, ◌^◌, Bool, true, false, Option, none, some, [], ◌∷◌, ◌++◌, ◌==◌, if◌then◌else◌, length,
}
use gen_xtaxi_ai.Common.Int.{ℤ, pos}
use gen_xtaxi_ai.Common.Number.{Fraction, negate_ℕ}
use gen_xtaxi_ai.Common.Text.{Text, is_digit, span, trim_start}
use gen_xtaxi_ai.Json.{Json, num, str, obj, end, field}
use gen_xtaxi_ai.Grounding.{digits_value}

pub data Place : Type 0 where
  coords : Fraction → Fraction → Place
  raw : Text → Place

abbrev signed : Bool → ℕ → ℤ
signed true n = negate_ℕ n
signed false n = pos n

abbrev decimal : Bool → Text → Text → Text → Option (Fraction × Text)
decimal negative [] fracs left = none
decimal negative (d ∷ ds) [] left = none
decimal negative (d ∷ ds) (f ∷ fs) left = some (
  record {
    num = signed negative (digits_value 0 ((d ∷ ds) ++ (f ∷ fs)));
    below = 10 ^ length (f ∷ fs) - 1;
  },
  left,
)

abbrev fraction_part : Bool → Text → Text → Option (Fraction × Text)
fraction_part negative ints [] = none
fraction_part negative ints (c ∷ s) =
    let (fracs, left) = span is_digit s in
    if c == b'.' then decimal negative ints fracs left else none

abbrev unsigned_number : Bool → Text → Option (Fraction × Text)
unsigned_number negative s = let (ints, left) = span is_digit s in fraction_part negative ints left

-- `-?\d+\.\d+` at the head of a text
unfoldable pub read_number : Text → Option (Fraction × Text)
unfolding span digits_value
read_number [] = none
read_number (c ∷ s) = if c == b'-' then unsigned_number true s else unsigned_number false (c ∷ s)

abbrev comma : Text → Option Text
comma [] = none
comma (c ∷ s) = if c == b',' then some s else none

abbrev at_end : Text → Option (Fraction × Fraction) → Option (Fraction × Fraction)
at_end [] o = o
at_end (c ∷ s) o = none

unfoldable pub read_coords : Text → Option (Fraction × Fraction)
unfolding read_number trim_start
read_coords s = elim (read_number (trim_start s)) [
  | none ↦ none
  | some (lat, r) ↦ elim (comma (trim_start r)) [
    | none ↦ none
    | some t ↦ elim (read_number (trim_start t)) [
      | none ↦ none
      | some (lng, left) ↦ at_end (trim_start left) (some (lat, lng))
    ]
  ]
]

unfoldable pub parse_coords : Text → Place
unfolding read_coords
parse_coords s = elim (read_coords s) [ none ↦ raw s | some (lat, lng) ↦ coords lat lng ]

abbrev pub place_json : Place → Json
place_json (coords lat lng) = obj (field "lat" (num lat) (field "lng" (num lng) end))
place_json (raw s) = str s

abbrev pub is_raw : Place → Bool
is_raw (coords lat lng) = false
is_raw (raw s) = true
