-- ===== src/Netip/V4.antt =====
-- netip's parseIPv4Fields: four decimal fields without leading zeros, each at most 255.
use capa_eni_controller.Prelude.{
  ℕ, ◌+◌, ◌-◌, ◌*◌, Bool, ◌&&◌, Option, none, some, List, [], ◌∷◌, ltb, leb, nat_eq, if◌then◌else◌,
}

abbrev pub is_digit : ℕ → Bool
is_digit c = leb b'0' c && leb c b'9'

-- The loop. `value` and `digits` are those of the field being read, `fields` the finished ones, the
-- latest first. A dot is refused at the start, at the end and after a dot: where no digit stands
-- before it, or nothing after it.
unfoldable pub fields_loop : List ℕ → ℕ → ℕ → List ℕ → Option (List ℕ)
fields_loop [] value digits fields = elim fields [
  | a ∷ b ∷ c ∷ [] ↦ some (value ∷ a ∷ b ∷ c ∷ [])
  | _ ↦ none
]
fields_loop (c ∷ rest) value digits fields =
    let next = value * 10 + (c - b'0') in
    let more = fields_loop rest next (digits + 1) fields in
    let field = fields_loop rest 0 0 (value ∷ fields) in
    if is_digit c
    then (if nat_eq digits 1 && nat_eq value 0 then none else if ltb 255 next then none else more)
    else if nat_eq c b'.'
    then (elim rest [
      | [] ↦ none
      | _ ↦ if nat_eq digits 0 then none else elim fields [ _ ∷ _ ∷ _ ∷ _ ↦ none | _ ↦ field ]
    ])
    else none

-- The fields, the first one first.
unfoldable pub parse_fields : List ℕ → Option (ℕ × ℕ × ℕ × ℕ)
unfolding fields_loop
parse_fields text = elim (fields_loop text 0 0 []) [
  | some (d ∷ c ∷ b ∷ a ∷ []) ↦ some (a, b, c, d)
  | _ ↦ none
]

abbrev pub bits_of : ℕ → ℕ → ℕ → ℕ → ℕ
bits_of a b c d = ((a * 256 + b) * 256 + c) * 256 + d

unfoldable pub parse_v4 : List ℕ → Option ℕ
unfolding parse_fields
parse_v4 text = elim (parse_fields text) [
  | none ↦ none
  | some (a, b, c, d) ↦ some (bits_of a b c d)
]
