-- ===== src/Netip/V6.antt =====
-- netip's parseIPv6: groups of hexadecimal digits, one `::`, a trailing IPv4 part, a zone.
use mathlib.Core.List.{foldl}
use capa_eni_controller.Prelude.{
  ℕ, zero, suc, ◌+◌, ◌-◌, ◌*◌, ◌/◌, ◌%◌, Bool, true, false, ◌&&◌, Option, none, some, List, [], ◌∷◌,
  ◌++◌, ltb, leb, nat_eq, if◌then◌else◌,
}
use capa_eni_controller.Prelude.Lists.{length, take, drop, replicate}
use capa_eni_controller.Netip.V4.{is_digit, parse_fields}

unfoldable pub same_text : List ℕ → List ℕ → Bool
same_text [] [] = true
same_text (a ∷ s) (b ∷ t) = nat_eq a b && same_text s t
same_text _ _ = false

abbrev pub hex_digit : ℕ → Option ℕ
hex_digit c =
    if is_digit c
    then some (c - b'0')
    else if leb b'a' c && leb c b'f'
    then some (c - b'a' + 10)
    else if leb b'A' c && leb c b'F'
    then some (c - b'A' + 10)
    else none

-- Reads one group: its value, its number of digits and what follows it.
scan_group : List ℕ → ℕ → ℕ → Option (ℕ × ℕ × List ℕ)
scan_group [] acc off = some (acc, off, [])
scan_group (c ∷ rest) acc off = elim (hex_digit c) [
  | none ↦ some (acc, off, c ∷ rest)
  | some d ↦
      let acc' = acc * 16 + d in
      let more = scan_group rest acc' (off + 1) in
      if ltb 3 off then none else if ltb 0xffff acc' then none else more
]

-- After the loop: the whole text must be used, and `::` expands to at least one group.
finish : List ℕ → List ℕ → Option ℕ → Option (List ℕ)
finish rest ip ellipsis = elim rest [
  | _ ∷ _ ↦ none
  | [] ↦
      if ltb (length ip) 16
      then (elim ellipsis [
        | none ↦ none
        | some e ↦ some (take e ip ++ (replicate (16 - length ip) 0 ++ drop e ip))
      ])
      else elim ellipsis [ none ↦ some ip | some e ↦ none ]
]

-- The trailing IPv4 part, at byte `length ip`.
trailing_v4 : List ℕ → List ℕ → Option ℕ → Option (List ℕ)
unfolding parse_fields finish
trailing_v4 s ip ellipsis =
    let placed : Bool = elim ellipsis [ none ↦ nat_eq (length ip) 12 | some e ↦ true ] in
    if placed && leb (length ip + 4) 16
    then (elim (parse_fields s) [
      | none ↦ none
      | some (a, b, c, d) ↦ finish [] (ip ++ (a ∷ b ∷ c ∷ d ∷ [])) ellipsis
    ])
    else none

-- The loop `for i < 16`, which takes two bytes in each round: eight rounds at most.
groups_loop : ℕ → List ℕ → List ℕ → Option ℕ → Option (List ℕ)
unfolding scan_group finish trailing_v4
groups_loop zero s ip ellipsis = finish s ip ellipsis
groups_loop (suc rounds) s ip ellipsis = elim (scan_group s 0 0) [
  | none ↦ none
  | some (acc, off, rest) ↦
      let ip' = ip ++ ((acc / 256) ∷ (acc % 256) ∷ []) in
      if nat_eq off 0 then none else elim rest [
        | [] ↦ finish [] ip' ellipsis
        | c ∷ after ↦
            if nat_eq c b'.'
            then trailing_v4 s ip ellipsis
            else if nat_eq c b':'
            then (elim after [
              | [] ↦ none
              | c' ∷ after' ↦
                  if nat_eq c' b':'
                  then (elim ellipsis [
                    | some e ↦ none
                    | none ↦ elim after' [
                      | [] ↦ finish [] ip' (some (length ip'))
                      | d ∷ more ↦ groups_loop rounds (d ∷ more) ip' (some (length ip'))
                    ]
                  ])
                  else groups_loop rounds (c' ∷ after') ip' ellipsis
            ])
            else none
      ]
]

parse_groups : List ℕ → Option (List ℕ)
unfolding groups_loop
parse_groups s = elim s [
  | c ∷ c' ∷ rest ↦
      if nat_eq c b':' && nat_eq c' b':'
      then (elim rest [
        | [] ↦ some (replicate 16 0)
        | d ∷ more ↦ groups_loop 8 (d ∷ more) [] (some 0)
      ])
      else groups_loop 8 (c ∷ c' ∷ rest) [] none
  | short ↦ groups_loop 8 short [] none
]

-- The text before the first '%', and the zone after it.
split_zone : List ℕ → List ℕ × Option (List ℕ)
split_zone [] = ([], none)
split_zone (c ∷ rest) =
    let (before, zone) = split_zone rest in
    if nat_eq c b'%' then ([], some rest) else (c ∷ before, zone)

-- The 128 bits and the zone.
unfoldable pub parse_v6 : List ℕ → Option (ℕ × List ℕ)
unfolding split_zone parse_groups
parse_v6 text =
    let (s, zone) = split_zone text in
    let ip = parse_groups s in
    let bits = λ (bytes : List ℕ). foldl (λ n b. n * 256 + b) 0 bytes in
    elim zone [
      | some [] ↦ none
      | some (c ∷ z) ↦ elim ip [ none ↦ none | some bytes ↦ some (bits bytes, c ∷ z) ]
      | none ↦ elim ip [ none ↦ none | some bytes ↦ some (bits bytes, []) ]
    ]
