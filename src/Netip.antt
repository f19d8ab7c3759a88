-- ===== src/Netip.antt =====
-- The part of Go's net/netip that the allocator and the pool webhook call: ParseAddr, Addr.Is4,
-- Addr.Compare and `==` of addresses. A text is walked by its code points; that agrees with Go's
-- bytes, since each character that the parsers look for is ASCII.
pub mod V4
pub mod V6
use Prim.Native.Nat.{compare, Ordering}
use Prim.Native.Char.{code}
use Prim.Native.String.{String}
use capa_eni_controller.Prelude.{
  ℕ, Bool, true, false, Option, none, some, List, [], ◌∷◌, ltb, nat_eq, if◌then◌else◌, ◌&&◌, ◌||◌,
}
use V4.{parse_v4}
use V6.{parse_v6, same_text}

-- `v4` holds the 32 bits of the address, `v6` the 128 bits and the zone.
pub data Addr : Type 0 where
  v4 : ℕ → Addr
  v6 : ℕ → List ℕ → Addr

abbrev pub codes : String → List ℕ
codes String.[] = []
codes (String.◌∷◌ c s) = code c ∷ codes s

-- The first of '.', ':' and '%' says which parser reads the text.
parse_by : List ℕ → List ℕ → Option Addr
unfolding parse_v4 parse_v6
parse_by text [] = none
parse_by text (c ∷ rest) =
    let later = parse_by text rest in
    if nat_eq c b'.'
    then (elim (parse_v4 text) [ none ↦ none | some bits ↦ some (v4 bits) ])
    else if nat_eq c b':'
    then (elim (parse_v6 text) [ none ↦ none | some (bits, zone) ↦ some (v6 bits zone) ])
    else if nat_eq c b'%'
    then none
    else later

-- netip.ParseAddr; `none` is its error.
unfoldable pub parse_addr : String → Option Addr
unfolding parse_by
parse_addr s = parse_by (codes s) (codes s)

-- Addr.Is4
abbrev pub is4 : Addr → Bool
is4 (v4 bits) = true
is4 (v6 bits zone) = false

-- The order of texts, character by character.
unfoldable pub compare_text : List ℕ → List ℕ → Ordering
compare_text [] [] = Ordering.eq
compare_text [] (b ∷ bs) = Ordering.lt
compare_text (a ∷ as') [] = Ordering.gt
compare_text (a ∷ as') (b ∷ bs) =
    let rest = compare_text as' bs in
    elim (compare a b) [
      | Ordering.lt ↦ Ordering.lt
      | Ordering.gt ↦ Ordering.gt
      | Ordering.eq ↦ rest
    ]

-- Addr.Compare: shorter addresses first, then by number, then by zone.
unfoldable pub compare_addr : Addr → Addr → Ordering
unfolding compare_text
compare_addr (v4 a) (v4 b) = compare a b
compare_addr (v4 a) (v6 b zb) = Ordering.lt
compare_addr (v6 a za) (v4 b) = Ordering.gt
compare_addr (v6 a za) (v6 b zb) = elim (compare a b) [
  | Ordering.lt ↦ Ordering.lt
  | Ordering.gt ↦ Ordering.gt
  | Ordering.eq ↦ compare_text za zb
]

abbrev pub is_lt : Ordering → Bool
is_lt Ordering.lt = true
is_lt _ = false

-- `s < t` on Go strings.
unfoldable pub text_lt : String → String → Bool
unfolding compare_text
text_lt s t = is_lt (compare_text (codes s) (codes t))

-- `==` on netip.Addr, which keys the map of addresses.
unfoldable pub addr_eq : Addr → Addr → Bool
unfolding same_text
addr_eq (v4 a) (v4 b) = nat_eq a b
addr_eq (v6 a za) (v6 b zb) = nat_eq a b && same_text za zb
addr_eq _ _ = false
