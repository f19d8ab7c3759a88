-- ===== src/Tests/Texts.antt =====
-- What netip's parser gives on texts.
use capa_eni_controller.Prelude.{◌≡◌, refl, some, none, [], ◌∷◌}
use capa_eni_controller.Netip.{v4, v6, parse_addr}

parse_addr_v4 : parse_addr "10.0.0.20" ≡ some (v4 0x0a000014)
unfolding parse_addr
parse_addr_v4 = refl

parse_addr_mapped : parse_addr "::ffff:10.0.0.1" ≡ some (v6 0xffff0a000001 [])
unfolding parse_addr
parse_addr_mapped = refl

parse_addr_zone : parse_addr "fe80::1%e" ≡ some (v6 0xfe800000000000000000000000000001 (b'e' ∷ []))
unfolding parse_addr
parse_addr_zone = refl

parse_addr_leading_zero : parse_addr "10.0.0.020" ≡ none
unfolding parse_addr
parse_addr_leading_zero = refl

parse_addr_nine_groups : parse_addr "1:2:3:4:5:6:7:8:9" ≡ none
unfolding parse_addr
parse_addr_nine_groups = refl
