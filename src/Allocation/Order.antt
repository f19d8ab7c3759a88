-- ===== src/Allocation/Order.antt =====
-- The order in which interfaces are tried: by the number of the private IPv4 address.
use capa_eni_controller.Prelude.{ℕ, ◌≤◌, ◌≡◌, Option, some, List, arith, ltb}
use capa_eni_controller.Prelude.Lists.{All, Pairs}
use capa_eni_controller.Api.Pool.{EniReference}
use capa_eni_controller.Netip.{Addr, v4, parse_addr, compare_addr}
use capa_eni_controller.Sort.{sort_slice}
use capa_eni_controller.Sort.Laws.{sort_slice-rising}
use capa_eni_controller.Allocation.{private_ip_lt}

-- The number of an address text, 0 where it is no IPv4 address.
abbrev addr_key : Option Addr → ℕ
addr_key (some (v4 bits)) = bits
addr_key _ = 0

unfoldable pub ip_key : EniReference → ℕ
ip_key r = addr_key (parse_addr r.private_ip)

-- What the pool webhook demands of each interface.
abbrev pub HasIpv4 : EniReference → Type 0
HasIpv4 r = (bits : ℕ) × (parse_addr r.private_ip ≡ some (v4 bits))

pub ip_key_of :
    (r : EniReference) (bits : ℕ) → parse_addr r.private_ip ≡ some (v4 bits) → ip_key r ≡ bits
unfolding ip_key
ip_key_of r bits e = rw e

private_ip_lt-ip_key :
    (i j : EniReference) → HasIpv4 i → HasIpv4 j → private_ip_lt i j ≡ ltb (ip_key i) (ip_key j)
unfolding private_ip_lt ip_key compare_addr
private_ip_lt-ip_key i j (a, e) (b, f) = rw (e, f) (ground arith)

-- Interfaces with IPv4 addresses are sorted by the numbers of the addresses.
pub sort_slice-ip_key :
    (xs : List EniReference)
    → All HasIpv4 xs
    → Pairs (λ a b. ip_key a ≤ ip_key b) (sort_slice private_ip_lt xs)
sort_slice-ip_key xs h = sort_slice-rising private_ip_lt ip_key HasIpv4 private_ip_lt-ip_key xs h
