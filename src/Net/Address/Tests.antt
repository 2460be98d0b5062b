-- ===== src/Net/Address/Tests.antt =====
-- Addresses at concrete inputs. Here the system writes every address as it is read.
use epyx.Base.{ℕ, Bytes, ◌≡◌, refl, arith, true, codes}
use epyx.Core.Text.{from_unsigned_long, to_int}
use epyx.Net.Address.{parsed, with_port, parse_address, print_address, use_port, is_local}
use epyx.Net.Address.Samples.{keep, home, home-IsIpv4}
use epyx.Net.Address.RoundTrip.{parse_address-print_address, parse_address_ipv6}

parse_test :
    parse_address keep (codes "[::1]:80")
    ≡ parsed (with_port (record { ip = codes "::1"; ip_version = 6 }) 80)
unfolding parse_address to_int
parse_test = refl

local_test : is_local home.ip ≡ true
unfolding is_local
local_test = refl

parse_address-print_address_test : parse_address keep (print_address home) ≡ parsed home
parse_address-print_address_test = parse_address-print_address keep home home-IsIpv4 (omega arith)

-- A system that has one text for all that it cannot read as an IPv4 address.
abbrev fallback : ℕ → Bytes → Bytes
fallback version ip = codes "0.0.0.0"

parse_address_ipv6_example :
    parse_address fallback
      (print_address (with_port (record { ip = codes "fe80::1"; ip_version = 6 }) 80))
    ≡ use_port fallback (codes "::1:80") (record { ip = codes "0.0.0.0"; ip_version = 4 })
unfolding from_unsigned_long
parse_address_ipv6_example =
    parse_address_ipv6 fallback (codes "fe80") (codes ":1") 80 (λ e. ground arith) (ground arith)
      (ground arith)
