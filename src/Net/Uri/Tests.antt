-- ===== src/Net/Uri/Tests.antt =====
-- A URI at a concrete input.
use epyx.Base.{◌≡◌, refl, arith, codes}
use epyx.Core.Text.{to_lower, from_unsigned_long}
use epyx.Net.Address.{parsed, print_address}
use epyx.Net.Address.Samples.{keep, home, home-IsIpv4}
use epyx.Net.Uri.{Uri, parse_uri, print_uri}
use epyx.Net.Uri.RoundTrip.{parse_uri-print_uri}

abbrev page : Uri
page = record { scheme = codes "http"; addr = home; path = codes "/a" }

print_test : print_uri page ≡ codes "http://127.0.0.1:4242/a"
unfolding print_uri from_unsigned_long
print_test = refl

parse_uri-print_uri_test : parse_uri keep (print_uri page) ≡ parsed page
unfolding to_lower print_address from_unsigned_long
parse_uri-print_uri_test =
    parse_uri-print_uri keep page (λ e. ground arith) (ground arith) refl home-IsIpv4 (omega arith)
      (ground arith) refl
