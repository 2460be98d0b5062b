-- ===== src/Net/Address/Order.antt =====
-- The comparison of addresses.
use epyx.Base.{◌≡◌, ap, ◌∙◌}
use epyx.Base.Compare.{
  IsTotal, compare_nat, compare_bytes, compare_nat-IsTotal, compare_bytes-IsTotal, lex-IsTotal,
}
use epyx.Net.Address.{IpAddress, SockAddress, compare_ip, compare_address}

ip_whole : (x y : IpAddress) → x.ip_version ≡ y.ip_version → x.ip ≡ y.ip → x ≡ y
ip_whole x y e g =
    ap (λ v. record { ip = x.ip; ip_version = v }) e
    ∙ ap (λ a. record { ip = a; ip_version = y.ip_version }) g

pub compare_ip-IsTotal : IsTotal IpAddress compare_ip
compare_ip-IsTotal =
    lex-IsTotal (λ x. x.ip_version) (λ x. x.ip) compare_nat compare_bytes compare_nat-IsTotal
      compare_bytes-IsTotal ip_whole

address_whole : (x y : SockAddress) → x.ip ≡ y.ip → x.port ≡ y.port → x ≡ y
address_whole x y e g =
    ap (λ a. record { ip = a; port = x.port }) e ∙ ap (λ n. record { ip = y.ip; port = n }) g

pub compare_address-IsTotal : IsTotal SockAddress compare_address
compare_address-IsTotal =
    lex-IsTotal (λ x. x.ip) (λ x. x.port) compare_ip compare_nat compare_ip-IsTotal
      compare_nat-IsTotal address_whole
