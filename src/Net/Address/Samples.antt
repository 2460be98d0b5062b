-- ===== src/Net/Address/Samples.antt =====
-- An address for the tests, and a system that writes every address as it is read.
use epyx.Base.{ℕ, refl, arith, Bytes, codes}
use epyx.Net.Address.{SockAddress, with_port}
use epyx.Net.Address.RoundTrip.{IsIpv4}

abbrev pub keep : ℕ → Bytes → Bytes
keep version ip = ip

abbrev pub home : SockAddress
home = with_port (record { ip = codes "127.0.0.1"; ip_version = 4 }) 4242

pub home-IsIpv4 : IsIpv4 keep home.ip
home-IsIpv4 = record {
  version = refl;
  filled = λ e. ground arith;
  bracket = ground arith;
  colon = ground arith;
  simple = refl;
}
