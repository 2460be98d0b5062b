-- ===== src/Net/Address.antt =====
-- net/ipaddress.h, net/ipaddress.cpp, net/sockaddress.h and net/sockaddress.cpp: addresses, their
-- text and their order. `simplify version ip` stands for what `simplifyIP` asks of the system: the
-- text that `inet_ntop` gives for the address that `inet_pton` reads. The code does not ask whether
-- `inet_pton` could read the text; where it could not, it prints the bytes of an address that it
-- never set, and `simplify` is then any text that a run gives, the same at each call of this run,
-- which the code does not promise. The child RoundTrip is about the text, Order about the comparison.
pub mod Order
pub mod RoundTrip
pub mod Samples
mod Tests
use epyx.Base.{
  ℕ, zero, suc, ◌-◌, ◌%◌, ◌^◌, Bool, true, false, not, ◌&&◌, ◌||◌, List, [], ◌∷◌, ◌++◌, Option,
  none, some, ◌==◌, ltb, if◌then◌else◌, length, get_or, take, drop, Bytes, codes, bytes_eq,
}
use epyx.Base.Compare.{Sign, and_then, compare_nat, compare_bytes}
use epyx.Base.Int.{ℤ, pos, negsuc}
use epyx.Core.Text.{to_int, from_unsigned_long}

pub record IpAddress : Type 0 where
  pub ip : Bytes
  pub ip_version : ℕ

pub record SockAddress : Type 0 where
  pub ip : IpAddress
  pub port : ℕ

-- The exceptions of the constructors. `bad_version` is the failed assertion or the FailException.
pub data AddressError : Type 0 where
  invalid_ipv6 bad_version bad_port no_arobas : AddressError

pub data Parsed {ℓ} (A : Type ℓ) : Type ℓ where
  parsed : A → Parsed A
  failed : AddressError → Parsed A

-- `find(c)`: the text before the first `c` and the text behind it.
unfoldable pub split_at : ℕ → Bytes → Option (Bytes × Bytes)
split_at c [] = none
split_at c (x ∷ s) =
    let rest = split_at c s in
    if x == c
    then some ([], s)
    else elim rest [ none ↦ none | some (before, after) ↦ some (x ∷ before, after) ]

abbrev pub contains : ℕ → Bytes → Bool
contains c s = elim (split_at c s) [ none ↦ false | some p ↦ true ]

abbrev pub no_ip : IpAddress
no_ip = record { ip = []; ip_version = 0 }

-- The constructor from an address and a port.
abbrev pub with_port : IpAddress → ℕ → SockAddress
with_port ip port = record { ip = ip; port = port }

abbrev pub no_address : SockAddress
no_address = with_port no_ip 0

module _ (simplify : ℕ → Bytes → Bytes) where
  -- `simplifyIP`, with the checks of `getSockAddr`.
  unfoldable pub simplify_ip : IpAddress → Parsed IpAddress
  simplify_ip a =
      if a.ip_version == 4 || a.ip_version == 6
      then parsed (record a { ip = simplify a.ip_version a.ip })
      else failed bad_version

  -- "Guess IP version".
  unfoldable pub guess_version : Bytes → ℕ → ℕ
  unfolding split_at
  guess_version ip version = if version == 0 then if contains b':' ip then 6 else 4 else version

  -- `IpAddress(ip, ipVersion)`.
  unfoldable pub parse_ip : Bytes → ℕ → Parsed IpAddress
  unfolding simplify_ip guess_version
  parse_ip [] version = parsed (record { ip = []; ip_version = version })
  parse_ip (c ∷ s) version =
      if c == b'['
      then if get_or (c ∷ s) (length s) 0 == b']'
        then simplify_ip (record { ip = take (length s - 1) s; ip_version = 6 })
        else failed invalid_ipv6
      else simplify_ip (record { ip = c ∷ s; ip_version = guess_version (c ∷ s) version })

  -- `(unsigned short)`.
  unfoldable pub to_port : ℤ → ℕ
  to_port (pos n) = n % 2 ^ 16
  to_port (negsuc n) = 2 ^ 16 - 1 - n % 2 ^ 16

  -- "Use port"; `portstr` is what follows the address.
  unfoldable pub use_port : Bytes → IpAddress → Parsed SockAddress
  unfolding to_port
  use_port [] ip = parsed (with_port ip 0)
  use_port (c ∷ s) ip =
      if c == b':'
      then elim (to_int s) [ none ↦ failed bad_port | some z ↦ parsed (with_port ip (to_port z)) ]
      else parsed (with_port ip 0)

  unfoldable pub then_port : Bytes → Parsed IpAddress → Parsed SockAddress
  unfolding use_port
  then_port portstr (failed e) = failed e
  then_port portstr (parsed ip) = use_port portstr ip

  -- "Case if IPv6": what follows the bracket.
  unfoldable pub parse_ipv6 : Bytes → Parsed SockAddress
  unfolding parse_ip then_port split_at
  parse_ipv6 s = elim (split_at b']' s) [
    | none ↦ failed invalid_ipv6
    | some (ip, portstr) ↦ then_port portstr (parse_ip ip 6)
  ]

  -- "If not IPv6".
  unfoldable pub parse_ipv4 : Bytes → Parsed SockAddress
  unfolding parse_ip then_port split_at
  parse_ipv4 s = elim (split_at b':' s) [
    | none ↦ then_port [] (parse_ip s 4)
    | some (ip, port) ↦ then_port (b':' ∷ port) (parse_ip ip 4)
  ]

  -- `SockAddress(addressFormat)`.
  unfoldable pub parse_address : Bytes → Parsed SockAddress
  unfolding parse_ipv6 parse_ipv4
  parse_address [] = parsed no_address
  parse_address (c ∷ s) = if c == b'[' then parse_ipv6 s else parse_ipv4 (c ∷ s)

-- `operator<<(std::ostream&, const IpAddress&)`.
abbrev print_text : Bytes → Bytes
print_text [] = b'*' ∷ []
print_text (c ∷ s) = c ∷ s

abbrev pub print_ip : IpAddress → Bytes
print_ip a = print_text a.ip

-- `IpAddress::toString`.
abbrev pub ip_to_string : Bool → IpAddress → Bytes
ip_to_string brackets a = if brackets && a.ip_version == 6 then b'[' ∷ (a.ip ++ b']' ∷ []) else a.ip

-- `operator<<(std::ostream&, const SockAddress&)`.
unfoldable pub print_address : SockAddress → Bytes
unfolding from_unsigned_long
print_address a =
    if a.port == 0 then print_ip a.ip else print_ip a.ip ++ b':' ∷ from_unsigned_long a.port

-- `IpAddress::empty` and `SockAddress::empty`.
abbrev pub ip_empty : IpAddress → Bool
ip_empty a = length a.ip == 0

abbrev pub address_empty : SockAddress → Bool
address_empty a = ip_empty a.ip && a.port == 0

-- `IpAddress::isLocal`.
unfoldable pub is_local : IpAddress → Bool
unfolding bytes_eq
is_local a =
    ((a.ip_version == 0 || a.ip_version == 4)
      && ltb 4 (length a.ip)
      && bytes_eq (take 4 a.ip) (codes "127."))
    || ((a.ip_version == 0 || a.ip_version == 6)
        && ltb 2 (length a.ip)
        && bytes_eq (take 2 a.ip) (codes "::"))

-- `IpAddress::compare`.
abbrev pub compare_ip : IpAddress → IpAddress → Sign
compare_ip a b = and_then (compare_nat a.ip_version b.ip_version) (compare_bytes a.ip b.ip)

-- `SockAddress::compare`.
abbrev pub compare_address : SockAddress → SockAddress → Sign
compare_address a b = and_then (compare_ip a.ip b.ip) (compare_nat a.port b.port)
