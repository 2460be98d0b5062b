-- ===== src/Net/Uri.antt =====
-- net/uri.h and net/uri.cpp: a scheme, an address and a path. `toLower` works in place. The child
-- RoundTrip is about a text that is read back.
pub mod RoundTrip
mod Tests
use epyx.Base.{
  ℕ, true, false, ◌&&◌, List, [], ◌∷◌, ◌++◌, Option, none, some, ◌==◌, if◌then◌else◌, Bytes, codes,
}
use epyx.Core.Text.{to_lower}
use epyx.Net.Address.{
  SockAddress, Parsed, parsed, failed, no_address, split_at, parse_address, print_address,
}

pub record Uri : Type 0 where
  pub scheme : Bytes
  pub addr : SockAddress
  pub path : Bytes

-- The constructors without a text.
abbrev pub new_uri : Uri
new_uri = record { scheme = []; addr = no_address; path = [] }

unfoldable pub make_uri : Bytes → SockAddress → Bytes → Uri
unfolding to_lower
make_uri scheme addr path = record { scheme = to_lower scheme; addr = addr; path = path }

-- The copy constructor and `operator=`.
unfoldable pub copy_uri : Uri → Uri
unfolding make_uri
copy_uri u = make_uri u.scheme u.addr u.path

abbrev pub starts_location : Bytes → Option Bytes
starts_location (a ∷ b ∷ c ∷ s) =
    if (a == b':') && ((b == b'/') && (c == b'/')) then some s else none
starts_location _ = none

-- `find("://")`: what stands before it and behind it.
unfoldable pub split_scheme : Bytes → Option (Bytes × Bytes)
split_scheme [] = none
split_scheme (c ∷ s) =
    let rest = split_scheme s in
    elim (starts_location (c ∷ s)) [
      | some location ↦ some ([], location)
      | none ↦ elim rest [ none ↦ none | some (scheme, location) ↦ some (c ∷ scheme, location) ]
    ]

module _ (simplify : ℕ → Bytes → Bytes) where
  abbrev pub with_address : Bytes → Bytes → Parsed SockAddress → Parsed Uri
  with_address scheme path (parsed a) = parsed (make_uri scheme a path)
  with_address scheme path (failed e) = failed e

  -- "Extract address".
  unfoldable pub read_location : Bytes → Bytes → Parsed Uri
  unfolding split_at parse_address make_uri
  read_location scheme location = elim (split_at b'/' location) [
    | some (addr, path) ↦ with_address scheme (b'/' ∷ path) (parse_address simplify addr)
    | none ↦ with_address scheme [] (parse_address simplify location)
  ]

  -- `URI(const std::string&)`.
  unfoldable pub parse_uri : Bytes → Parsed Uri
  unfolding split_scheme read_location
  parse_uri uri = elim (split_scheme uri) [
    | some (scheme, location) ↦ read_location scheme location
    | none ↦ read_location [] uri
  ]

abbrev pub scheme_text : Bytes → Bytes
scheme_text [] = []
scheme_text (c ∷ s) = (c ∷ s) ++ codes "://"

-- `operator<<` and `toString`.
unfoldable pub print_uri : Uri → Bytes
unfolding print_address
print_uri u = scheme_text u.scheme ++ (print_address u.addr ++ u.path)
