-- ===== src/Parser/Gtt/Syntax.antt =====
-- parser/gttparser.cpp: `GTTParser::parseFirstLine` and `GTTParser::parseHeaderLine`.
-- A line is the C string that the code indexes: its end and a byte 0 stop every loop.
pub mod Scan
pub mod Read
use mathlib.Core.Option
use epyx.Base.{
  ℕ, zero, suc, ◌+◌, ◌-◌, ◌^◌, ◌%◌, Bool, true, false, not, ◌&&◌, ◌||◌, List, [], ◌∷◌, Option, none,
  some, ltb, leb, ◌==◌, if◌then◌else◌, Bytes, bytes_eq, map,
}
use epyx.Base.Dict
use epyx.Base.Dict.{Dict, bytes_order}
use epyx.Base.Int.{ℤ, pos, negsuc}
use epyx.Core.Ctype
use epyx.Core.Ctype.{is_upper, is_digit, is_alpha, is_alnum}
use epyx.Core.Text.{to_int}
use epyx.Parser.Packet.{GttPacket, content_length}

-- The messages of the ParserExceptions. The last three are HTTPParser's.
pub data ParseError : Type 0 where
  empty_first_line bad_protocol_start bad_protocol bad_method_start bad_method : ParseError
  bad_flag_start bad_flag_name flag_without_value bad_flag_value : ParseError
  duplicate_content_length bad_body_size invalid_characters : ParseError
  bad_http_version bad_http_code bad_http_description : ParseError

-- `fail_exception` is what a failed EPYX_ASSERT throws.
pub data Thrown : Type 0 where
  parser_exception : ParseError → Thrown
  fail_exception : Thrown

-- `*currentPkt` and `currentSize`.
pub record Fields : Type 0 where
  pub pkt : GttPacket
  pub size : ℕ

abbrev pub throws : ParseError → Fields → Fields × Option Thrown
throws e f = (f, some (parser_exception e))

-- `while (l[i] != stop) { if (!ok(l[i])) throw ...; i++; }`: what was passed, and what follows.
unfoldable pub scan : ℕ → (ℕ → Bool) → Bytes → Option (Bytes × Bytes)
scan stop ok [] = none
scan stop ok (c ∷ s) =
    let rest = Option.map (λ (p : Bytes × Bytes). (c ∷ p.0, p.1)) (scan stop ok s) in
    if c == stop then some ([], s) else if ok c then rest else none

-- `while (l[i] != 0) { if (!ok(l[i])) throw ...; i++; }`.
unfoldable pub scan_end : (ℕ → Bool) → Bytes → Option Bytes
scan_end ok [] = some []
scan_end ok (c ∷ s) =
    let rest = Option.map (◌∷◌ c) (scan_end ok s) in
    if c == 0 then some [] else if ok c then rest else none

-- `while (l[i] == ' ') i++`.
unfoldable pub skip_spaces : Bytes → Bytes
skip_spaces [] = []
skip_spaces (c ∷ s) = let rest = skip_spaces s in if c == b' ' then rest else c ∷ s

-- `isupper(c) || isdigit(c) || c == '_'`.
unfoldable pub is_name : ℕ → Bool
unfolding is_upper is_digit
is_name c = is_upper c || is_digit c || c == b'_'

-- `isalnum(c) || c == '_' || c == '-'`.
unfoldable pub is_flag : ℕ → Bool
unfolding is_alnum
is_flag c = is_alnum c || c == b'_' || c == b'-'

-- `c >= 32 && c < 126`.
unfoldable pub is_value : ℕ → Bool
is_value c = leb 32 c && ltb c 126

-- The second half of `parseFirstLine`, behind the space.
unfoldable pub read_method : Bytes → Fields → Fields × Option Thrown
unfolding scan_end is_name
read_method [] f = throws bad_method_start f
read_method (c ∷ s) f =
    if is_upper c
    then elim (scan_end is_name s) [
      | none ↦ throws bad_method f
      | some m ↦ (record f { pkt = record (f.pkt) { method = c ∷ m } }, none)
    ]
    else throws bad_method_start f

unfoldable pub parse_first_line : Bytes → Fields → Fields × Option Thrown
unfolding scan is_name read_method
parse_first_line [] f = throws empty_first_line f
parse_first_line (c ∷ s) f =
    if is_upper c
    then elim (scan b' ' is_name s) [
      | none ↦ throws bad_protocol f
      | some (p, rest) ↦ read_method rest (record f { pkt = record (f.pkt) { protocol = c ∷ p } })
    ]
    else throws bad_protocol_start f

-- The conversion of the `long` to the `size_t currentSize`.
abbrev pub to_size : ℤ → ℕ
to_size (pos n) = n % 2 ^ 64
to_size (negsuc n) = (2 ^ 64 - 1 - n) % 2 ^ 64

unfoldable pub set_length : Bytes → Fields → Fields × Option Thrown
set_length value f =
    if ltb 0 f.size then throws duplicate_content_length f else elim (to_int value) [
      | none ↦ throws invalid_characters f
      | some n ↦
          let f' = record f { size = to_size n } in
          if to_size n == 0 then throws bad_body_size f' else (f', none)
    ]

-- `!strcasecmp(flagName.c_str(), "content-length")`.
unfoldable pub is_content_length : Bytes → Bool
is_content_length name = bytes_eq (map Ctype.to_lower name) content_length

unfoldable pub store_flag : Bytes → Bytes → Fields → Fields × Option Thrown
unfolding set_length is_content_length
store_flag name value f =
    if is_content_length name
    then set_length value f
    else (record f { pkt = record (f.pkt) { headers = Dict.set name value f.pkt.headers } }, none)

-- The value, behind the spaces; `name` is the flag name.
unfoldable pub read_value : Bytes → Bytes → Fields → Fields × Option Thrown
unfolding scan_end is_value store_flag
read_value name value f = elim (scan_end is_value value) [
  | none ↦ throws bad_flag_value f
  | some [] ↦ throws flag_without_value f
  | some (c ∷ v) ↦ store_flag name (c ∷ v) f
]

unfoldable pub parse_header_line : Bytes → Fields → Fields × Option Thrown
unfolding scan is_flag skip_spaces read_value
parse_header_line [] f = (f, some fail_exception)
parse_header_line (c ∷ s) f =
    if is_alpha c
    then elim (scan b':' is_flag s) [
      | none ↦ throws bad_flag_name f
      | some (n, rest) ↦ read_value (c ∷ n) (skip_spaces rest) f
    ]
    else throws bad_flag_start f
