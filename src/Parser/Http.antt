-- ===== src/Parser/Http.antt =====
-- parser/httpparser.h and parser/httpparser.cpp: the first line and the header lines of an HTTP
-- answer. The parser is the one of Gtt with these two methods.
pub mod Laws
mod Tests
use epyx.Base.{
  ℕ, Bool, ◌||◌, true, false, List, [], ◌∷◌, Option, none, some, ◌==◌, if◌then◌else◌, Bytes, codes,
}
use epyx.Base.Dict
use epyx.Base.Dict.{bytes_order}
use epyx.Core.Ctype.{is_digit, is_alpha, is_alnum}
use epyx.Core.Text.{to_lower}
use epyx.Parser.Gtt.Syntax.{
  Fields, Thrown, fail_exception, throws, bad_http_version, bad_http_code, bad_http_description,
  bad_flag_start, bad_flag_name, bad_flag_value, scan, scan_end, skip_spaces, is_flag, is_value,
  store_flag,
}
use epyx.Parser.Gtt.{Grammar}

-- `isalnum(c) || c == '/' || c == '.'`.
unfoldable pub is_version : ℕ → Bool
unfolding is_alnum
is_version c = is_alnum c || c == b'/' || c == b'.'

-- `isalnum(c) || c == ' '`.
unfoldable pub is_description : ℕ → Bool
unfolding is_alnum
is_description c = is_alnum c || c == b' '

abbrev pub http_code : Bytes
http_code = codes "HTTP-code"

-- The third part of the first line.
unfoldable pub read_description : Bytes → Fields → Fields × Option Thrown
unfolding scan_end is_description
read_description s f = elim (scan_end is_description s) [
  | none ↦ throws bad_http_description f
  | some d ↦
      (record f { pkt = record (f.pkt) { headers = Dict.set http_code d f.pkt.headers } }, none)
]

-- The second part.
unfoldable pub read_code : Bytes → Fields → Fields × Option Thrown
unfolding scan read_description
read_code s f = elim (scan b' ' is_digit s) [
  | none ↦ throws bad_http_code f
  | some (code, rest) ↦ read_description rest (record f { pkt = record (f.pkt) { method = code } })
]

-- `HTTPParser::parseFirstLine`; the assertion asks for a line that is not empty.
unfoldable pub parse_first_line : Bytes → Fields → Fields × Option Thrown
unfolding scan is_version read_code
parse_first_line [] f = (f, some fail_exception)
parse_first_line (c ∷ s) f = elim (scan b' ' is_version (c ∷ s)) [
  | none ↦ throws bad_http_version f
  | some (version, rest) ↦ read_code rest (record f { pkt = record (f.pkt) { protocol = version } })
]

-- The value, behind the spaces. Here it may be empty.
unfoldable pub read_value : Bytes → Bytes → Fields → Fields × Option Thrown
unfolding scan_end is_value store_flag
read_value name value f = elim (scan_end is_value value) [
  | none ↦ throws bad_flag_value f
  | some [] ↦ (record f { pkt = record (f.pkt) { headers = Dict.set name [] f.pkt.headers } }, none)
  | some (c ∷ v) ↦ store_flag name (c ∷ v) f
]

-- `HTTPParser::parseHeaderLine`: the flag name goes to lower case.
unfoldable pub parse_header_line : Bytes → Fields → Fields × Option Thrown
unfolding scan is_flag skip_spaces read_value to_lower
parse_header_line [] f = (f, some fail_exception)
parse_header_line (c ∷ s) f =
    if is_alpha c
    then elim (scan b':' is_flag s) [
      | none ↦ throws bad_flag_name f
      | some (n, rest) ↦ read_value (to_lower (c ∷ n)) (skip_spaces rest) f
    ]
    else throws bad_flag_start f

abbrev pub http_grammar : Grammar
http_grammar = record { first_line = parse_first_line; header_line = parse_header_line }
