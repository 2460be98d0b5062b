-- ===== src/Parser/Http/Tests.antt =====
-- The HTTP parser at concrete inputs.
use epyx.Base.{◌≡◌, refl, [], ◌++◌, none, arith, codes}
use epyx.Base.Dict
use epyx.Base.Dict.{bytes_order}
use epyx.Core.Ctype.{is_alpha, to_lower}
use epyx.Core.Text.{crlf}
use epyx.Parser.Packet.{new_packet}
use epyx.Parser.Gtt.Syntax.{Fields, fail_exception, is_flag}
use epyx.Parser.Gtt.{new_parser, get_packet, threw, prepare}
use epyx.Parser.Http.{
  is_version, is_description, http_code, parse_first_line, parse_header_line, http_grammar,
}
use epyx.Parser.Http.Laws.{parse_first_line_parts, parse_header_line_case, get_packet_empty_line}

abbrev blank : Fields
blank = record { pkt = new_packet; size = 0 }

parse_first_line_parts_test : parse_first_line (codes "HTTP/1.1 404 Not Found") blank ≡ (
  record blank {
    pkt = record new_packet {
      protocol = codes "HTTP/1.1";
      method = codes "404";
      headers = Dict.set http_code (codes "Not Found") [];
    };
  },
  none,
)
unfolding is_version is_description
parse_first_line_parts_test =
    parse_first_line_parts (codes "HTTP/1.1") (codes "404") (codes "Not Found") blank (ground arith)
      (ground arith) (ground arith) (ground arith)

parse_header_line_case_test :
    parse_header_line (codes "Location: /") blank ≡ parse_header_line (codes "LOCATION: /") blank
unfolding is_alpha is_flag to_lower epyx.Core.Text.to_lower
parse_header_line_case_test =
    parse_header_line_case (codes "Location") (codes "LOCATION") (codes " /") blank (ground arith)
      (ground arith) refl

get_packet_empty_line_test :
    get_packet http_grammar (record new_parser { buffer = crlf ++ codes "x" })
    ≡ threw fail_exception (record (prepare new_parser) { buffer = codes "x" })
get_packet_empty_line_test =
    get_packet_empty_line (record new_parser { buffer = crlf ++ codes "x" }) (codes "x") refl refl
