-- ===== src/Parser/Gtt/Tests.antt =====
-- The parser at concrete inputs.
use epyx.Base.{
  ◌-◌, ◌^◌, ◌≡◌, refl, [], ◌∷◌, ◌++◌, Option, none, some, arith, codes, bytes_eq, bytes_lt,
}
use epyx.Core.Ctype.{is_upper, is_alpha, to_lower}
use epyx.Core.Text.{from_int, from_unsigned_long}
use epyx.Parser.Packet.{GttPacket, new_packet, build}
use epyx.Parser.Line.{pop_line}
use epyx.Parser.Gtt.Chunks.{resumed, get_packet-eat}
use epyx.Parser.Gtt.RoundTrip.{get_packet-build}
use epyx.Parser.Gtt.Syntax.Read.{parse_header_line_negative, parse_header_line_tilde}
use epyx.Parser.Gtt.Syntax.{
  Fields, parser_exception, bad_flag_value, bad_method, is_name, is_flag, is_value,
  is_content_length, parse_first_line, parse_header_line,
}
use epyx.Parser.Gtt.Total.{IsReady, get_packet_total}
use epyx.Parser.Gtt.WellFormed.{IsWellFormed}
use epyx.Parser.Gtt.{
  GttParser, gtt_grammar, new_parser, eat, start_packet, get_packet, returned, datapos_headers,
}

abbrev ping : GttPacket
ping = record {
  protocol = codes "DHT";
  method = codes "PING_1";
  headers = (codes "From", codes "a b") ∷ (codes "to", codes "x") ∷ [];
  body = codes "\r\nxyz";
}

build_test :
    build ping ≡ codes "DHT PING_1\r\nFrom: a b\r\nto: x\r\ncontent-length: 5\r\n\r\n\r\nxyz"
unfolding build from_unsigned_long
build_test = refl

ping-IsWellFormed : IsWellFormed ping
unfolding is_upper is_alpha is_name is_flag is_value is_content_length to_lower bytes_eq bytes_lt
ping-IsWellFormed = record {
  protocol = ground arith;
  method = ground arith;
  headers = (
    record { flag = ground arith; value = ground arith; other = refl },
    (record { flag = ground arith; value = ground arith; other = refl }, tt),
  );
  sorted = ground arith;
  body = omega arith;
}

get_packet-build_example :
    get_packet gtt_grammar (record new_parser { buffer = build ping ++ codes "N2NP" })
    ≡ returned (some ping) (start_packet (record new_parser { buffer = codes "N2NP" }))
get_packet-build_example =
    get_packet-build new_parser ping (codes "N2NP") refl refl ping-IsWellFormed

abbrev half : GttParser
half = record new_parser { buffer = codes "DHT PING\r\nke" }

abbrev half_way : GttParser
half_way = record new_parser {
  current_pkt = some (record new_packet { protocol = codes "DHT"; method = codes "PING" });
  buffer = codes "ke";
  datapos = datapos_headers;
}

half_returns : get_packet gtt_grammar half ≡ returned none half_way
unfolding get_packet pop_line parse_first_line
half_returns = refl

get_packet-eat_example :
    get_packet gtt_grammar (eat half (codes "y: v\r\n\r\n"))
    ≡ resumed gtt_grammar (codes "y: v\r\n\r\n") none (eat half_way (codes "y: v\r\n\r\n"))
get_packet-eat_example =
    get_packet-eat gtt_grammar (codes "y: v\r\n\r\n") half half_way none tt half_returns refl

get_packet_total_example :
    (p : Option GttPacket) × (s' : GttParser) × (get_packet gtt_grammar half ≡ returned p s')
    × IsReady s'
get_packet_total_example = get_packet_total half tt

abbrev blank : Fields
blank = record { pkt = new_packet; size = 0 }

parse_header_line_negative_test :
    parse_header_line (codes "content-length: -5") blank
    ≡ (record { pkt = new_packet; size = 2 ^ 64 - 5 }, none)
unfolding from_int
parse_header_line_negative_test = parse_header_line_negative 4 blank refl (omega arith)

parse_header_line_tilde_test :
    parse_header_line (codes "path: /~user") blank ≡ (blank, some (parser_exception bad_flag_value))
unfolding is_alpha is_flag is_value
parse_header_line_tilde_test =
    parse_header_line_tilde (codes "path") (codes "/") (codes "user") blank (ground arith)
      (ground arith)

method_test : (parse_first_line (codes "DHT PING x") blank).1 ≡ some (parser_exception bad_method)
unfolding parse_first_line
method_test = refl
