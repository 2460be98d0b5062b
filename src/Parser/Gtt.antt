-- ===== src/Parser/Gtt.antt =====
-- parser/gttparser.h and parser/gttparser.cpp: the states of the parser and `getPacket`.
-- The virtual methods `parseFirstLine` and `parseHeaderLine` are the fields of a `Grammar`; the
-- children Syntax (their GTT version) and Http of the parent give the two that there are. A method
-- works on the current packet and the body size, and may throw. `round` is one turn of the loop
-- of `getPacket`. The children Chunks, Total and RoundTrip prove what the loop does.
pub mod Syntax
pub mod Total
pub mod Steps
pub mod Turns
pub mod Chunks
pub mod Shorter
pub mod Idle
pub mod WellFormed
pub mod RoundTrip
mod Tests
use epyx.Base.{
  ℕ, zero, suc, ◌+◌, Bool, true, false, List, [], ◌∷◌, Option, none, some, ltb, if◌then◌else◌,
  length, Bytes,
}
use epyx.Parser.Line
use epyx.Parser.Line.{pop_line, pop_data}
use epyx.Parser.Packet.{GttPacket, new_packet}
use Syntax.{
  Fields, Thrown, ParseError, parser_exception, fail_exception, parse_first_line, parse_header_line,
}

pub record Grammar : Type 0 where
  pub first_line : Bytes → Fields → Fields × Option Thrown
  pub header_line : Bytes → Fields → Fields × Option Thrown

-- The methods of GTTParser itself.
abbrev pub gtt_grammar : Grammar
gtt_grammar = record { first_line = parse_first_line; header_line = parse_header_line }

pub data Datapos : Type 0 where
  datapos_first_line datapos_headers datapos_content : Datapos

pub record GttParser : Type 0 where
  pub current_pkt : Option GttPacket
  pub current_size : ℕ
  pub error_message : Option ParseError
  pub buffer : Bytes
  pub datapos : Datapos

-- `GTTParser::startPacket`. The message stands for `hasError` too, which is set with it.
abbrev pub start_packet : GttParser → GttParser
start_packet s = record s {
  current_pkt = none;
  current_size = 0;
  error_message = none;
  datapos = datapos_first_line;
}

abbrev pub reset : GttParser → GttParser
reset s = start_packet (record s { buffer = [] })

-- The constructor.
abbrev pub new_parser : GttParser
new_parser = record {
  current_pkt = none;
  current_size = 0;
  error_message = none;
  buffer = [];
  datapos = datapos_first_line;
}

-- `GTTParser::eat`.
abbrev pub eat : GttParser → Bytes → GttParser
eat s fresh = record s { buffer = Line.push s.buffer fresh }

-- How a turn of the loop ends: with `break`, with a `return`, with an exception, or by following
-- the null pointer `currentPkt`.
pub data Round : Type 0 where
  again : GttParser → Round
  returned : Option GttPacket → GttParser → Round
  threw : Thrown → GttParser → Round
  crashed : Round

abbrev pub with_pkt : GttParser → (GttPacket → Round) → Round
with_pkt s f = elim s.current_pkt [ none ↦ crashed | some p ↦ f p ]

-- `pkt.swap(currentPkt)` and `startPacket`.
pub deliver : GttParser → Round
deliver s = returned s.current_pkt (start_packet s)

pub content : GttParser → Round
unfolding deliver
content s =
    if ltb 0 s.current_size
    then elim (pop_data s.buffer s.current_size) [
      | none ↦ returned none s
      | some (body, rest) ↦
          with_pkt s
            λ p. deliver (record s { current_pkt = some (record p { body = body }); buffer = rest })
    ]
    else deliver s

-- What a virtual method leaves behind.
abbrev pub update : GttParser → Fields → GttParser
update s f = record s { current_pkt = some f.pkt; current_size = f.size }

pub after_header : GttParser → Fields × Option Thrown → Round
after_header s (f, none) = again (update s f)
after_header s (f, some t) = threw t (update s f)

pub on_header : Grammar → Bytes → GttParser → Round
unfolding content after_header
on_header g [] s = content (record s { datapos = datapos_content })
on_header g (c ∷ line) s =
    with_pkt s
      λ p. after_header s (g.header_line (c ∷ line) (record { pkt = p; size = s.current_size }))

pub headers : Grammar → GttParser → Round
unfolding on_header
headers g s = elim (pop_line s.buffer) [
  | none ↦ returned none s
  | some (line, rest) ↦ on_header g line (record s { buffer = rest })
]

unfoldable pub after_first : Grammar → GttParser → Fields × Option Thrown → Round
unfolding headers
after_first g s (f, none) = headers g (record (update s f) { datapos = datapos_headers })
after_first g s (f, some t) = threw t (update s f)

-- `if (!currentPkt) currentPkt.reset(new GTTPacket())`, and `currentSize = 0`.
abbrev pub allocate : Option GttPacket → GttPacket
allocate none = new_packet
allocate (some p) = p

abbrev pub prepare : GttParser → GttParser
prepare s = record s { current_pkt = some (allocate s.current_pkt); current_size = 0 }

pub first : Grammar → GttParser → Round
unfolding after_first
first g s = elim (pop_line s.buffer) [
  | none ↦ returned none (prepare s)
  | some (line, rest) ↦
      after_first g (record (prepare s) { buffer = rest })
        (g.first_line line (record { pkt = allocate s.current_pkt; size = 0 }))
]

abbrev pub round_at : Datapos → Grammar → GttParser → Round
round_at datapos_first_line g s = first g s
round_at datapos_headers g s = headers g s
round_at datapos_content g s = content s

-- `switch (datapos)`.
abbrev pub round : Grammar → GttParser → Round
round g s = round_at s.datapos g s

-- `while (true)`, on fuel. When it runs out the result is `again`.
unfoldable pub run : Grammar → ℕ → GttParser → Round
run g zero s = again s
run g (suc fuel) s = elim (round g s) [
  | again s' ↦ run g fuel s'
  | returned p s' ↦ returned p s'
  | threw t s' ↦ threw t s'
  | crashed ↦ crashed
]

-- The handler: a ParserException is kept as the error; any other exception leaves `getPacket`.
abbrev pub catch : Round → Round
catch (again s) = again s
catch (returned p s) = returned p s
catch (threw (parser_exception e) s) = returned none (record s { error_message = some e })
catch (threw fail_exception s) = threw fail_exception s
catch crashed = crashed

-- `GTTParser::getPacket`. Each turn but the last takes a line off the buffer.
unfoldable pub get_packet : Grammar → GttParser → Round
unfolding run first headers content
get_packet g s = catch (run g (suc (length s.buffer)) s)

-- `GTTParser::getError`.
abbrev pub get_error : GttParser → Option ParseError
get_error s = s.error_message
