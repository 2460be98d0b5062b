-- ===== src/N2np/Stream/Tests.antt =====
-- The loop at a concrete input: packets are counted, and none throws.
use epyx.Base.{ℕ, suc, ◌≡◌, refl, ◌++◌, Option, none, codes}
use epyx.Parser.Line.{pop_line, push}
use epyx.Parser.Gtt.Syntax.{parse_first_line}
use epyx.Parser.Packet.{GttPacket}
use epyx.Parser.Gtt.{GttParser, new_parser}
use epyx.N2np.Stream.{Eaten, eaten, eat_loop, eat_stream}
use epyx.N2np.Stream.Laws.{Ended, eat_stream-Ended, eat_stream_segments}

abbrev count : GttPacket → ℕ → ℕ × Option ℕ
count p n = (suc n, none)

abbrev after : Eaten ℕ ℕ → GttParser
after (eaten p n) = p
after _ = new_parser

two_test :
    eat_stream count (codes "A B\r\n\r\nA C\r\n\r\n") new_parser 0
    ≡ eaten (after (eat_stream count (codes "A B\r\n\r\nA C\r\n\r\n") new_parser 0)) 2
unfolding eat_stream pop_line push parse_first_line
two_test = refl

eat_stream-Ended_example : Ended count (eat_stream count (codes "A B\r\n\r\n") new_parser 0)
eat_stream-Ended_example = eat_stream-Ended count (codes "A B\r\n\r\n") new_parser 0 tt

abbrev half : GttParser
half = after (eat_loop count (codes "A B\r\n\r\nA C") new_parser 0)

eat_stream_segments_example :
    eat_stream count (codes "A B\r\n\r\nA C" ++ codes "\r\n\r\n") new_parser 0
    ≡ eat_stream count (codes "\r\n\r\n") half 1
unfolding eat_loop pop_line push parse_first_line
eat_stream_segments_example =
    eat_stream_segments count (codes "A B\r\n\r\nA C") (codes "\r\n\r\n") new_parser half 0 1 tt
      refl refl
