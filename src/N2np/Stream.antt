-- ===== src/N2np/Stream.antt =====
-- The loop that N2NP::Node::eat (n2np/node.cpp) and RelaySocket::eat (n2np/relaysocket.cpp) share:
-- the bytes go to the parser, every packet that it returns is handled, and an error resets it.
-- `handle` is what is done with a packet; it may throw an `F`. The child Laws is about how it ends
-- and what it hands on.
pub mod Laws
pub mod Packets
mod Tests
use epyx.Base.{ℕ, zero, suc, ◌+◌, List, [], ◌∷◌, Option, none, some, length, Bytes}
use epyx.Parser.Packet.{GttPacket}
use epyx.Parser.Gtt.{
  GttParser, gtt_grammar, Round, again, returned, threw, crashed, get_packet, eat, get_error, reset,
}

-- `raised` is an exception that leaves `eat`, and `unending` a loop that has not ended.
pub data Eaten (S F : Type 0) : Type 0 where
  eaten : GttParser → S → Eaten S F
  raised : F → GttParser → S → Eaten S F
  broken : Eaten S F
  unending : Eaten S F

-- `if (gttparser.getError(error)) gttparser.reset();`.
abbrev pub recover : GttParser → GttParser
recover parser = elim (get_error parser) [ none ↦ parser | some e ↦ reset parser ]

abbrev pub close : {S F : Type 0} → Eaten S F → Eaten S F
close (eaten parser s) = eaten (recover parser) s
close (raised f parser s) = raised f parser s
close broken = broken
close unending = unending

module _ {S F : Type 0} (handle : GttPacket → S → S × Option F) where
  unfoldable pub next_turn : (S → Eaten S F) → GttParser → S × Option F → Eaten S F
  next_turn go parser (s, none) = go s
  next_turn go parser (s, some f) = raised f parser s

  -- `while ((gttpkt = gttparser.getPacket()))`, on fuel.
  unfoldable pub feed : ℕ → GttParser → S → Eaten S F
  unfolding get_packet next_turn
  feed zero parser s = unending
  feed (suc fuel) parser s = elim (get_packet gtt_grammar parser) [
    | returned none parser' ↦ eaten parser' s
    | returned (some p) parser' ↦ next_turn (feed fuel parser') parser' (handle p s)
    | threw t parser' ↦ broken
    | again parser' ↦ unending
    | crashed ↦ broken
  ]

  -- Each packet takes a byte off the buffer, but one that waited for its end.
  unfoldable pub feed_all : GttParser → S → Eaten S F
  unfolding feed
  feed_all parser s = feed (suc (suc (length parser.buffer))) parser s

  -- `eat`, up to the end of its loop, and to its own end.
  unfoldable pub eat_loop : Bytes → GttParser → S → Eaten S F
  unfolding feed_all
  eat_loop fresh parser s = feed_all (eat parser fresh) s

  unfoldable pub eat_stream : Bytes → GttParser → S → Eaten S F
  unfolding eat_loop
  eat_stream fresh parser s = close (eat_loop fresh parser s)
