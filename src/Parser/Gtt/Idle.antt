-- ===== src/Parser/Gtt/Idle.antt =====
-- Lemmas on `getPacket` between two packets: a packet with nothing in it is as good as none.
use epyx.Base.{
  ℕ, suc, ◌≡◌, refl, sym, ap, inl, inr, Option-cases, ◌∙◌, [], ◌++◌, none, some, length, Bytes,
}
use epyx.Parser.Line.{pop_line}
use epyx.Parser.Packet.{GttPacket, new_packet, build}
use epyx.Parser.Gtt.RoundTrip.{get_packet-build}
use epyx.Parser.Gtt.WellFormed.{IsWellFormed}
use epyx.Parser.Gtt.{
  Grammar, GttParser, gtt_grammar, returned, get_packet, start_packet, allocate, prepare, first,
  run, round, round_at, catch, datapos_first_line,
}

-- A parser between two packets, without an error.
pub record IsIdle (p : GttParser) : Type 0 where
  pub start : p.datapos ≡ datapos_first_line
  pub pkt : allocate p.current_pkt ≡ new_packet
  pub fine : p.error_message ≡ none

abbrev forget : GttParser → GttParser
forget p = record p { current_pkt = none }

first-forget :
    (g : Grammar) (p : GttParser)
    → allocate p.current_pkt ≡ new_packet
    → first g p ≡ first g (forget p)
unfolding first
first-forget g p e = elim (Option-cases (pop_line p.buffer)) [
  | inl missing ↦ rw (missing, first) (rw e)
  | inr ((line, rest), found) ↦ rw (found, first) (rw e)
]

round-forget :
    (g : Grammar) (p : GttParser)
    → p.datapos ≡ datapos_first_line
    → allocate p.current_pkt ≡ new_packet
    → round g p ≡ round g (forget p)
round-forget g p d e =
    ap (λ x. round_at x g p) d ∙ first-forget g p e ∙ sym (ap (λ x. round_at x g (forget p)) d)

run-forget :
    (g : Grammar) (n : ℕ) (p : GttParser)
    → round g p ≡ round g (forget p)
    → run g (suc n) p ≡ run g (suc n) (forget p)
unfolding run
run-forget g n p e = rw (e, run)

get_packet-forget :
    (g : Grammar) (p : GttParser)
    → p.datapos ≡ datapos_first_line
    → allocate p.current_pkt ≡ new_packet
    → get_packet g p ≡ get_packet g (forget p)
unfolding get_packet
get_packet-forget g p d e = ap catch (run-forget g (length p.buffer) p (round-forget g p d e))

pub get_packet-build_idle :
    (s : GttParser) (p : GttPacket) (rest : Bytes)
    → IsIdle s
    → IsWellFormed p
    → get_packet gtt_grammar (record s { buffer = build p ++ rest })
      ≡ returned (some p) (start_packet (record s { buffer = rest }))
get_packet-build_idle s p rest i w =
    get_packet-forget gtt_grammar (record s { buffer = build p ++ rest }) i.start i.pkt
    ∙ get_packet-build (forget s) p rest i.start refl w

run_idle :
    (g : Grammar) (n : ℕ) (s : GttParser)
    → round g s ≡ returned none (prepare s)
    → run g (suc n) s ≡ returned none (prepare s)
unfolding run
run_idle g n s e = rw (e, run)

pub get_packet_idle :
    (s : GttParser)
    → IsIdle s
    → get_packet gtt_grammar (record s { buffer = [] })
      ≡ returned none (prepare (record s { buffer = [] }))
unfolding get_packet first pop_line
get_packet_idle s i = ap catch (
    run_idle gtt_grammar 0 (record s { buffer = [] })
      (ap (λ x. round_at x gtt_grammar (record s { buffer = [] })) i.start))
