-- ===== src/Parser/Gtt/Steps.antt =====
-- What a turn does where its line, its data or its packet is known.
use epyx.Base.{ℕ, ◌≡◌, ◌∷◌, some, Bytes, ltb, true, arith}
use epyx.Parser.Line.{pop_line, pop_data}
use epyx.Parser.Packet.{GttPacket}
use epyx.Parser.Gtt.{
  Grammar, GttParser, prepare, allocate, content, on_header, headers, after_header, after_first,
  first, deliver,
}

module _ (g : Grammar) (s : GttParser) where
  pub on_header-some :
      (c : ℕ) (line : Bytes) (p : GttPacket)
      → s.current_pkt ≡ some p
      → on_header g (c ∷ line) s
        ≡ after_header s (g.header_line (c ∷ line) (record { pkt = p; size = s.current_size }))
  unfolding on_header
  on_header-some c line p e = rw e

  pub headers_some :
      (line rest : Bytes)
      → pop_line s.buffer ≡ some (line, rest)
      → headers g s ≡ on_header g line (record s { buffer = rest })
  unfolding headers
  headers_some line rest e = rw (e, headers)

  pub first-some :
      (line rest : Bytes)
      → pop_line s.buffer ≡ some (line, rest)
      → first g s
        ≡ after_first g
            (record (prepare s) { buffer = rest })
            (g.first_line line (record { pkt = allocate s.current_pkt; size = 0 }))
  unfolding first
  first-some line rest e = rw (e, first)

-- The packet that waits for its body.
pub content-some :
    (s : GttParser) (p : GttPacket) (body rest : Bytes)
    → ltb 0 s.current_size ≡ true
    → s.current_pkt ≡ some p
    → pop_data s.buffer s.current_size ≡ some (body, rest)
    → content s
      ≡ deliver (record s { current_pkt = some (record p { body = body }); buffer = rest })
unfolding content
content-some s p body rest sized known found = ground arith
