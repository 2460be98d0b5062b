-- ===== src/Parser/Gtt/Total.antt =====
-- Lemmas on the states `getPacket` goes through, and on how its loop ends.
use epyx.Base.{
  ℕ, zero, suc, ◌<◌, ◌≤◌, ◌≡◌, ◌≢◌, refl, inl, inr, [], ◌∷◌, Option, none, some, arith, length,
  Bytes, Option-cases,
}
use epyx.Parser.Line.{pop_line}
use epyx.Parser.Line.Laws.{pop_line_shorter}
use epyx.Parser.Packet.{GttPacket}
use epyx.Parser.Gtt.Syntax.{
  Fields, Thrown, parser_exception, fail_exception, parse_first_line, parse_header_line,
}
use epyx.Parser.Gtt.{
  Grammar, gtt_grammar, Datapos, datapos_first_line, datapos_headers, datapos_content, GttParser,
  Round, again, returned, threw, crashed, prepare, content, on_header, headers, after_header,
  after_first, first, round_at, round, run, catch, get_packet,
}

-- Past the first line there is a current packet.
abbrev pub HasPacket : Datapos → Option GttPacket → Type 0
HasPacket datapos_first_line p = Unit
HasPacket datapos_headers (some p) = Unit
HasPacket datapos_content (some p) = Unit
HasPacket _ none = ⊥

abbrev pub IsReady : GttParser → Type 0
IsReady s = HasPacket s.datapos s.current_pkt

-- How a turn may end: an exception is among those that `P` allows, and a turn that is not the last
-- leaves fewer than `n` bytes.
abbrev pub Ends : (Thrown → Type 0) → ℕ → Round → Type 0
Ends P n (again s) = IsReady s × (length s.buffer < n)
Ends P n (returned p s) = IsReady s
Ends P n (threw t s) = IsReady s × P t
Ends P n crashed = ⊥

abbrev pub Allowed : (Thrown → Type 0) → Option Thrown → Type 0
Allowed P none = Unit
Allowed P (some t) = P t

content-Ends :
    (P : Thrown → Type 0) (n : ℕ) (s : GttParser)
    → IsReady s
    → s.datapos ≡ datapos_content
    → Ends P n (content s)
unfolding content
content-Ends P n s r d = ground arith

module _ (g : Grammar) (P : Thrown → Type 0)
    (first_line_throws : (l : Bytes) (f : Fields) → Allowed P (g.first_line l f).1)
    (header_line_throws : (c : ℕ) (l : Bytes) (f : Fields)
      → Allowed P (g.header_line (c ∷ l) f).1) where
  after_header-Ends :
      (n : ℕ) (s : GttParser) (r : Fields × Option Thrown)
      → Allowed P r.1
      → s.datapos ≡ datapos_headers
      → length s.buffer < n
      → Ends P n (after_header s r)
  unfolding after_header
  after_header-Ends n s (f, none) a d h = ground arith
  after_header-Ends n s (f, some t) a d h = ground arith

  on_header-Ends :
      (n : ℕ) (line : Bytes) (s : GttParser)
      → IsReady s
      → s.datapos ≡ datapos_headers
      → length s.buffer < n
      → Ends P n (on_header g line s)
  unfolding on_header
  on_header-Ends n [] s r d h =
      content-Ends P n (record s { datapos = datapos_content }) (ground arith) refl
  on_header-Ends n (c ∷ line) s r d h = elim (Option-cases s.current_pkt) [
    | inl missing ↦ absurd (ground arith)
    | inr (p, found) ↦ rw found (
        after_header-Ends n s _
          (header_line_throws c line (record { pkt = p; size = s.current_size })) d h)
  ]

  headers-Ends :
      (n : ℕ) (s : GttParser)
      → IsReady s
      → s.datapos ≡ datapos_headers
      → length s.buffer ≤ n
      → Ends P n (headers g s)
  unfolding headers
  headers-Ends n s r d h = elim (Option-cases (pop_line s.buffer)) [
    | inl missing ↦ rw (missing, Ends) r
    | inr ((line, rest), found) ↦
        rw (found, Ends)
          (on_header-Ends n line (record s { buffer = rest }) r d
            (omega (arith, pop_line_shorter s.buffer line rest found)))
  ]

  after_first-Ends :
      (n : ℕ) (s : GttParser) (r : Fields × Option Thrown)
      → Allowed P r.1
      → s.datapos ≡ datapos_first_line
      → length s.buffer ≤ n
      → Ends P n (after_first g s r)
  unfolding after_first
  after_first-Ends n s (f, none) a d h = headers-Ends n _ tt refl h
  after_first-Ends n s (f, some t) a d h = ground arith

  pub round-Ends :
      (d : Datapos) (s : GttParser)
      → s.datapos ≡ d
      → IsReady s
      → Ends P (length s.buffer) (round_at d g s)
  unfolding first
  round-Ends datapos_first_line s d r = elim (Option-cases (pop_line s.buffer)) [
    | inl missing ↦ rw (missing, Ends) (ground arith)
    | inr ((line, rest), found) ↦
        rw (found, Ends)
          (after_first-Ends (length s.buffer) (record (prepare s) { buffer = rest }) _
            (first_line_throws line _) d (omega (arith, pop_line_shorter s.buffer line rest found)))
  ]
  round-Ends datapos_headers s d r = headers-Ends (length s.buffer) s r d (omega arith)
  round-Ends datapos_content s d r = content-Ends P (length s.buffer) s r d

  -- The end of the loop: no turn is left over.
  abbrev pub Stops : Round → Type 0
  Stops (again s) = ⊥
  Stops (returned p s) = IsReady s
  Stops (threw t s) = IsReady s × P t
  Stops crashed = ⊥

  pub run-Stops :
      (fuel : ℕ) (s : GttParser) → length s.buffer < fuel → IsReady s → Stops (run g fuel s)
  unfolding run
  run-Stops zero s h r = absurd (omega arith)
  run-Stops (suc fuel) s h r =
      run_on (run-Stops fuel) (round g s) refl (round-Ends s.datapos s refl r)
    where
      run_on :
          ((s' : GttParser) → length s'.buffer < fuel → IsReady s' → Stops (run g fuel s'))
          → (x : Round) → round g s ≡ x
          → Ends P (length s.buffer) x
          → Stops (run g (suc fuel) s)
      run_on next (again s') e i = rw (e, run) (next s' (omega arith) i.0)
      run_on next (returned p s') e i = rw (e, run) i
      run_on next (threw t s') e i = rw (e, run) i
      run_on next crashed e i = absurd i

  -- What `get_packet` comes to. Only an exception that is no ParserException gets past it.
  abbrev pub Finishes : Round → Type 0
  Finishes (again s) = ⊥
  Finishes (returned p s) = IsReady s
  Finishes (threw t s) = IsReady s × (t ≡ fail_exception) × P fail_exception
  Finishes crashed = ⊥

  catch-Finishes : (r : Round) → Stops r → Finishes (catch r)
  catch-Finishes (again s) h = elim h [ ]
  catch-Finishes crashed h = elim h [ ]
  catch-Finishes (returned p s) h = h
  catch-Finishes (threw (parser_exception e) s) h = h.0
  catch-Finishes (threw fail_exception s) h = (h.0, refl, h.1)

  pub get_packet-Finishes : (s : GttParser) → IsReady s → Finishes (get_packet g s)
  unfolding get_packet
  get_packet-Finishes s r = catch-Finishes _ (run-Stops (suc (length s.buffer)) s (omega arith) r)

abbrev NotFail : Thrown → Type 0
NotFail t = t ≢ fail_exception

first_line-NotFail : (l : Bytes) (f : Fields) → Allowed NotFail (parse_first_line l f).1
unfolding parse_first_line
first_line-NotFail [] f = λ e. cc
first_line-NotFail (c ∷ s) f = ground arith

header_line-NotFail :
    (c : ℕ) (l : Bytes) (f : Fields) → Allowed NotFail (parse_header_line (c ∷ l) f).1
unfolding parse_header_line
header_line-NotFail c l f = ground arith

-- From every state that has a packet where its position needs one, `getPacket` with the GTT methods
-- returns, throws nothing, follows no null pointer, and leaves such a state; its loop makes no more
-- turns than the buffer has bytes, and one.
pub get_packet_total :
    (s : GttParser)
    → IsReady s
    → (p : Option GttPacket) × (s' : GttParser) × (get_packet gtt_grammar s ≡ returned p s')
      × IsReady s'
get_packet_total s r =
    total (get_packet gtt_grammar s)
      (get_packet-Finishes gtt_grammar NotFail first_line-NotFail header_line-NotFail s r)
  where
    total :
        (x : Round)
        → Finishes gtt_grammar NotFail first_line-NotFail header_line-NotFail x
        → (p : Option GttPacket) × (s' : GttParser) × (x ≡ returned p s') × IsReady s'
    total (again s') h = elim h [ ]
    total crashed h = elim h [ ]
    total (returned p s') h = (p, s', refl, h)
    total (threw t s') h = absurd (h.2 refl)
