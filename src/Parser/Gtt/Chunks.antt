-- ===== src/Parser/Gtt/Chunks.antt =====
-- The loop of `getPacket` on a buffer that arrives in pieces.
use epyx.Base.{
  suc, ◌≡◌, refl, sym, subst, ap, ◌∙◌, inl, inr, [], ◌∷◌, Option, none, some, arith, ltb, length,
  Bytes, Bool-cases, Option-cases,
}
use epyx.Parser.Line.{pop_line, pop_data}
use epyx.Parser.Line.Laws.{pop_line-push, pop_data-push}
use epyx.Parser.Packet.{GttPacket}
use epyx.Parser.Gtt.Syntax.{Fields, Thrown, parser_exception, fail_exception}
use epyx.Parser.Gtt.Steps.{on_header-some, headers_some, first-some}
use epyx.Parser.Gtt.Total.{IsReady}
use epyx.Parser.Gtt.Turns.{
  IsLast, Runs, last_turn, turn, run-Runs, Runs-same, round_again, Runs-Leaves, Runs-total,
}
use epyx.Parser.Gtt.{
  Grammar, Datapos, datapos_first_line, datapos_headers, datapos_content, GttParser, Round, again,
  returned, threw, crashed, eat, update, prepare, content, on_header, headers, after_header,
  after_first, first, round_at, round, catch, get_packet,
}

module _ (g : Grammar) (fresh : Bytes) where
  -- How a turn ends with more data in the buffer (`x`), from how it ends without: as before, with
  -- the data behind, or, where bytes were missing, as from the state that was left.
  abbrev Fed : Round → Round → Type 0
  Fed x (again s) = x ≡ again (eat s fresh)
  Fed x (returned none s) = x ≡ round g (eat s fresh)
  Fed x (returned (some p) s) = x ≡ returned (some p) (eat s fresh)
  Fed x (threw t s) = x ≡ threw t (eat s fresh)
  Fed x crashed = Unit

  content-Fed :
      (s : GttParser)
      → IsReady s
      → s.datapos ≡ datapos_content
      → Fed (content (eat s fresh)) (content s)
  unfolding content
  content-Fed s r d = elim (Bool-cases (ltb 0 s.current_size)) [
    | inl sized ↦ elim (Option-cases (pop_data s.buffer s.current_size)) [
      | inl missing ↦ ground arith
      | inr ((body, rest), found) ↦
          ground (arith, pop_data-push s.buffer fresh s.current_size body rest found)
    ]
    | inr empty ↦ ground arith
  ]

  after_header-Fed :
      (s : GttParser) (r : Fields × Option Thrown)
      → Fed (after_header (eat s fresh) r) (after_header s r)
  unfolding after_header
  after_header-Fed s (f, none) = refl
  after_header-Fed s (f, some t) = refl

  on_header-Fed :
      (line : Bytes) (s : GttParser)
      → IsReady s
      → s.datapos ≡ datapos_headers
      → Fed (on_header g line (eat s fresh)) (on_header g line s)
  unfolding on_header
  on_header-Fed [] s r d = content-Fed (record s { datapos = datapos_content }) (ground arith) refl
  on_header-Fed (c ∷ line) s r d = elim (Option-cases s.current_pkt) [
    | inl missing ↦ absurd (ground arith)
    | inr (p, found) ↦
        rw (on_header-some g s c line p found, on_header-some g (eat s fresh) c line p found)
          (after_header-Fed s
            (g.header_line (c ∷ line) (record { pkt = p; size = s.current_size })))
  ]

  headers-Fed :
      (s : GttParser)
      → IsReady s
      → s.datapos ≡ datapos_headers
      → Fed (headers g (eat s fresh)) (headers g s)
  unfolding headers
  headers-Fed s r d = elim (Option-cases (pop_line s.buffer)) [
    | inl missing ↦ rw (missing, Fed, d) refl
    | inr ((line, rest), found) ↦
        rw
          (
            headers_some g s line rest found,
            headers_some g (eat s fresh) line _ (pop_line-push s.buffer fresh line rest found),
          )
          (on_header-Fed line (record s { buffer = rest }) r d)
  ]

  after_first-Fed :
      (s : GttParser) (r : Fields × Option Thrown)
      → Fed (after_first g (eat s fresh) r) (after_first g s r)
  unfolding after_first
  after_first-Fed s (f, none) =
      headers-Fed (record (update s f) { datapos = datapos_headers }) tt refl
  after_first-Fed s (f, some t) = refl

  first-Fed :
      (s : GttParser) → s.datapos ≡ datapos_first_line → Fed (first g (eat s fresh)) (first g s)
  unfolding first
  first-Fed s d = elim (Option-cases (pop_line s.buffer)) [
    | inl missing ↦ rw (missing, Fed, d) refl
    | inr ((line, rest), found) ↦
        rw
          (
            first-some g s line rest found,
            first-some g (eat s fresh) line _ (pop_line-push s.buffer fresh line rest found),
          )
          (after_first-Fed (record (prepare s) { buffer = rest }) _)
  ]

  round-Fed :
      (d : Datapos) (s : GttParser)
      → IsReady s
      → s.datapos ≡ d
      → Fed (round_at d g (eat s fresh)) (round_at d g s)
  round-Fed datapos_first_line s r d = first-Fed s d
  round-Fed datapos_headers s r d = headers-Fed s r d
  round-Fed datapos_content s r d = content-Fed s r d

  Fed-round : (s : GttParser) → IsReady s → Fed (round g (eat s fresh)) (round g s)
  Fed-round s r = round-Fed s.datapos s r refl

  -- The same for the whole chain of turns. A chain from the state that was left is one from here.
  abbrev FedRuns : GttParser → Round → Type 0
  FedRuns s (again s') = Unit
  FedRuns s (returned none s') = (r : Round) → Runs g r (eat s' fresh) → Runs g r (eat s fresh)
  FedRuns s (returned (some p) s') = Runs g (returned (some p) (eat s' fresh)) (eat s fresh)
  FedRuns s (threw t s') = Runs g (threw t (eat s' fresh)) (eat s fresh)
  FedRuns s crashed = Unit

  last-FedRuns :
      (s : GttParser) (r : Round) → Fed (round g (eat s fresh)) r → IsLast r → FedRuns s r
  last-FedRuns s (again s') f l = tt
  last-FedRuns s (returned none s') f l = Runs-same g (eat s fresh) (eat s' fresh) f
  last-FedRuns s (returned (some p) s') f l = last_turn f tt
  last-FedRuns s (threw t s') f l = last_turn f tt
  last-FedRuns s crashed f l = tt

  turn-FedRuns :
      (s s' : GttParser) (r : Round)
      → round g (eat s fresh) ≡ again (eat s' fresh)
      → FedRuns s' r
      → FedRuns s r
  turn-FedRuns s s' (again t) e f = tt
  turn-FedRuns s s' (returned none t) e f = λ r runs. turn e (f r runs)
  turn-FedRuns s s' (returned (some p) t) e f = turn e f
  turn-FedRuns s s' (threw x t) e f = turn e f
  turn-FedRuns s s' crashed e f = tt

  Runs-FedRuns : {r : Round} {s : GttParser} → Runs g r s → IsReady s → FedRuns s r
  Runs-FedRuns {r} {s} (last_turn e l) i = last-FedRuns s r (rw e at (Fed-round s i)) l
  Runs-FedRuns {r} {s} (turn {s' = s'} e next) i =
      turn-FedRuns s s' r (rw e at (Fed-round s i)) (Runs-FedRuns next (round_again g s s' i e).0)

  get_packet-Runs : {r : Round} {s : GttParser} → Runs g r s → IsReady s → get_packet g s ≡ catch r
  unfolding get_packet
  get_packet-Runs {r} {s} runs i =
      ap catch (run-Runs g runs i (suc (length s.buffer)) (omega arith))

  -- How a call with the data that is missing relates to the call before it.
  abbrev pub Resumes : GttParser → Round → Type 0
  Resumes s (returned (some p) s') = get_packet g (eat s fresh) ≡ returned (some p) (eat s' fresh)
  Resumes s (returned none s') =
      s'.error_message ≡ none → get_packet g (eat s fresh) ≡ get_packet g (eat s' fresh)
  Resumes s _ = Unit

  Runs-Resumes :
      (s : GttParser) (r : Round) → IsReady s → Runs g r s → FedRuns s r → Resumes s (catch r)
  Runs-Resumes s (again t) i runs f = tt
  Runs-Resumes s (returned none t) i runs f = λ e.
      let i' : IsReady t = Runs-Leaves g runs i in
      let (r, l, later) = Runs-total g (eat t fresh) i' in
      get_packet-Runs (f r later) i ∙ sym (get_packet-Runs later i')
  Runs-Resumes s (returned (some p) t) i runs f = get_packet-Runs f i
  Runs-Resumes s (threw (parser_exception e) t) i runs f = λ q. absurd (cc)
  Runs-Resumes s (threw fail_exception t) i runs f = tt
  Runs-Resumes s crashed i runs f = tt

  get_packet-Resumes : (s : GttParser) → IsReady s → Resumes s (get_packet g s)
  get_packet-Resumes s i =
      let (r, l, runs) = Runs-total g s i in
      rw (get_packet-Runs runs i) (Runs-Resumes s r i runs (Runs-FedRuns runs i))

  -- What a call gives that another call with the same packet would have returned already, or that goes
  -- on where it had none.
  abbrev pub resumed : Option GttPacket → GttParser → Round
  resumed (some p) s = returned (some p) s
  resumed none s = get_packet g s

  resume :
      (s s' : GttParser) (p : Option GttPacket)
      → s'.error_message ≡ none
      → Resumes s (returned p s')
      → get_packet g (eat s fresh) ≡ resumed p (eat s' fresh)
  resume s s' none n h = h n
  resume s s' (some p) n h = h

  -- For any pair of virtual methods and any state that has a packet where its position needs one:
  -- where a call of `getPacket` returns and leaves no error, the call with more data behind the
  -- buffer returns the same packet, with that data left over, and where it returned no packet,
  -- giving the data afterwards and calling again is the same as having given it before.
  pub get_packet-eat :
      (s s' : GttParser) (p : Option GttPacket)
      → IsReady s
      → get_packet g s ≡ returned p s'
      → s'.error_message ≡ none
      → get_packet g (eat s fresh) ≡ resumed p (eat s' fresh)
  get_packet-eat s s' p i e n = resume s s' p n (subst (Resumes s) e (get_packet-Resumes s i))
