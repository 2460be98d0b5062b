-- ===== src/Parser/Gtt/Shorter.antt =====
-- Lemmas on how much of the buffer is left when `getPacket` returns a packet.
use epyx.Base.{
  ℕ, zero, suc, ◌+◌, ◌<◌, ◌≤◌, ◌≡◌, refl, inl, inr, [], ◌∷◌, Option, none, some, arith, ltb, length,
  length-drop, Bytes, Bool-cases, Option-cases,
}
use epyx.Parser.Line.{pop_line, pop_data}
use epyx.Parser.Line.Laws.{pop_line_shorter}
use epyx.Parser.Packet.{GttPacket}
use epyx.Parser.Gtt.Syntax.{Fields, Thrown, parser_exception, fail_exception}
use epyx.Parser.Gtt.{
  Grammar, Datapos, datapos_first_line, datapos_headers, datapos_content, GttParser, Round, again,
  returned, threw, crashed, prepare, deliver, content, on_header, headers, after_header,
  after_first, first, round_at, round, run, catch, get_packet,
}

-- A packet that waits for its end counts for one byte more.
abbrev rank : Datapos → ℕ
rank datapos_first_line = 0
rank datapos_headers = 0
rank datapos_content = 1

abbrev pub weight : GttParser → ℕ
weight s = length s.buffer + rank s.datapos

abbrev pub Lightens : ℕ → Round → Type 0
Lightens n (again s) = weight s < n
Lightens n (returned (some p) s) = (weight s < n) × (s.error_message ≡ none)
Lightens n (returned none s) = Unit
Lightens n (threw t s) = Unit
Lightens n crashed = Unit

pop_data_shorter :
    (b : Bytes) (size : ℕ) (x y : Bytes) → pop_data b size ≡ some (x, y) → length y ≤ length b
unfolding pop_data
pop_data_shorter b size x y e = ground (arith, length-drop size b)

deliver-Lightens : (n : ℕ) (s : GttParser) → length s.buffer < n → Lightens n (deliver s)
unfolding deliver
deliver-Lightens n s h = elim (Option-cases s.current_pkt) [
  | inl missing ↦ rw (missing, Lightens) tt
  | inr (p, found) ↦ rw (found, Lightens) (omega arith, refl)
]

content-Lightens : (n : ℕ) (s : GttParser) → length s.buffer < n → Lightens n (content s)
unfolding content deliver
content-Lightens n s h = elim (Bool-cases (ltb 0 s.current_size)) [
  | inr empty ↦ rw empty (deliver-Lightens n s h)
  | inl sized ↦ elim (Option-cases (pop_data s.buffer s.current_size)) [
    | inl missing ↦ rw (sized, missing) tt
    | inr ((body, rest), found) ↦ elim (Option-cases s.current_pkt) [
      | inl lost ↦ rw (sized, found, lost) tt
      | inr (p, known) ↦
          rw (sized, found, known)
            (omega (arith, pop_data_shorter s.buffer s.current_size body rest found), refl)
    ]
  ]
]

module _ (g : Grammar) where
  after_header-Lightens :
      (n : ℕ) (s : GttParser) (r : Fields × Option Thrown)
      → s.datapos ≡ datapos_headers
      → length s.buffer < n
      → Lightens n (after_header s r)
  unfolding after_header
  after_header-Lightens n s (f, none) d h = rw d (omega arith)
  after_header-Lightens n s (f, some t) d h = tt

  on_header-Lightens :
      (n : ℕ) (line : Bytes) (s : GttParser)
      → s.datapos ≡ datapos_headers
      → length s.buffer < n
      → Lightens n (on_header g line s)
  unfolding on_header
  on_header-Lightens n [] s d h = content-Lightens n (record s { datapos = datapos_content }) h
  on_header-Lightens n (c ∷ line) s d h = elim (Option-cases s.current_pkt) [
    | inl missing ↦ rw missing tt
    | inr (p, found) ↦ rw found (after_header-Lightens n s _ d h)
  ]

  headers-Lightens :
      (n : ℕ) (s : GttParser)
      → s.datapos ≡ datapos_headers
      → length s.buffer ≤ n
      → Lightens n (headers g s)
  unfolding headers
  headers-Lightens n s d h = elim (Option-cases (pop_line s.buffer)) [
    | inl missing ↦ rw (missing, Lightens) tt
    | inr ((line, rest), found) ↦
        rw (found, Lightens)
          (on_header-Lightens n line (record s { buffer = rest }) d
            (omega (arith, pop_line_shorter s.buffer line rest found)))
  ]

  after_first-Lightens :
      (n : ℕ) (s : GttParser) (r : Fields × Option Thrown)
      → length s.buffer ≤ n
      → Lightens n (after_first g s r)
  unfolding after_first
  after_first-Lightens n s (f, none) h = headers-Lightens n _ refl h
  after_first-Lightens n s (f, some t) h = tt

  round-Lightens :
      (d : Datapos) (s : GttParser) → s.datapos ≡ d → Lightens (weight s) (round_at d g s)
  unfolding first
  round-Lightens datapos_first_line s d = elim (Option-cases (pop_line s.buffer)) [
    | inl missing ↦ rw (missing, Lightens) tt
    | inr ((line, rest), found) ↦
        rw (found, Lightens)
          (after_first-Lightens (weight s) (record (prepare s) { buffer = rest }) _
            (omega (arith, pop_line_shorter s.buffer line rest found)))
  ]
  round-Lightens datapos_headers s d = headers-Lightens (weight s) s d (omega arith)
  round-Lightens datapos_content s d = content-Lightens (weight s) s (rw d (omega arith))

  -- What holds at the end of the loop, and at the end of the call.
  abbrev Lighter : ℕ → Round → Type 0
  Lighter n (again s) = Unit
  Lighter n (returned (some p) s) = (weight s < n) × (s.error_message ≡ none)
  Lighter n (returned none s) = Unit
  Lighter n (threw t s) = Unit
  Lighter n crashed = Unit

  Lighter-mono : (m n : ℕ) (r : Round) → m ≤ n → Lighter m r → Lighter n r
  Lighter-mono m n (again s) l h = tt
  Lighter-mono m n (returned (some p) s) l h = (omega arith, h.1)
  Lighter-mono m n (returned none s) l h = tt
  Lighter-mono m n (threw t s) l h = tt
  Lighter-mono m n crashed l h = tt

  run-Lighter : (fuel : ℕ) (s : GttParser) → Lighter (weight s) (run g fuel s)
  unfolding run
  run-Lighter zero s = tt
  run-Lighter (suc fuel) s =
      run_on (run-Lighter fuel) (round g s) refl (round-Lightens s.datapos s refl)
    where
      run_on :
          ((s' : GttParser) → Lighter (weight s') (run g fuel s'))
          → (x : Round) → round g s ≡ x
          → Lightens (weight s) x
          → Lighter (weight s) (run g (suc fuel) s)
      run_on next (again s') e i =
          rw (e, run) (Lighter-mono (weight s') (weight s) _ (omega arith) (next s'))
      run_on next (returned none s') e i = rw (e, run) tt
      run_on next (returned (some p) s') e i = rw (e, run) i
      run_on next (threw t s') e i = rw (e, run) tt
      run_on next crashed e i = rw (e, run) tt

  catch-Lighter : (n : ℕ) (r : Round) → Lighter n r → Lighter n (catch r)
  catch-Lighter n (again s) h = tt
  catch-Lighter n (returned p s) h = h
  catch-Lighter n (threw (parser_exception e) s) h = tt
  catch-Lighter n (threw fail_exception s) h = tt
  catch-Lighter n crashed h = tt

  -- A call that returns a packet has taken something off the parser, and leaves no error.
  pub get_packet_lighter :
      (s s' : GttParser) (p : GttPacket)
      → get_packet g s ≡ returned (some p) s'
      → (weight s' < weight s) × (s'.error_message ≡ none)
  unfolding get_packet
  get_packet_lighter s s' p e =
      rw e at (catch-Lighter (weight s) _ (run-Lighter (suc (length s.buffer)) s))
