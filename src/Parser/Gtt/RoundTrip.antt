-- ===== src/Parser/Gtt/RoundTrip.antt =====
-- Lemmas on `getPacket` run on the text of `GTTPacket::build`.
use epyx.Base.{
  ℕ, suc, ◌^◌, ◌<◌, ◌≡◌, ◌≢◌, refl, sym, ap, subst, ◌∙◌, true, List, [], ◌∷◌, ◌++◌, append-nil,
  append_assoc, none, some, arith, ltb, length, Bytes, All, bytes_lt,
}
use epyx.Base.Dict.{Dict, IsSorted, bytes_order, set_last}
use epyx.Core.Text.Number.{from_unsigned_long-digits, from_unsigned_long-Starts}
use epyx.Core.Text.{crlf, from_unsigned_long}
use epyx.Parser.Line.Laws.{IsLine, pop_line-crlf, pop_data-append}
use epyx.Parser.Packet.{GttPacket, new_packet, build_headers, build_length, build, content_length}
use epyx.Parser.Gtt.Syntax.Read.{
  IsName, IsFlag, IsValue, parse_first_line_names, parse_header_line_flag, store_flag_other,
  store_flag_length, IsValue-digits, IsFlag-content_length,
}
use epyx.Parser.Gtt.Syntax.{Fields, parse_first_line, parse_header_line}
use epyx.Parser.Gtt.Steps.{on_header-some, headers_some, first-some}
use epyx.Parser.Gtt.WellFormed.{IsHeader, IsWellFormed, first-IsLine, header-IsLine}
use epyx.Parser.Gtt.Turns.{Runs, last_turn, turn, run-Runs, Runs-same}
use epyx.Parser.Gtt.{
  gtt_grammar, GttParser, datapos_first_line, datapos_headers, datapos_content, Round, again,
  returned, deliver, content, on_header, after_header, after_first, round, catch, get_packet,
  start_packet, prepare, allocate, round_at,
}

-- The parser in a position with a packet, a size and a buffer.
abbrev at : GttParser → GttPacket → ℕ → Bytes → GttParser
at s p n b = record s {
  current_pkt = some p;
  current_size = n;
  buffer = b;
  datapos = datapos_headers;
}

header_line-round :
    (s : GttParser) (p : GttPacket) (n : ℕ) (line rest : Bytes) (f : Fields)
    → IsLine line
    → line ≢ []
    → parse_header_line line (record { pkt = p; size = n }) ≡ (f, none)
    → round gtt_grammar (at s p n (line ++ (crlf ++ rest))) ≡ again (at s f.pkt f.size rest)
unfolding after_header
header_line-round s p n [] rest f l ne e = absurd (ne refl)
header_line-round s p n (c ∷ line) rest f l ne e =
    headers_some gtt_grammar (at s p n ((c ∷ line) ++ (crlf ++ rest))) (c ∷ line) rest
      (pop_line-crlf (c ∷ line) rest l)
    ∙ on_header-some gtt_grammar (at s p n rest) c line p refl
    ∙ ap (after_header (at s p n rest)) e

IsFlag-line : (k v : Bytes) → IsFlag k → k ++ b':' ∷ b' ' ∷ v ≢ []
IsFlag-line [] v h = absurd h
IsFlag-line (c ∷ k) v h = λ e. cc

-- The keys read so far stand below those to come.
abbrev Below : Dict Bytes Bytes → Dict Bytes Bytes → Type 0
Below done hs = All (λ h. All (λ e. bytes_lt e.0 h.0 ≡ true) done) hs

All-concat {ℓ κ} :
    {A : Type ℓ} (P : A → Type κ) (xs : List A) (x : A) → All P xs → P x → All P (xs ++ x ∷ [])
All-concat P [] x a h = (h, tt)
All-concat P (y ∷ xs) x a h = (a.0, All-concat P xs x a.1 h)

Below-concat :
    (k v : Bytes) (done hs : Dict Bytes Bytes)
    → Below done hs
    → All (λ e. bytes_lt k e.0 ≡ true) hs
    → Below (done ++ (k, v) ∷ []) hs
Below-concat k v done [] b a = tt
Below-concat k v done (h ∷ hs) b a = (
  All-concat (λ e. bytes_lt e.0 h.0 ≡ true) done (k, v) b.0 a.0,
  Below-concat k v done hs b.1 a.1,
)

line_shape :
    (k v x rest : Bytes)
    → (k ++ (b':' ∷ b' ' ∷ (v ++ (crlf ++ x)))) ++ rest
      ≡ (k ++ b':' ∷ b' ' ∷ v) ++ (crlf ++ (x ++ rest))
line_shape k v x rest = simp append_assoc

header-Fields :
    (k v : Bytes) (p : GttPacket) (done : Dict Bytes Bytes)
    → IsHeader (k, v)
    → All (λ e. bytes_lt e.0 k ≡ true) done
    → parse_header_line
        (k ++ b':' ∷ b' ' ∷ v)
        (record { pkt = record p { headers = done }; size = 0 })
      ≡ (record { pkt = record p { headers = done ++ (k, v) ∷ [] }; size = 0 }, none)
header-Fields k v p done h b =
    let f : Fields = record { pkt = record p { headers = done }; size = 0 } in
    parse_header_line_flag k v f h.flag h.value
    ∙ store_flag_other k v f h.other
    ∙ ap (λ (hs : Dict Bytes Bytes). (record { pkt = record p { headers = hs }; size = 0 }, none))
        (set_last k v done b)

-- The header lines take the parser from the headers read so far to all of them.
headers-Runs :
    (r : Round) (s : GttParser) (p : GttPacket) (hs done : Dict Bytes Bytes) (rest : Bytes)
    → All IsHeader hs
    → IsSorted hs
    → Below done hs
    → Runs gtt_grammar r (at s (record p { headers = done ++ hs }) 0 rest)
    → Runs gtt_grammar r (at s (record p { headers = done }) 0 (build_headers hs ++ rest))
unfolding build_headers
headers-Runs r s p [] done rest h o b runs = rw append-nil at runs
headers-Runs r s p ((k, v) ∷ hs) done rest h o b runs =
    let e =
      header_line-round s (record p { headers = done }) 0 (k ++ b':' ∷ b' ' ∷ v)
        (build_headers hs ++ rest) _ (header-IsLine k v h.0.flag h.0.value)
        (IsFlag-line k v h.0.flag) (header-Fields k v p done h.0 b.0) in
    let next =
      headers-Runs r s p hs (done ++ (k, v) ∷ []) rest h.1 o.1 (Below-concat k v done hs b.1 o.0)
        (rw (append_assoc done ((k, v) ∷ []) hs) runs) in
    rw (line_shape k v (build_headers hs) rest) (turn e next)

length_shape :
    (name v rest : Bytes)
    → (name ++ (b':' ∷ b' ' ∷ (v ++ crlf))) ++ rest ≡ (name ++ b':' ∷ b' ' ∷ v) ++ (crlf ++ rest)
length_shape name v rest = simp append_assoc

-- The line with the length of the body, which an empty body has not.
length-Runs :
    (r : Round) (s : GttParser) (p : GttPacket) (body rest : Bytes)
    → length body < 2 ^ 63
    → Runs gtt_grammar r (at s p (length body) rest)
    → Runs gtt_grammar r (at s p 0 (build_length body ++ rest))
unfolding build_length
length-Runs r s p [] rest h runs = runs
length-Runs r s p (c ∷ body) rest h runs =
    let n : ℕ = length (c ∷ body) in
    let v : IsValue (from_unsigned_long n) =
      IsValue-digits _ (from_unsigned_long-Starts n) (from_unsigned_long-digits n) in
    let f : Fields = record { pkt = p; size = 0 } in
    let e =
      header_line-round s p 0 (content_length ++ b':' ∷ b' ' ∷ from_unsigned_long n) rest
        (record f { size = n }) (header-IsLine content_length _ IsFlag-content_length v)
        (IsFlag-line content_length (from_unsigned_long n) IsFlag-content_length)
        (parse_header_line_flag content_length _ f IsFlag-content_length v
          ∙ store_flag_length n f refl (omega arith) h) in
    let some_body : ltb 0 n ≡ true = ground arith in
    rw some_body (
      subst (λ (b : Bytes). Runs gtt_grammar r (at s p 0 b))
        (sym (length_shape content_length (from_unsigned_long n) rest)) (turn e runs))

content_body :
    (s : GttParser) (p : GttPacket) (body rest : Bytes)
    → p.body ≡ []
    → content (record (at s p (length body) (body ++ rest)) { datapos = datapos_content })
      ≡ returned (some (record p { body = body })) (start_packet (record s { buffer = rest }))
unfolding content deliver
content_body s p [] rest e =
    ap
      (λ (b : Bytes).
        returned (some (record p { body = b })) (start_packet (record s { buffer = rest })))
      e
content_body s p (c ∷ body) rest e =
    let t : ltb 0 (length (c ∷ body)) ≡ true = ground arith in
    rw t (rw (pop_data-append (c ∷ body) rest))

-- The empty line, and the body.
body-round :
    (s : GttParser) (p : GttPacket) (body rest : Bytes)
    → p.body ≡ []
    → round gtt_grammar (at s p (length body) (crlf ++ (body ++ rest)))
      ≡ returned (some (record p { body = body })) (start_packet (record s { buffer = rest }))
unfolding on_header
body-round s p body rest e =
    headers_some gtt_grammar (at s p (length body) (crlf ++ (body ++ rest))) [] (body ++ rest)
      (pop_line-crlf [] (body ++ rest) tt)
    ∙ content_body s p body rest e

-- The first line, behind which the same turn goes on with the headers.
first_line-round :
    (s : GttParser) (p m rest : Bytes)
    → s.datapos ≡ datapos_first_line
    → s.current_pkt ≡ none
    → IsName p
    → IsName m
    → round gtt_grammar (record s { buffer = (p ++ b' ' ∷ m) ++ (crlf ++ rest) })
      ≡ round gtt_grammar (at s (record new_packet { protocol = p; method = m }) 0 rest)
unfolding after_first
first_line-round s p m rest d k hp hm =
    let t : GttParser = record s { buffer = (p ++ b' ' ∷ m) ++ (crlf ++ rest) } in
    let t' : GttParser = record (prepare t) { buffer = rest } in
    ap (λ x. round_at x gtt_grammar t) d
    ∙ first-some gtt_grammar t (p ++ b' ' ∷ m) rest
        (pop_line-crlf (p ++ b' ' ∷ m) rest (first-IsLine p m hp hm))
    ∙ ap
        (λ x.
          after_first gtt_grammar t'
            (parse_first_line (p ++ b' ' ∷ m) (record { pkt = allocate x; size = 0 })))
        k
    ∙ ap (after_first gtt_grammar t')
        (parse_first_line_names p m (record { pkt = new_packet; size = 0 }) hp hm)

build_shape :
    (p m hs l body rest : Bytes)
    → (p ++ (b' ' ∷ (m ++ (crlf ++ (hs ++ (l ++ (crlf ++ body))))))) ++ rest
      ≡ (p ++ b' ' ∷ m) ++ (crlf ++ (hs ++ (l ++ (crlf ++ (body ++ rest)))))
build_shape p m hs l body rest = simp append_assoc

All-nil : (hs : Dict Bytes Bytes) → Below [] hs
All-nil [] = tt
All-nil (h ∷ hs) = (tt, All-nil hs)

build-Runs :
    (s : GttParser) (p : GttPacket) (rest : Bytes)
    → s.datapos ≡ datapos_first_line
    → s.current_pkt ≡ none
    → IsWellFormed p
    → Runs gtt_grammar
        (returned (some p) (start_packet (record s { buffer = rest })))
        (record s { buffer = build p ++ rest })
unfolding build
build-Runs s p rest d k w =
    let named = record new_packet { protocol = p.protocol; method = p.method } in
    let tail = crlf ++ (p.body ++ rest) in
    rw (build_shape p.protocol p.method (build_headers p.headers) (build_length p.body) p.body rest)
      (Runs-same gtt_grammar _ _ (first_line-round s p.protocol p.method _ d k w.protocol w.method)
        _
        (headers-Runs _ s named p.headers [] (build_length p.body ++ tail) w.headers w.sorted
          (All-nil p.headers)
          (length-Runs _ s (record named { headers = p.headers }) p.body tail w.body
            (last_turn (body-round s (record named { headers = p.headers }) p.body rest refl) tt))))

-- A parser without a packet in work that finds in its buffer the text `build` makes of a well-
-- formed packet, and any bytes behind it, returns that packet, and is left at the start with those
-- bytes.
pub get_packet-build :
    (s : GttParser) (p : GttPacket) (rest : Bytes)
    → s.datapos ≡ datapos_first_line
    → s.current_pkt ≡ none
    → IsWellFormed p
    → get_packet gtt_grammar (record s { buffer = build p ++ rest })
      ≡ returned (some p) (start_packet (record s { buffer = rest }))
unfolding get_packet
get_packet-build s p rest d k w = ap catch (
    run-Runs gtt_grammar (build-Runs s p rest d k w) (rw d tt) (suc (length (build p ++ rest)))
      (omega arith))
