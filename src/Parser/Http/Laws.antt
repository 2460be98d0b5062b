-- ===== src/Parser/Http/Laws.antt =====
-- What the two methods of the HTTP parser make of well-formed lines, and of an empty first line.
use epyx.Base.{ℕ, suc, ◌≡◌, ◌≢◌, refl, ap, ◌∙◌, false, [], ◌∷◌, ◌++◌, none, length, Bytes}
use epyx.Base.Dict
use epyx.Base.Dict.{bytes_order}
use epyx.Core.Ctype.{is_digit}
use epyx.Core.Text.{crlf, to_lower}
use epyx.Parser.Line.Laws.{pop_line-crlf}
use epyx.Parser.Line.{pop_line}
use epyx.Parser.Gtt.Steps.{first-some}
use epyx.Parser.Gtt.Syntax.Read.{IsFlag}
use epyx.Parser.Gtt.Syntax.Scan.{Passes, scan-append, scan_end_all}
use epyx.Parser.Gtt.Syntax.{Fields, Thrown, fail_exception, is_flag, skip_spaces}
use epyx.Parser.Gtt.{
  GttParser, datapos_first_line, threw, run, catch, get_packet, prepare, after_first, first,
  round_at, round,
}
use epyx.Parser.Http.{
  is_version, is_description, http_code, read_description, read_code, read_value, parse_first_line,
  parse_header_line, http_grammar,
}

version_space : is_version b' ' ≡ false
unfolding is_version
version_space = refl

digit_space : is_digit b' ' ≡ false
unfolding is_digit
digit_space = refl

description_end : is_description 0 ≡ false
unfolding is_description
description_end = refl

read_description_lem :
    (d : Bytes) (f : Fields)
    → Passes is_description d
    → read_description d f
      ≡ (record f { pkt = record (f.pkt) { headers = Dict.set http_code d f.pkt.headers } }, none)
unfolding read_description
read_description_lem d f h = rw (scan_end_all is_description d h description_end, read_description)

read_code_lem :
    (c d : Bytes) (f : Fields)
    → Passes is_digit c
    → read_code (c ++ b' ' ∷ d) f
      ≡ read_description d (record f { pkt = record (f.pkt) { method = c } })
unfolding read_code
read_code_lem c d f h = rw (scan-append b' ' is_digit c d h digit_space, read_code)

-- A first line of a version that is not empty, a code and a description, each of its own
-- characters, with one space between two of them, sets the protocol, the method and the header
-- `HTTP-code`.
pub parse_first_line_parts :
    (v c d : Bytes) (f : Fields)
    → v ≢ []
    → Passes is_version v
    → Passes is_digit c
    → Passes is_description d
    → parse_first_line (v ++ b' ' ∷ (c ++ b' ' ∷ d)) f ≡ (
      record f {
        pkt = record (f.pkt) {
          protocol = v;
          method = c;
          headers = Dict.set http_code d f.pkt.headers;
        };
      },
      none,
    )
unfolding parse_first_line
parse_first_line_parts [] c d f ne hv hc hd = absurd (ne refl)
parse_first_line_parts (x ∷ v) c d f ne hv hc hd =
    rw (scan-append b' ' is_version (x ∷ v) (c ++ b' ' ∷ d) hv version_space, parse_first_line)
      (read_code_lem c d _ hc ∙ read_description_lem d _ hd)

flag_colon : is_flag b':' ≡ false
unfolding is_flag
flag_colon = refl

header_line_value :
    (k s : Bytes) (f : Fields)
    → IsFlag k
    → parse_header_line (k ++ b':' ∷ s) f ≡ read_value (to_lower k) (skip_spaces s) f
unfolding parse_header_line
header_line_value [] s f h = absurd h
header_line_value (c ∷ k) s f h =
    rw (h.0, scan-append b':' is_flag k s h.1 flag_colon, parse_header_line)

-- Two HTTP header lines whose flags are well formed and differ in case only, with the same text
-- behind the colon, do the same.
pub parse_header_line_case :
    (j k s : Bytes) (f : Fields)
    → IsFlag j
    → IsFlag k
    → to_lower j ≡ to_lower k
    → parse_header_line (j ++ b':' ∷ s) f ≡ parse_header_line (k ++ b':' ∷ s) f
parse_header_line_case j k s f hj hk e =
    rw (header_line_value j s f hj, header_line_value k s f hk, e)

run_throw :
    (n : ℕ) (t u : GttParser) (x : Thrown)
    → round http_grammar t ≡ threw x u
    → run http_grammar (suc n) t ≡ threw x u
unfolding run
run_throw n t u x e = rw (e, run)

first_empty :
    (t : GttParser) (rest : Bytes)
    → t.buffer ≡ crlf ++ rest
    → first http_grammar t ≡ threw fail_exception (record (prepare t) { buffer = rest })
unfolding after_first parse_first_line
first_empty t rest e = first-some http_grammar t [] rest (ap pop_line e ∙ pop_line-crlf [] rest tt)

-- Where an empty line comes first, the HTTP parser does not keep a parse error: the exception of
-- the failed assertion leaves `getPacket`, with the line taken off the buffer.
pub get_packet_empty_line :
    (s : GttParser) (rest : Bytes)
    → s.datapos ≡ datapos_first_line
    → s.buffer ≡ crlf ++ rest
    → get_packet http_grammar s ≡ threw fail_exception (record (prepare s) { buffer = rest })
unfolding get_packet
get_packet_empty_line s rest d e = ap catch (
    run_throw (length s.buffer) s _ fail_exception
      (ap (λ x. round_at x http_grammar s) d ∙ first_empty s rest e))
