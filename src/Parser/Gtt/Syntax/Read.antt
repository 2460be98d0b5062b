-- ===== src/Parser/Gtt/Syntax/Read.antt =====
-- Lemmas on the parser run on one line of `GTTPacket::build`.
use epyx.Base.{
  ℕ, suc, ◌-◌, ◌^◌, ◌<◌, ◌≡◌, ◌≢◌, refl, ◌∙◌, Bool, true, false, [], ◌∷◌, ◌++◌, none, some, arith,
  Bytes, All, bytes_eq,
}
use epyx.Base.Dict
use epyx.Base.Dict.{Dict, bytes_order}
use epyx.Base.Int.{pos, negsuc}
use epyx.Core.Ctype.{is_upper, is_digit, is_alpha, to_lower}
use epyx.Core.Text.Number.{
  to_int-from_int, to_int-from_unsigned_long, from_unsigned_long-digits, Starts,
}
use epyx.Core.Text.{to_int, from_int, from_unsigned_long}
use epyx.Parser.Packet.{content_length}
use epyx.Parser.Gtt.Syntax.Scan.{Passes, scan-append, scan_end_all, skip_spaces_one, ne_of_pass}
use epyx.Parser.Gtt.Syntax.{
  Fields, parser_exception, bad_flag_value, is_name, is_flag, is_value, scan_end, read_method,
  read_value, parse_first_line, parse_header_line, set_length, store_flag, is_content_length,
}

-- A capital letter, and capitals, digits and underscores.
abbrev pub IsName : Bytes → Type 0
IsName [] = ⊥
IsName (c ∷ s) = (is_upper c ≡ true) × Passes is_name s

-- A letter, and letters, digits, underscores and dashes.
abbrev pub IsFlag : Bytes → Type 0
IsFlag [] = ⊥
IsFlag (c ∷ s) = (is_alpha c ≡ true) × Passes is_flag s

-- Characters from 32 to 125, the first of them no space.
abbrev pub IsValue : Bytes → Type 0
IsValue [] = ⊥
IsValue (c ∷ s) = (c ≢ b' ') × Passes is_value (c ∷ s)

name_space : is_name b' ' ≡ false
unfolding is_name
name_space = refl

name_end : is_name 0 ≡ false
unfolding is_name
name_end = refl

flag_colon : is_flag b':' ≡ false
unfolding is_flag
flag_colon = refl

value_end : is_value 0 ≡ false
unfolding is_value
value_end = refl

read_method_name :
    (m : Bytes) (f : Fields)
    → IsName m
    → read_method m f ≡ (record f { pkt = record (f.pkt) { method = m } }, none)
unfolding read_method
read_method_name [] f h = absurd h
read_method_name (c ∷ s) f h = rw (h.0, scan_end_all is_name s h.1 name_end)

pub parse_first_line_names :
    (p m : Bytes) (f : Fields)
    → IsName p
    → IsName m
    → parse_first_line (p ++ b' ' ∷ m) f
      ≡ (record f { pkt = record (f.pkt) { protocol = p; method = m } }, none)
unfolding parse_first_line
parse_first_line_names [] m f h h' = absurd h
parse_first_line_names (c ∷ s) m f h h' =
    rw (h.0, scan-append b' ' is_name s m h.1 name_space)
      (read_method_name m (record f { pkt = record (f.pkt) { protocol = c ∷ s } }) h')

read_value_lem :
    (name : Bytes) (d : ℕ) (v : Bytes) (f : Fields)
    → Passes is_value (d ∷ v)
    → read_value name (d ∷ v) f ≡ store_flag name (d ∷ v) f
unfolding read_value
read_value_lem name d v f h = rw (scan_end_all is_value (d ∷ v) h value_end, read_value)

-- A header line with name `k` and value `v` comes down to storing the two.
pub parse_header_line_flag :
    (k v : Bytes) (f : Fields)
    → IsFlag k
    → IsValue v
    → parse_header_line (k ++ b':' ∷ b' ' ∷ v) f ≡ store_flag k v f
unfolding parse_header_line
parse_header_line_flag [] v f h h' = absurd h
parse_header_line_flag (c ∷ s) [] f h h' = absurd h'
parse_header_line_flag (c ∷ s) (d ∷ v) f h h' =
    rw (h.0, scan-append b':' is_flag s (b' ' ∷ d ∷ v) h.1 flag_colon, skip_spaces_one d v h'.0)
      (read_value_lem (c ∷ s) d v f h'.1)

pub store_flag_other :
    (k v : Bytes) (f : Fields)
    → is_content_length k ≡ false
    → store_flag k v f
      ≡ (record f { pkt = record (f.pkt) { headers = Dict.set k v f.pkt.headers } }, none)
unfolding store_flag
store_flag_other k v f e = rw e

is_content_length_self : is_content_length content_length ≡ true
unfolding is_content_length bytes_eq to_lower
is_content_length_self = refl

set_length_lem :
    (v : Bytes) (n : ℕ) (f : Fields)
    → f.size ≡ 0
    → 0 < n
    → n < 2 ^ 63
    → to_int v ≡ some (pos n)
    → set_length v f ≡ (record f { size = n }, none)
unfolding set_length
set_length_lem v n f e p b t = rw t (ground arith)

pub store_flag_length :
    (n : ℕ) (f : Fields)
    → f.size ≡ 0
    → 0 < n
    → n < 2 ^ 63
    → store_flag content_length (from_unsigned_long n) f ≡ (record f { size = n }, none)
unfolding store_flag
store_flag_length n f e p b =
    rw is_content_length_self
      (set_length_lem (from_unsigned_long n) n f e p b (to_int-from_unsigned_long n b))

pub IsFlag-content_length : IsFlag content_length
unfolding is_alpha is_flag
IsFlag-content_length = ground arith

value_of_digit : (c : ℕ) → is_digit c ≡ true → (is_value c ≡ true) × (c ≢ b' ')
unfolding is_digit is_value
value_of_digit c h = ground arith

pub Passes-digits : (s : Bytes) → All (λ c. is_digit c ≡ true) s → Passes is_value s
Passes-digits [] h = tt
Passes-digits (c ∷ s) h = ((value_of_digit c h.0).0, Passes-digits s h.1)

pub IsValue-digits : (s : Bytes) → Starts s → All (λ c. is_digit c ≡ true) s → IsValue s
IsValue-digits [] h a = absurd (cc h.is_head)
IsValue-digits (c ∷ s) h a = ((value_of_digit c a.0).1, Passes-digits (c ∷ s) a)

from_int-IsValue : (n : ℕ) → IsValue (from_int (negsuc n))
unfolding from_int is_value
from_int-IsValue n =
    (λ e. absurd (omega arith), (refl, Passes-digits _ (from_unsigned_long-digits (suc n))))

set_length_negative :
    (v : Bytes) (n : ℕ) (f : Fields)
    → f.size ≡ 0
    → n < 2 ^ 63
    → to_int v ≡ some (negsuc n)
    → set_length v f ≡ (record f { size = 2 ^ 64 - 1 - n }, none)
unfolding set_length
set_length_negative v n f e b t = rw t (ground arith)

store_flag-set_length : (v : Bytes) (f : Fields) → store_flag content_length v f ≡ set_length v f
unfolding store_flag
store_flag-set_length v f = rw is_content_length_self

-- Where no body size is set, a content-length of -(n + 1), for n below 2^63, is taken as the body
-- size 2^64 - (n + 1): the conversion to `size_t` stands before the test for a positive size.
pub parse_header_line_negative :
    (n : ℕ) (f : Fields)
    → f.size ≡ 0
    → n < 2 ^ 63
    → parse_header_line (content_length ++ b':' ∷ b' ' ∷ from_int (negsuc n)) f
      ≡ (record f { size = 2 ^ 64 - 1 - n }, none)
parse_header_line_negative n f e h =
    parse_header_line_flag content_length _ f IsFlag-content_length (from_int-IsValue n)
    ∙ store_flag-set_length (from_int (negsuc n)) f
    ∙ set_length_negative (from_int (negsuc n)) n f e h (to_int-from_int (negsuc n) (ground arith))

scan_end_stops :
    (ok : ℕ → Bool) (s : Bytes) (c : ℕ) (rest : Bytes)
    → Passes ok s
    → ok 0 ≡ false
    → ok c ≡ false
    → c ≢ 0
    → scan_end ok (s ++ c ∷ rest) ≡ none
unfolding scan_end
scan_end_stops ok [] c rest h z q ne = rw q (ground arith)
scan_end_stops ok (d ∷ s) c rest h z q ne =
    rw (ne_of_pass ok d 0 h.0 z, h.0, scan_end_stops ok s c rest h.1 z q ne)

value_tilde : is_value b'~' ≡ false
unfolding is_value
value_tilde = refl

-- A header line with a well-formed flag and a value that has a tilde behind other value characters
-- is refused, and nothing is stored.
pub parse_header_line_tilde :
    (k v w : Bytes) (f : Fields)
    → IsFlag k
    → IsValue v
    → parse_header_line (k ++ b':' ∷ b' ' ∷ (v ++ b'~' ∷ w)) f
      ≡ (f, some (parser_exception bad_flag_value))
unfolding parse_header_line
parse_header_line_tilde [] v w f h h' = absurd h
parse_header_line_tilde (c ∷ s) [] w f h h' = absurd h'
parse_header_line_tilde (c ∷ s) (d ∷ v) w f h h' =
    rw
      (
        h.0,
        scan-append b':' is_flag s (b' ' ∷ d ∷ (v ++ b'~' ∷ w)) h.1 flag_colon,
        skip_spaces_one d (v ++ b'~' ∷ w) h'.0,
      )
      (unfold read_value in
        rw (
          scan_end_stops is_value (d ∷ v) b'~' w h'.1 value_end value_tilde (omega arith),
          read_value,
        ))
