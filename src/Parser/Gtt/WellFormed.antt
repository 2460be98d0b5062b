-- ===== src/Parser/Gtt/WellFormed.antt =====
-- The packets that the text form can carry.
use epyx.Base.{ℕ, ◌^◌, ◌<◌, ◌≡◌, refl, ap, Bool, false, [], ◌∷◌, ◌++◌, arith, length, Bytes, All}
use epyx.Base.Dict.{IsSorted, bytes_order}
use epyx.Core.Ctype.{is_upper, is_alpha}
use epyx.Parser.Line.Laws.{IsLine}
use epyx.Parser.Packet.{GttPacket}
use epyx.Parser.Gtt.Syntax.Read.{IsName, IsFlag, IsValue}
use epyx.Parser.Gtt.Syntax.Scan.{Passes}
use epyx.Parser.Gtt.Syntax.{is_name, is_flag, is_value, is_content_length}

pub record IsHeader (h : Bytes × Bytes) : Type 0 where
  pub flag : IsFlag h.0
  pub value : IsValue h.1
  pub other : is_content_length h.0 ≡ false

-- What `build` can write so that the parser takes it: names and flags in their alphabets, header
-- names in the order of the map and none of them the length, a body whose length is a `long`.
pub record IsWellFormed (p : GttPacket) : Type 0 where
  pub protocol : IsName p.protocol
  pub method : IsName p.method
  pub headers : All IsHeader p.headers
  pub sorted : IsSorted p.headers
  pub body : length p.body < 2 ^ 63

-- A character that passes such a test is no line feed.
pub Passes-IsLine : (ok : ℕ → Bool) (s : Bytes) → ok b'\n' ≡ false → Passes ok s → IsLine s
Passes-IsLine ok [] q h = tt
Passes-IsLine ok (c ∷ s) q h = (λ e. absurd (cc (ap ok e)), Passes-IsLine ok s q h.1)

IsLine-append : (s t : Bytes) → IsLine s → IsLine t → IsLine (s ++ t)
IsLine-append [] t h k = k
IsLine-append (c ∷ s) t h k = (h.0, IsLine-append s t h.1 k)

IsName-IsLine : (s : Bytes) → IsName s → IsLine s
unfolding is_name
IsName-IsLine [] h = tt
IsName-IsLine (c ∷ s) h = (λ e. absurd (unfold is_upper in cc), Passes-IsLine is_name s refl h.1)

IsFlag-IsLine : (s : Bytes) → IsFlag s → IsLine s
unfolding is_flag
IsFlag-IsLine [] h = tt
IsFlag-IsLine (c ∷ s) h = (λ e. absurd (unfold is_alpha in cc), Passes-IsLine is_flag s refl h.1)

IsValue-IsLine : (s : Bytes) → IsValue s → IsLine s
unfolding is_value
IsValue-IsLine [] h = tt
IsValue-IsLine (c ∷ s) h = Passes-IsLine is_value (c ∷ s) refl h.1

pub first-IsLine : (p m : Bytes) → IsName p → IsName m → IsLine (p ++ b' ' ∷ m)
first-IsLine p m h k =
    IsLine-append p (b' ' ∷ m) (IsName-IsLine p h) ((λ e. absurd (omega arith)), IsName-IsLine m k)

pub header-IsLine : (k v : Bytes) → IsFlag k → IsValue v → IsLine (k ++ b':' ∷ b' ' ∷ v)
header-IsLine k v h h' =
    IsLine-append k (b':' ∷ b' ' ∷ v) (IsFlag-IsLine k h)
      ((λ e. absurd (omega arith)), ((λ e. absurd (omega arith)), IsValue-IsLine v h'))
