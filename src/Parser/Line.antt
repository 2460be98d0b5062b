-- ===== src/Parser/Line.antt =====
-- parser/lineparser.h and parser/lineparser.cpp: the buffer, and what is popped off it.
pub mod Laws
use epyx.Base.{
  ℕ, zero, suc, ◌+◌, Bool, true, false, List, [], ◌∷◌, ◌++◌, Option, none, some, ltb, ◌==◌,
  if◌then◌else◌, length, take, drop, Bytes,
}
use mathlib.Core.Option

-- `LineParser::push`: the buffer is assigned or appended to.
unfoldable pub push : Bytes → Bytes → Bytes
push [] fresh = fresh
push (c ∷ buffer) fresh = (c ∷ buffer) ++ fresh

-- The bytes in front of the first line feed and those behind it.
pub split_line : Bytes → Option (Bytes × Bytes)
split_line [] = none
split_line (c ∷ s) =
    let rest = Option.map (λ (p : Bytes × Bytes). (c ∷ p.0, p.1)) (split_line s) in
    if c == b'\n' then some ([], s) else rest

-- A carriage return in front of the line feed does not belong to the line.
pub chop_return : Bytes → Bytes
chop_return [] = []
chop_return (c ∷ []) = if c == b'\r' then [] else c ∷ []
chop_return (c ∷ d ∷ s) = c ∷ chop_return (d ∷ s)

-- `LineParser::popLine`: the line and the buffer that is left, `none` without a line feed.
unfoldable pub pop_line : Bytes → Option (Bytes × Bytes)
unfolding split_line chop_return
pop_line buffer = Option.map (λ (p : Bytes × Bytes). (chop_return p.0, p.1)) (split_line buffer)

-- `LineParser::popData`: `none` where the buffer holds too little.
unfoldable pub pop_data : Bytes → ℕ → Option (Bytes × Bytes)
pop_data buffer size =
    if ltb (length buffer) size then none else some (take size buffer, drop size buffer)
