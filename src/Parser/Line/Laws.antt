-- ===== src/Parser/Line/Laws.antt =====
-- Lemmas on what is popped off the buffer of Line, before and after more data is pushed.
use epyx.Base.{
  ℕ, zero, suc, ◌+◌, ◌≤◌, ◌<◌, ◌≡◌, ◌≢◌, refl, ap, inl, inr, [], ◌∷◌, ◌++◌, append_assoc, some,
  arith, length, length-append, take, drop, Bytes, Option-cases, All,
}
use epyx.Parser.Line.{push, split_line, chop_return, pop_line, pop_data}

pub push-append : (buffer fresh : Bytes) → push buffer fresh ≡ buffer ++ fresh
unfolding push
push-append [] fresh = refl
push-append (c ∷ buffer) fresh = refl

-- No byte is a line feed.
abbrev pub IsLine : Bytes → Type 0
IsLine = All (λ c. c ≢ b'\n')

split_line-append :
    (line rest : Bytes) → IsLine line → split_line (line ++ b'\n' ∷ rest) ≡ some (line, rest)
unfolding split_line
split_line-append [] rest h = refl
split_line-append (c ∷ line) rest h = ground (arith, split_line-append line rest h.1)

chop_return-append : (line : Bytes) → chop_return (line ++ b'\r' ∷ []) ≡ line
unfolding chop_return
chop_return-append [] = refl
chop_return-append (c ∷ []) = refl
chop_return-append (c ∷ d ∷ s) = ap (◌∷◌ c) (chop_return-append (d ∷ s))

IsLine-return : (line : Bytes) → IsLine line → IsLine (line ++ b'\r' ∷ [])
IsLine-return [] h = (omega arith, tt)
IsLine-return (c ∷ line) h = (h.0, IsLine-return line h.1)

-- A line that ends in CR LF comes off without them.
pub pop_line-crlf :
    (line rest : Bytes) → IsLine line → pop_line (line ++ b'\r' ∷ b'\n' ∷ rest) ≡ some (line, rest)
unfolding pop_line
pop_line-crlf line rest h =
    rw
      (
        ← append_assoc line (b'\r' ∷ []) (b'\n' ∷ rest),
        split_line-append _ rest (IsLine-return line h),
      )
      (ap (λ (l : Bytes). some (l, rest)) (chop_return-append line))

split_line-push :
    (s fresh : Bytes) (l r : Bytes)
    → split_line s ≡ some (l, r)
    → split_line (s ++ fresh) ≡ some (l, r ++ fresh)
unfolding split_line
split_line-push [] fresh l r e = cc
split_line-push (c ∷ s) fresh l r e = elim (Option-cases (split_line s)) [
  | inl missing ↦ ground arith
  | inr (q, found) ↦ ground (arith, split_line-push s fresh q.0 q.1 found)
]

-- A line that is there already is found again after more data has come.
pub pop_line-push :
    (s fresh l r : Bytes)
    → pop_line s ≡ some (l, r)
    → pop_line (push s fresh) ≡ some (l, push r fresh)
unfolding pop_line
pop_line-push s fresh l r e =
    rw (push-append s fresh, push-append r fresh)
      (elim (Option-cases (split_line s)) [
        | inl missing ↦ ground arith
        | inr (q, found) ↦ ground (arith, split_line-push s fresh q.0 q.1 found)
      ])

split_line-length :
    (s l r : Bytes) → split_line s ≡ some (l, r) → length s ≡ length l + 1 + length r
unfolding split_line
split_line-length [] l r e = cc
split_line-length (c ∷ s) l r e = elim (Option-cases (split_line s)) [
  | inl missing ↦ ground arith
  | inr (q, found) ↦ ground (arith, split_line-length s q.0 q.1 found)
]

-- Each line that comes off makes the buffer shorter.
pub pop_line_shorter : (s l r : Bytes) → pop_line s ≡ some (l, r) → length r < length s
unfolding pop_line
pop_line_shorter s l r e = elim (Option-cases (split_line s)) [
  | inl missing ↦ ground arith
  | inr (q, found) ↦ ground (arith, split_line-length s q.0 q.1 found)
]

take_all_append : (d rest : Bytes) → take (length d) (d ++ rest) ≡ d
take_all_append [] rest = refl
take_all_append (c ∷ d) rest = ap (◌∷◌ c) (take_all_append d rest)

drop_all_append : (d rest : Bytes) → drop (length d) (d ++ rest) ≡ rest
drop_all_append [] rest = refl
drop_all_append (c ∷ d) rest = drop_all_append d rest

pub pop_data-append : (d rest : Bytes) → pop_data (d ++ rest) (length d) ≡ some (d, rest)
unfolding pop_data
pop_data-append d rest =
    ground (arith, take_all_append d rest, drop_all_append d rest, length-append d rest)

take-append_le : (n : ℕ) (s t : Bytes) → n ≤ length s → take n (s ++ t) ≡ take n s
take-append_le zero s t h = refl
take-append_le (suc n) [] t h = absurd (omega arith)
take-append_le (suc n) (c ∷ s) t h = ap (◌∷◌ c) (take-append_le n s t (omega arith))

drop-append_le : (n : ℕ) (s t : Bytes) → n ≤ length s → drop n (s ++ t) ≡ drop n s ++ t
drop-append_le zero s t h = refl
drop-append_le (suc n) [] t h = absurd (omega arith)
drop-append_le (suc n) (c ∷ s) t h = drop-append_le n s t (omega arith)

-- So with a block of data.
pub pop_data-push :
    (s fresh : Bytes) (n : ℕ) (d r : Bytes)
    → pop_data s n ≡ some (d, r)
    → pop_data (push s fresh) n ≡ some (d, push r fresh)
unfolding pop_data
pop_data-push s fresh n d r e =
    rw (push-append s fresh, push-append r fresh)
      (ground (arith, length-append s fresh, take-append_le n s fresh, drop-append_le n s fresh))
