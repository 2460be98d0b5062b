-- ===== src/Dht/Id/Text.antt =====
-- Lemmas on the text of an identifier, `operator<<` and `operator>>`.
use epyx.Base.{
  ℕ, suc, ◌+◌, ◌*◌, ◌/◌, ◌%◌, ◌<◌, ◌≡◌, refl, ap, true, [], ◌∷◌, ◌++◌, arith, length, get_or, ◌==◌,
  Bytes, IsBytes, ==_iff, table, table_lem,
}
use epyx.Dht.Id.{
  DhtId, IsId, storage_size, hexa, print_from, print, get, hex_digit, skip_colon, read_from, read,
}

hex_table : table (λ n. hex_digit (get_or hexa n 0) == n) 16 ≡ true
unfolding table hex_digit
hex_table = refl

hex_digit-hexa : (n : ℕ) → n < 16 → hex_digit (get_or hexa n 0) ≡ n
hex_digit-hexa n h =
    (==_iff _ _).0 (table_lem (λ m. hex_digit (get_or hexa m 0) == m) 16 n h hex_table)

-- The text from byte `i` on, past the colon that may stand in front of it.
abbrev body : Bytes → ℕ → Bytes
body [] i = []
body (d ∷ ds) i = get_or hexa (d / 16) 0 ∷ get_or hexa (d % 16) 0 ∷ print_from (i + 1) ds

read_byte :
    (d : ℕ)
    → d < 256
    → (16 * hex_digit (get_or hexa (d / 16) 0) + hex_digit (get_or hexa (d % 16) 0)) % 256 ≡ d
read_byte d h =
    rw (hex_digit-hexa (d / 16) (omega arith), hex_digit-hexa (d % 16) (omega arith)) (omega arith)

-- Behind byte `i` the reader drops a character exactly where the printer wrote a colon.
skip_colon-print_from :
    (i e : ℕ) (ds rest : Bytes)
    → i + suc (length (e ∷ ds)) ≡ storage_size
    → skip_colon i (print_from (i + 1) (e ∷ ds) ++ rest) ≡ body (e ∷ ds) (i + 1) ++ rest
unfolding skip_colon print_from get
skip_colon-print_from i e ds rest h = ground arith

skip_colon_last : (i : ℕ) (s : Bytes) → i + 1 ≡ storage_size → skip_colon i s ≡ s
unfolding skip_colon
skip_colon_last i s h = ground arith

read_from_step :
    (left i d : ℕ) (s ds rest : Bytes)
    → d < 256
    → read_from left (i + 1) (skip_colon i s) ≡ (ds, rest)
    → read_from (suc left) i (get_or hexa (d / 16) 0 ∷ get_or hexa (d % 16) 0 ∷ s) ≡ (d ∷ ds, rest)
unfolding read_from get
read_from_step left i d s ds rest h e = rw e (ap (λ (v : ℕ). (v ∷ ds, rest)) (read_byte d h))

read_from_zero : (i : ℕ) (s : Bytes) → read_from 0 i s ≡ ([], s)
unfolding read_from
read_from_zero i s = refl

read_from-body :
    (ds : Bytes) (i : ℕ) (rest : Bytes)
    → IsBytes ds
    → i + length ds ≡ storage_size
    → read_from (length ds) i (body ds i ++ rest) ≡ (ds, rest)
unfolding print_from
read_from-body [] i rest b h = read_from_zero i rest
read_from-body (d ∷ []) i rest b h =
    read_from_step 0 i d rest [] rest b.0
      (rw (skip_colon_last i rest (omega arith)) (read_from_zero (i + 1) rest))
read_from-body (d ∷ e ∷ ds) i rest b h = read_from_step (suc (length ds)) i d _ (e ∷ ds) rest b.0 (
    rw (skip_colon-print_from i e ds rest h)
      (read_from-body (e ∷ ds) (i + 1) rest b.1 (omega arith)))

print-body : (a : DhtId) → print a ≡ body a 0
unfolding print
print-body [] = refl
print-body (d ∷ ds) = refl

-- The text of an identifier of 32 bytes, with anything behind it, is read as the identifier, and
-- what stands behind it is left.
pub read-print : (a : DhtId) (rest : Bytes) → IsId a → read (print a ++ rest) ≡ (a, rest)
unfolding read
read-print a rest h = rw (print-body a) (rw h.0 at (read_from-body a 0 rest h.1 (omega arith)))
