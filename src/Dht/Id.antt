-- ===== src/Dht/Id.antt =====
-- dht/id.h and dht/id.cpp: positions in the hash space, their text, and the distance of two.
-- An identifier is the array `data`; `IsId` says that it has its 32 bytes. The children prove:
-- Value (an identifier as a number), Order (`operator<`, `operator==`), FirstBit and Metric
-- (Distance), Text (`operator<<` and `operator>>`).
pub mod Value
pub mod Order
pub mod FirstBit
pub mod Metric
pub mod Text
mod Tests
use Prim.Native.Nat.{bit_and, bit_xor}
use epyx.Base.{
  ℕ, zero, suc, ◌+◌, ◌-◌, ◌*◌, ◌/◌, ◌%◌, ◌≡◌, Bool, true, false, not, ◌&&◌, List, [], ◌∷◌, ◌++◌,
  Option, none, some, ltb, ◌==◌, if◌then◌else◌, length, get_or, replicate, map, Bytes, codes,
  IsBytes,
}

abbrev pub id_length : ℕ
id_length = 256

abbrev pub storage_size : ℕ
storage_size = 32

abbrev pub DhtId : Type 0
DhtId = Bytes

abbrev pub IsId : DhtId → Type 0
IsId a = (length a ≡ storage_size) × IsBytes a

-- `Id::reset`.
abbrev pub reset : DhtId
reset = replicate storage_size 0

-- `Id::randomize`: `rand()` is the stream of results, one for each byte.
unfoldable pub randomize : (ℕ → ℕ) → ℕ → ℕ → DhtId
randomize rand i zero = []
randomize rand i (suc left) = (rand i % 256) ∷ randomize rand (i + 1) left

-- `operator<<(std::ostream&, const Id&)`.
abbrev hexa : Bytes
hexa = codes "0123456789abcdef"

pub print_from : ℕ → Bytes → Bytes
print_from loop [] = []
print_from loop (d ∷ dist) =
    let digits = get_or hexa (d / 16) 0 ∷ get_or hexa (d % 16) 0 ∷ print_from (loop + 1) dist in
    if (loop % 2 == 0) && not (loop == 0) then b':' ∷ digits else digits

unfoldable pub print : DhtId → Bytes
unfolding print_from
print = print_from 0

-- `in.get()` as a byte: at the end of the stream it gives -1.
unfoldable pub get : Bytes → ℕ × Bytes
get [] = (255, [])
get (c ∷ rest) = (c, rest)

-- `n > '9' ? (n - 'a' + 10) : (n - '0')` in a byte.
unfoldable pub hex_digit : ℕ → ℕ
hex_digit n = if ltb b'9' n then (n + 256 - b'a' + 10) % 256 else (n + 256 - b'0') % 256

-- The last lines of a round: the colon behind byte `i` is dropped.
skip_colon : ℕ → Bytes → Bytes
skip_colon i s = if not (i == storage_size - 1) && (i % 2 == 1) then (get s).1 else s

-- `operator>>(std::istream&, Id&)`: the rounds left, `i`, the stream; the bytes and the rest.
pub read_from : ℕ → ℕ → Bytes → DhtId × Bytes
read_from zero i s = ([], s)
read_from (suc left) i s =
    let (n1, s1) = get s in
    let (n2, s2) = get s1 in
    let value = (16 * hex_digit n1 + hex_digit n2) % 256 in
    let (ds, rest) = read_from left (i + 1) (skip_colon i s2) in (value ∷ ds, rest)

unfoldable pub read : Bytes → DhtId × Bytes
unfolding read_from get skip_colon hex_digit
read = read_from storage_size 0

-- `operator<` and `operator==`: the loop over both arrays.
unfoldable pub id_lt : DhtId → DhtId → Bool
id_lt (x ∷ a) (y ∷ b) =
    let rest = id_lt a b in if ltb x y then true else if ltb y x then false else rest
id_lt _ _ = false

unfoldable pub id_eq : DhtId → DhtId → Bool
id_eq (x ∷ a) (y ∷ b) = let rest = id_eq a b in if not (x == y) then false else rest
id_eq _ _ = true

pub record Distance : Type 0 where
  pub bytes : DhtId
  pub first_active : ℕ

-- What one round of the first loop of `Distance::initSelf` does to `firstActive` and
-- `*firstActiveChar` (`none` while that pointer is null).
mark : ℕ → ℕ × Option ℕ → ℕ × Option ℕ
mark dist (n, some c) = (n, some c)
mark dist (n, none) = if dist == 0 then (n + 8, none) else (n, some dist)

-- The first loop: the bytes of the distance, and the two variables at the end.
pub xor_loop : DhtId → DhtId → ℕ × Option ℕ → DhtId × (ℕ × Option ℕ)
unfolding mark
xor_loop (x ∷ a) (y ∷ b) st =
    let dist = bit_xor x y in let (ds, end) = xor_loop a b (mark dist st) in (dist ∷ ds, end)
xor_loop _ _ st = ([], st)

-- The second loop: the rounds left, `active` and `firstActive`.
pub shift_loop : ℕ → ℕ → ℕ → ℕ
shift_loop zero active n = n
shift_loop (suc left) active n =
    let zero_bit = bit_and 0x80 active == 0 in
    shift_loop left (if zero_bit then active * 2 % 256 else active) (if zero_bit then n + 1 else n)

-- The part behind the first loop.
pub finish : ℕ × Option ℕ → ℕ
finish (n, none) = id_length - 1
finish (n, some active) = shift_loop 8 active n

-- `Distance::initSelf`, which both constructors call.
unfoldable pub distance : DhtId → DhtId → Distance
unfolding xor_loop finish shift_loop
distance a b =
    let (ds, end) = xor_loop a b (0, none) in record { bytes = ds; first_active = finish end }
