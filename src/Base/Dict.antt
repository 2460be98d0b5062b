-- ===== src/Base/Dict.antt =====
-- `std::map`: an association list in the order of its keys. The order of a key type is an instance.
use Prim.Native.Nat.{ℕ}
use mathlib.Core.Path.{◌≡◌, refl}
use mathlib.Core.Logic.{◌↔◌}
use mathlib.Core.Bool.{Bool, true, false}
use mathlib.Core.List.{List, [], ◌∷◌, ◌++◌}
use mathlib.Core.Option.{Option, none, some}
use native.Mathlib.Omega.{arith}
use epyx.Base.Strings.{Bytes, All, bytes_eq, bytes_lt, bytes_eq_iff}
use epyx.Base.Tests.{◌==◌, ltb, if◌then◌else◌, ==_iff}

pub record KeyOrder {ℓ} (K : Type ℓ) : Type ℓ where
  pub key_eq : K → K → Bool
  pub key_lt : K → K → Bool
  pub key_eq_iff : (a b : K) → (key_eq a b ≡ true) ↔ (a ≡ b)
  pub key_lt_asym : (a b : K) → key_lt a b ≡ true → (key_lt b a ≡ false) × (key_eq a b ≡ false)

pub bytes_lt_asym :
    (a b : Bytes) → bytes_lt a b ≡ true → (bytes_lt b a ≡ false) × (bytes_eq a b ≡ false)
unfolding bytes_lt bytes_eq
bytes_lt_asym [] [] h = ground arith
bytes_lt_asym [] (y ∷ b) h = ground arith
bytes_lt_asym (x ∷ a) [] h = ground arith
bytes_lt_asym (x ∷ a) (y ∷ b) h = ground (arith, bytes_lt_asym a b)

instance abbrev pub bytes_order : KeyOrder Bytes
bytes_order = record {
  key_eq = bytes_eq;
  key_lt = bytes_lt;
  key_eq_iff = bytes_eq_iff;
  key_lt_asym = bytes_lt_asym;
}

pub nat_lt_asym : (a b : ℕ) → ltb a b ≡ true → (ltb b a ≡ false) × ((a == b) ≡ false)
nat_lt_asym a b h = ground arith

instance abbrev pub nat_order : KeyOrder ℕ
nat_order = record { key_eq = ◌==◌; key_lt = ltb; key_eq_iff = ==_iff; key_lt_asym = nat_lt_asym }

abbrev pub Dict {ℓ κ} : Type ℓ → Type κ → Type (ℓ ⊔ κ)
Dict K V = List (K × V)

module _ {ℓ κ} {K : Type ℓ} ⦃o : KeyOrder K⦄ {V : Type κ} where
  -- `find`, `none` for `end()`.
  unfoldable pub find : K → Dict K V → Option V
  find k [] = none
  find k ((j, v) ∷ m) = if o.key_eq j k then some v else find k m

  -- `m[k] = v`.
  unfoldable pub set : K → V → Dict K V → Dict K V
  set k v [] = (k, v) ∷ []
  set k v ((j, w) ∷ m) =
      if o.key_eq j k
      then (k, v) ∷ m
      else if o.key_lt k j
      then (k, v) ∷ (j, w) ∷ m
      else (j, w) ∷ set k v m

  -- `erase(k)`.
  unfoldable pub unset : K → Dict K V → Dict K V
  unset k [] = []
  unset k ((j, w) ∷ m) = let rest = unset k m in if o.key_eq j k then rest else (j, w) ∷ rest

  -- What a write does to each lookup.
  pub find-set :
      (k j : K) (v : V) (m : Dict K V)
      → find j (set k v m) ≡ (if o.key_eq k j then some v else find j m)
  unfolding find set
  find-set k j v [] = refl
  find-set k j v ((i, w) ∷ m) = ground (
    arith,
    o.key_eq_iff k j,
    o.key_eq_iff i k,
    o.key_eq_iff i j,
    o.key_eq_iff k k,
    find-set k j v m,
  )

  pub find-unset :
      (k j : K) (m : Dict K V) → find j (unset k m) ≡ (if o.key_eq k j then none else find j m)
  unfolding find unset
  find-unset k j [] = ground arith
  find-unset k j ((i, w) ∷ m) =
      ground (arith, o.key_eq_iff k j, o.key_eq_iff i k, o.key_eq_iff i j, find-unset k j m)

  -- The keys increase strictly.
  abbrev pub IsSorted : Dict K V → Type 0
  IsSorted [] = Unit
  IsSorted ((k, v) ∷ m) = All (λ e. o.key_lt k e.0 ≡ true) m × IsSorted m

  -- A key above all others goes to the end.
  pub set_last :
      (k : K) (v : V) (m : Dict K V)
      → All (λ e. o.key_lt e.0 k ≡ true) m
      → set k v m ≡ m ++ (k, v) ∷ []
  unfolding set
  set_last k v [] h = refl
  set_last k v ((j, w) ∷ m) h = ground (arith, o.key_lt_asym j k h.0, set_last k v m h.1)
