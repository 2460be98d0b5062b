-- ===== src/Core/AtomMap.antt =====
-- core/atom/map.h and core/atom/map-detail.h: the map behind a mutex. Each operation holds the lock
-- from its first access to its last, so that it is one step; those that leave it locked
-- (`findAndLock`, `beginLock`) give what they find.
pub mod Laws
mod Tests
use epyx.Base.{ℕ, Bool, true, false, not, List, [], ◌∷◌, Option, none, some, if◌then◌else◌, length}
use epyx.Base.Dict
use epyx.Base.Dict.{Dict, KeyOrder}

pub record AtomMap {ℓ κ} (K : Type ℓ) (V : Type κ) : Type (ℓ ⊔ κ) where
  pub read_only : Bool
  pub map : Dict K V

module _ {ℓ κ} {K : Type ℓ} ⦃o : KeyOrder K⦄ {V : Type κ} where
  -- The constructor.
  abbrev pub new_map : AtomMap K V
  new_map = record { read_only = false; map = [] }

  -- `set` and `setLocked`.
  unfoldable pub set : K → V → AtomMap K V → AtomMap K V
  unfolding Dict.set
  set key value m = if m.read_only then m else record m { map = Dict.set key value m.map }

  -- `findAndLock`, as an entry or the end.
  unfoldable pub find : K → AtomMap K V → Option V
  unfolding Dict.find
  find key m = Dict.find key m.map

  -- `getAndLock` and `get`.
  unfoldable pub get : K → V → AtomMap K V → V
  unfolding find
  get key defval m = elim (find key m) [ none ↦ defval | some v ↦ v ]

  abbrev has : K → AtomMap K V → Bool
  has key m = elim (Dict.find key m.map) [ none ↦ false | some v ↦ true ]

  -- `unset`: on a read-only map `result` is returned without a value (`none`).
  unfoldable pub unset : K → AtomMap K V → Option Bool × AtomMap K V
  unfolding Dict.find Dict.unset
  unset key m =
      if m.read_only then (none, m) else (some (has key m), record m { map = Dict.unset key m.map })

  abbrev drop : K → AtomMap K V → AtomMap K V
  drop key m = if m.read_only then m else record m { map = Dict.unset key m.map }

  -- `getUnset`.
  unfoldable pub get_unset : K → V → AtomMap K V → V × AtomMap K V
  unfolding Dict.find Dict.unset
  get_unset key defval m = elim (Dict.find key m.map) [
    | none ↦ (defval, m)
    | some v ↦ (v, drop key m)
  ]

  -- `clear`.
  unfoldable pub clear : AtomMap K V → AtomMap K V
  clear m = if m.read_only then m else record m { map = [] }

  -- `clearForEver`.
  abbrev pub clear_for_ever : AtomMap K V → AtomMap K V
  clear_for_ever m = record { read_only = true; map = [] }

  -- `empty` and `size`.
  abbrev pub empty : AtomMap K V → Bool
  empty m = elim m.map [ [] ↦ true | e ∷ es ↦ false ]

  abbrev pub size : AtomMap K V → ℕ
  size m = length m.map
