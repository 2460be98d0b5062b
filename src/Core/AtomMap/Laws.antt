-- ===== src/Core/AtomMap/Laws.antt =====
-- What the operations of the map do to a lookup, and what they do after `clearForEver`.
use epyx.Base.{
  ◌≡◌, refl, ap, sym, ◌∙◌, true, false, List, [], ◌∷◌, none, some, Bool-cases, Option-cases, inl,
  inr, if◌then◌else◌,
}
use epyx.Base.Dict
use epyx.Base.Dict.{Dict, KeyOrder, find-set, find-unset}
use epyx.Core.AtomMap.{AtomMap, set, find, get, unset, get_unset, clear, clear_for_ever, size}

-- A call that may change the map.
pub data Operation {ℓ κ} (K : Type ℓ) (V : Type κ) : Type (ℓ ⊔ κ) where
  do_set : K → V → Operation K V
  do_unset : K → Operation K V
  do_get_unset : K → V → Operation K V
  do_clear : Operation K V
  do_clear_for_ever : Operation K V

module _ {ℓ κ} {K : Type ℓ} ⦃o : KeyOrder K⦄ {V : Type κ} where
  abbrev pub step : Operation K V → AtomMap K V → AtomMap K V
  step (do_set k v) m = set k v m
  step (do_unset k) m = (unset k m).1
  step (do_get_unset k v) m = (get_unset k v m).1
  step do_clear m = clear m
  step do_clear_for_ever m = clear_for_ever m

  -- The calls of all threads, in the order in which they get the lock.
  abbrev pub steps : List (Operation K V) → AtomMap K V → AtomMap K V
  steps [] m = m
  steps (c ∷ cs) m = steps cs (step c m)

  step_closed :
      (c : Operation K V)
      → step c (record { read_only = true; map = [] }) ≡ record { read_only = true; map = [] }
  unfolding set unset get_unset clear Dict.find
  step_closed (do_set k v) = refl
  step_closed (do_unset k) = refl
  step_closed (do_get_unset k v) = refl
  step_closed do_clear = refl
  step_closed do_clear_for_ever = refl

  steps_closed :
      (cs : List (Operation K V))
      → steps cs (record { read_only = true; map = [] }) ≡ record { read_only = true; map = [] }
  steps_closed [] = refl
  steps_closed (c ∷ cs) = ap (steps cs) (step_closed c) ∙ steps_closed cs

  -- After `clearForEver` every lookup gives its default and the map is empty, whatever calls follow
  -- in whatever order.
  pub clear_for_ever_lem :
      (m : AtomMap K V) (cs : List (Operation K V)) (k : K) (defval : V)
      → (get k defval (steps cs (clear_for_ever m)) ≡ defval)
        × (size (steps cs (clear_for_ever m)) ≡ 0)
  unfolding get Dict.find
  clear_for_ever_lem m cs k defval =
      (ap (get k defval) (steps_closed cs), ap size (steps_closed cs))

  got : (k : K) (v : V) (m : AtomMap K V) → (get_unset k v m).0 ≡ get k v m
  unfolding get_unset get find
  got k v m = elim (Option-cases (Dict.find k m.map)) [
    | inl e ↦ rw (e, get_unset, get)
    | inr (u, e) ↦ rw (e, get_unset, get)
  ]

  absent :
      (k j : K) (m : Dict K V)
      → Dict.find k m ≡ none
      → Dict.find j m ≡ (if o.key_eq k j then none else Dict.find j m)
  absent k j m e = elim (Bool-cases (o.key_eq k j)) [
    | inl t ↦ rw t (ap (λ x. Dict.find x m) (sym ((o.key_eq_iff k j).0 t)) ∙ e)
    | inr f ↦ rw f
  ]

  left :
      (k j : K) (v : V) (m : AtomMap K V)
      → m.read_only ≡ false
      → find j (get_unset k v m).1 ≡ (if o.key_eq k j then none else find j m)
  unfolding find get_unset
  left k j v m w = elim (Option-cases (Dict.find k m.map)) [
    | inl e ↦ rw (e, get_unset) (absent k j m.map e)
    | inr (u, e) ↦ rw (e, get_unset, w, find-unset k j m.map)
  ]

  -- On a map that is not read only: what a lookup of j gives after a write of k, after an erasure
  -- of k and after `getUnset` of k, which returns what `get` does.
  pub find_lem :
      (k j : K) (v : V) (m : AtomMap K V)
      → m.read_only ≡ false
      → (find j (set k v m) ≡ (if o.key_eq k j then some v else find j m))
        × (find j (unset k m).1 ≡ (if o.key_eq k j then none else find j m))
        × ((get_unset k v m).0 ≡ get k v m)
        × (find j (get_unset k v m).1 ≡ (if o.key_eq k j then none else find j m))
  unfolding find set unset
  find_lem k j v m w = (
    rw (w, set, find-set k j v m.map),
    rw (w, unset, find-unset k j m.map),
    got k v m,
    left k j v m w,
  )
