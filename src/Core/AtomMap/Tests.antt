-- ===== src/Core/AtomMap/Tests.antt =====
-- The map at concrete inputs.
use epyx.Base.{ℕ, ◌≡◌, refl, false, [], ◌∷◌, none, some, if◌then◌else◌, ◌==◌}
use epyx.Base.Dict.{nat_order}
use epyx.Core.AtomMap.{AtomMap, set, find, get, unset, get_unset, clear_for_ever, size}
use epyx.Core.AtomMap.Laws.{do_set, do_unset, steps, clear_for_ever_lem, find_lem}

abbrev one : AtomMap ℕ ℕ
one = record { read_only = false; map = (3, 30) ∷ [] }

-- The value that `unset` returns on a read-only map is not initialised.
unset_closed : (unset 3 (clear_for_ever one)).0 ≡ none
unfolding unset
unset_closed = refl

clear_for_ever_lem_test :
    (get 4 9 (steps (do_set 4 40 ∷ do_unset 3 ∷ []) (clear_for_ever one)) ≡ 9)
    × (size (steps (do_set 4 40 ∷ do_unset 3 ∷ []) (clear_for_ever one)) ≡ 0)
clear_for_ever_lem_test = clear_for_ever_lem one (do_set 4 40 ∷ do_unset 3 ∷ []) 4 9

find_lem_test :
    (find 4 (set 3 31 one) ≡ (if 3 == 4 then some 31 else find 4 one))
    × (find 4 (unset 3 one).1 ≡ (if 3 == 4 then none else find 4 one))
    × ((get_unset 3 31 one).0 ≡ get 3 31 one)
    × (find 4 (get_unset 3 31 one).1 ≡ (if 3 == 4 then none else find 4 one))
find_lem_test = find_lem 3 4 31 one refl
