-- ===== src/Dht/Id/Tests.antt =====
-- Identifiers at concrete inputs.
use epyx.Base.{◌+◌, ◌≤◌, ◌≡◌, refl, ◌↔◌, true, [], ◌∷◌, ◌++◌, arith, ltb, ◌==◌, replicate, codes}
use epyx.Dht.Id.FirstBit.{FirstBitSpec, distance-first_active}
use epyx.Dht.Id.Metric.{distance_metric}
use epyx.Dht.Id.Order.{id_compare}
use epyx.Dht.Id.Text.{read-print}
use epyx.Dht.Id.Value.{value}
use epyx.Dht.Id.{DhtId, IsId, reset, print, read, id_lt, id_eq, distance}

abbrev first : DhtId
first = 0x00 ∷ 0x2a ∷ replicate 30 0xff

abbrev second : DhtId
second = 0x00 ∷ 0x0b ∷ replicate 30 0x10

first-IsId : IsId first
first-IsId = (refl, omega arith)

second-IsId : IsId second
second-IsId = (refl, omega arith)

reset-IsId : IsId reset
reset-IsId = (refl, omega arith)

first_active_test : (distance first second).first_active ≡ 10
unfolding distance
first_active_test = refl

first_active_same : (distance first first).first_active ≡ 255
unfolding distance
first_active_same = refl

print_test : print (0x0f ∷ 0xa0 ∷ 0x01 ∷ []) ≡ codes "0fa0:01"
unfolding print
print_test = refl

distance-first_active_example :
    FirstBitSpec (value (distance first second).bytes) (distance first second).first_active
distance-first_active_example = distance-first_active first second first-IsId second-IsId

distance_metric_example :
    (distance first second ≡ distance second first)
    × ((value (distance first second).bytes ≡ 0) ↔ (first ≡ second))
    × (value (distance first reset).bytes
        ≤ value (distance first second).bytes + value (distance second reset).bytes)
    × (((distance first second).bytes ≡ (distance first reset).bytes) ↔ (second ≡ reset))
distance_metric_example = distance_metric first second reset first-IsId second-IsId reset-IsId

id_compare_test :
    (id_lt second first ≡ ltb (value second) (value first))
    × (id_eq second first ≡ (value second == value first))
    × ((id_eq second first ≡ true) ↔ (second ≡ first))
id_compare_test = id_compare second first second-IsId first-IsId

read-print_test : read (print first ++ codes "%x") ≡ (first, codes "%x")
read-print_test = read-print first (codes "%x") first-IsId
