-- ===== src/Dht/Node/Storage.antt =====
-- What the storage gives back.
use epyx.Base.{
  ◌≡◌, refl, true, none, some, if◌then◌else◌, Bytes, bytes_eq, bytes_eq_iff, Option-cases, inl, inr,
}
use epyx.Base.Dict
use epyx.Base.Dict.{bytes_order, find-set}
use epyx.Dht.Node.{Stock, has, get, set}

message : (k v : Bytes) (s : Stock) → (set k v s).1 ≡ (if has k s then none else some k)
unfolding set has
message k v s = elim (Option-cases (Dict.find k s.data_of)) [
  | inl e ↦ rw (e, set, has)
  | inr (u, e) ↦ rw (e, set, has)
]

here : (k v : Bytes) (s : Stock) → has k (set k v s).0 ≡ true
unfolding set has
here k v s =
    let e : bytes_eq k k ≡ true = (bytes_eq_iff k k).1 refl in rw (find-set k k v s.data_of, has, e)

-- After a value is set for the key k, a read of j gives it where j is k, and what it gave before
-- else; the replicater hears of k exactly where it was not in the storage; and k is in the storage
-- then.
pub storage_lem :
    (k j v : Bytes) (s : Stock)
    → (get j (set k v s).0 ≡ (if bytes_eq k j then some v else get j s))
      × ((set k v s).1 ≡ (if has k s then none else some k))
      × (has k (set k v s).0 ≡ true)
unfolding get set
storage_lem k j v s = (find-set k j v s.data_of, message k v s, here k v s)
