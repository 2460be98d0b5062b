-- ===== src/Dht/KBucket/Search.antt =====
-- Lemmas on the lists of peers: what the loop of `seenPeer` finds, and a property of each bucket.
use epyx.Base.{
  ℕ, zero, suc, ◌+◌, ◌<◌, ◌≡◌, refl, ap, subst, true, false, List, [], ◌∷◌, ◌++◌, Option, none,
  some, Bool-cases, inl, inr, arith, length, get_or, set, All,
}
use epyx.Dht.Id.{DhtId, id_eq}
use epyx.Dht.KBucket.{Peer, Bucket, search}

pub All-remove {ℓ κ} :
    {A : Type ℓ} (P : A → Type κ) (before : List A) (x : A) (after : List A)
    → All P (before ++ x ∷ after)
    → P x × All P (before ++ after)
All-remove P [] x after h = h
All-remove P (y ∷ before) x after h =
    let ih = All-remove P before x after h.1 in (ih.0, (h.0, ih.1))

-- What `search` returns: nothing where no peer has the identifier, or such a peer and the list
-- without it.
abbrev pub Searched : DhtId → Bucket → Option (Peer × Bucket) → Type 0
Searched a b none = All (λ q. id_eq a q.id ≡ false) b
Searched a b (some (p, others)) =
    (before : Bucket) × (after : Bucket) × (before ++ p ∷ after ≡ b)
    × (before ++ after ≡ others)
    × (id_eq a p.id ≡ true)

Searched-cons :
    (a : DhtId) (q : Peer) (b : Bucket) (o : Option (Peer × Bucket))
    → id_eq a q.id ≡ false
    → Searched a b o
    → Searched a (q ∷ b) (elim o [ none ↦ none | some (found, others) ↦ some (found, q ∷ others) ])
Searched-cons a q b none f v = (f, v)
Searched-cons a q b (some (p, others)) f (before, after, s, o, t) =
    (q ∷ before, after, rw s, rw o, t)

pub search_view : (a : DhtId) (b : Bucket) → Searched a b (search a b)
unfolding search
search_view a [] = tt
search_view a (q ∷ b) =
    let ih = search_view a b in
    elim (Bool-cases (id_eq a q.id)) [
      | inl t ↦ rw t ([], b, refl, refl, t)
      | inr f ↦ rw f (Searched-cons a q b (search a b) f ih)
    ]

-- The buckets satisfy a predicate on index and bucket, where the first has index `j`.
abbrev pub Each : (ℕ → Bucket → Type 0) → ℕ → List Bucket → Type 0
Each P j [] = Unit
Each P j (b ∷ bs) = P j b × Each P (suc j) bs

each_get :
    (P : ℕ → Bucket → Type 0) (j : ℕ) (bs : List Bucket) (i : ℕ)
    → i < length bs
    → Each P j bs
    → P (j + i) (get_or bs i [])
each_get P j [] i l h = elim l [ ]
each_get P j (b ∷ bs) zero l h = subst (λ n. P n b) (omega arith) h.0
each_get P j (b ∷ bs) (suc i) l h =
    subst (λ n. P n (get_or bs i [])) (omega arith) (each_get P (suc j) bs i (omega arith) h.1)

Each-set :
    (P : ℕ → Bucket → Type 0) (j : ℕ) (bs : List Bucket) (i : ℕ) (b : Bucket)
    → Each P j bs
    → P (j + i) b
    → Each P j (set bs i b)
Each-set P j [] i b h hb = tt
Each-set P j (c ∷ bs) zero b h hb = (subst (λ n. P n b) (omega arith) hb, h.1)
Each-set P j (c ∷ bs) (suc i) b h hb =
    (h.0, Each-set P (suc j) bs i b h.1 (subst (λ n. P n b) (omega arith) hb))

pub get_at :
    (P : ℕ → Bucket → Type 0) (bs : List Bucket) (i : ℕ)
    → i < length bs
    → Each P 0 bs
    → P i (get_or bs i [])
get_at P bs i l h = subst (λ n. P n (get_or bs i [])) (omega arith) (each_get P 0 bs i l h)

pub set_at :
    (P : ℕ → Bucket → Type 0) (bs : List Bucket) (i : ℕ) (b : Bucket)
    → Each P 0 bs
    → P i b
    → Each P 0 (set bs i b)
set_at P bs i b h hb = Each-set P 0 bs i b h (subst (λ n. P n b) (omega arith) hb)

pub get_or-set_cases {ℓ κ} :
    {A : Type ℓ} (R : A → Type κ) (xs : List A) (i j : ℕ) (v d : A)
    → (i ≡ j → R v)
    → R (get_or xs i d)
    → R (get_or (set xs j v) i d)
get_or-set_cases R [] i j v d h r = r
get_or-set_cases R (x ∷ xs) zero zero v d h r = h refl
get_or-set_cases R (x ∷ xs) (suc i) zero v d h r = r
get_or-set_cases R (x ∷ xs) zero (suc j) v d h r = r
get_or-set_cases R (x ∷ xs) (suc i) (suc j) v d h r =
    get_or-set_cases R xs i j v d (λ e. h (ap suc e)) r
