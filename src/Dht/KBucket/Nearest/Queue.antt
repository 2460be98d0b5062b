-- ===== src/Dht/KBucket/Nearest/Queue.antt =====
-- The queue of the search: a list sorted farthest first, of which the last `n` are kept.
use mathlib.Core.List.{Permᴰ}
use mathlib.Core.List.Permᴰ as Perm
use epyx.Base.{
  ℕ, zero, suc, ◌+◌, ◌-◌, ◌<◌, ◌≡◌, refl, sym, ◌∙◌, true, false, List, [], ◌∷◌, ◌++◌, some, arith,
  ltb, leb, length, drop, All, Bool-cases, inl, inr, ltb→lt, ◌≤◌, length-drop, if◌then◌else◌,
}
use epyx.Dht.Id.{IsId}
use epyx.Dht.Id.Order.{id_compare}
use epyx.Dht.Id.Value.{value}
use epyx.Dht.KBucket.{SearchCandidate, nearer, push, drop_farthest, consider}

abbrev pub dist : SearchCandidate → ℕ
dist (d, p) = value d.bytes

abbrev pub IsCandidate : SearchCandidate → Type 0
IsCandidate (d, p) = IsId d.bytes

-- No candidate is farther than one before it.
abbrev pub IsDescending : List SearchCandidate → Type 0
IsDescending [] = Unit
IsDescending (c ∷ cs) = All (λ e. leb (dist e) (dist c) ≡ true) cs × IsDescending cs

-- All candidates sorted, farthest first.
abbrev pub sort : List SearchCandidate → List SearchCandidate → List SearchCandidate
sort [] acc = acc
sort (c ∷ cs) acc = sort cs (push c acc)

pub nearer_iff :
    (c q : SearchCandidate) → IsCandidate c → IsCandidate q → nearer c q ≡ ltb (dist c) (dist q)
nearer_iff (d, p) (e, q) hc hq = (id_compare d.bytes e.bytes hc hq).0

pub length-push :
    (c : SearchCandidate) (qs : List SearchCandidate) → length (push c qs) ≡ suc (length qs)
unfolding push
length-push c [] = refl
length-push c (q ∷ qs) = ground (arith, length-push c qs)

pub push-All :
    (P : SearchCandidate → Type 0) (c : SearchCandidate) (qs : List SearchCandidate)
    → P c
    → All P qs
    → All P (push c qs)
unfolding push
push-All P c [] h hs = (h, tt)
push-All P c (q ∷ qs) h hs =
    let ih = push-All P c qs h hs.1 in
    elim (Bool-cases (nearer c q)) [ inl t ↦ rw t (hs.0, ih) | inr f ↦ rw f (h, hs) ]

pub sort-All :
    (P : SearchCandidate → Type 0) (cs acc : List SearchCandidate)
    → All P cs
    → All P acc
    → All P (sort cs acc)
sort-All P [] acc h ha = ha
sort-All P (c ∷ cs) acc h ha = sort-All P cs (push c acc) h.1 (push-All P c acc h.0 ha)

pub below_all :
    (c q : SearchCandidate) (qs : List SearchCandidate)
    → leb (dist q) (dist c) ≡ true
    → All (λ e. leb (dist e) (dist q) ≡ true) qs
    → All (λ e. leb (dist e) (dist c) ≡ true) qs
below_all c q [] h hs = tt
below_all c q (e ∷ qs) h hs =
    let ih = below_all c q qs h hs.1 in let x = hs.0 in (ground (arith, x, h), ih)

pub push-IsDescending :
    (c : SearchCandidate) (qs : List SearchCandidate)
    → IsCandidate c
    → All IsCandidate qs
    → IsDescending qs
    → IsDescending (push c qs)
unfolding push
push-IsDescending c [] hc h d = (tt, tt)
push-IsDescending c (q ∷ qs) hc h d =
    let ih = push-IsDescending c qs hc h.1 d.1 in
    let e = nearer_iff c q hc h.0 in
    elim (Bool-cases (nearer c q)) [
      | inl t ↦ rw t (push-All (λ x. leb (dist x) (dist q) ≡ true) c qs (ground arith) d.0, ih)
      | inr f ↦ rw f ((ground arith, below_all c q qs (ground arith) d.0), d)
    ]

pub push-Perm : (c : SearchCandidate) (qs : List SearchCandidate) → Permᴰ (push c qs) (c ∷ qs)
unfolding push
push-Perm c [] = Perm.refl (c ∷ [])
push-Perm c (q ∷ qs) =
    let ih = push-Perm c qs in
    elim (Bool-cases (nearer c q)) [
      | inl t ↦ rw t (Permᴰ.trans (Permᴰ.cons refl ih) (Permᴰ.swap refl refl))
      | inr f ↦ rw f (Perm.refl (c ∷ q ∷ qs))
    ]

pub sort-Perm : (cs acc : List SearchCandidate) → Permᴰ (sort cs acc) (acc ++ cs)
sort-Perm [] acc = Perm.symm (Perm.append-nil acc)
sort-Perm (c ∷ cs) acc =
    Permᴰ.trans (sort-Perm cs (push c acc))
      (Permᴰ.trans (Perm.append_right cs (push-Perm c acc)) (Perm.symm (Perm.middle c acc cs)))

pub sort-IsDescending :
    (cs acc : List SearchCandidate)
    → All IsCandidate cs
    → All IsCandidate acc
    → IsDescending acc
    → IsDescending (sort cs acc)
sort-IsDescending [] acc h ha d = d
sort-IsDescending (c ∷ cs) acc h ha d =
    sort-IsDescending cs (push c acc) h.1 (push-All IsCandidate c acc h.0 ha)
      (push-IsDescending c acc h.0 ha d)

pub length-sort : (cs acc : List SearchCandidate) → length (sort cs acc) ≡ length acc + length cs
length-sort [] acc = omega arith
length-sort (c ∷ cs) acc = omega (arith, length-sort cs (push c acc), length-push c acc)

-- What is kept, where `ys` was kept and `c` comes.
abbrev pub Kept : SearchCandidate → List SearchCandidate → List SearchCandidate → Type 0
Kept c [] zs = Unit
Kept c (f ∷ rest) zs = zs ≡ (if nearer c f then push c rest else f ∷ rest)

pub not_nearer :
    (c x : SearchCandidate) (xs : List SearchCandidate)
    → IsCandidate c
    → IsCandidate x
    → All IsCandidate xs
    → nearer c x ≡ false
    → All (λ e. leb (dist e) (dist x) ≡ true) xs
    → All (λ e. nearer c e ≡ false) xs
not_nearer c x [] hc hx h n d = tt
not_nearer c x (e ∷ xs) hc hx h n d =
    let p = sym (nearer_iff c x hc hx) ∙ n in
    let q = nearer_iff c e hc h.0 in
    let u = d.0 in (q ∙ ground (arith, p, u), not_nearer c x xs hc hx h.1 n d.1)

pub drop-All :
    (P : SearchCandidate → Type 0) (k : ℕ) (xs : List SearchCandidate)
    → All P xs
    → All P (drop k xs)
drop-All P zero xs h = h
drop-All P (suc k) [] h = tt
drop-All P (suc k) (x ∷ xs) h = drop-All P k xs h.1

pub Kept-same :
    (c : SearchCandidate) (ys : List SearchCandidate)
    → All (λ e. nearer c e ≡ false) ys
    → Kept c ys ys
Kept-same c [] h = tt
Kept-same c (f ∷ rest) h = rw (h.0)

pub drop-push :
    (k : ℕ) (c : SearchCandidate) (xs : List SearchCandidate)
    → IsCandidate c
    → All IsCandidate xs
    → IsDescending xs
    → Kept c (drop k xs) (drop (suc k) (push c xs))
unfolding push
drop-push zero c [] hc h d = tt
drop-push (suc k) c [] hc h d = tt
drop-push zero c (x ∷ xs) hc h d = elim (Bool-cases (nearer c x)) [ inl t ↦ rw t | inr f ↦ rw f ]
drop-push (suc k) c (x ∷ xs) hc h d =
    let ih = drop-push k c xs hc h.1 d.1 in
    elim (Bool-cases (nearer c x)) [
      | inl t ↦ rw t ih
      | inr f ↦ rw f (
          Kept-same c (drop k xs)
            (drop-All (λ e. nearer c e ≡ false) k xs (not_nearer c x xs hc h.0 h.1 f d.0)))
    ]

pub consider_full :
    (n : ℕ) (c : SearchCandidate) (ys zs : List SearchCandidate)
    → 0 < n
    → length ys ≡ n
    → Kept c ys zs
    → consider n c ys ≡ some zs
unfolding consider drop_farthest
consider_full n c [] zs p e h = ground arith
consider_full n c (f ∷ rest) zs p e h = elim (Bool-cases (nearer c f)) [
  | inl t ↦ ground arith
  | inr g ↦ ground arith
]

pub consider_room :
    (n : ℕ) (c : SearchCandidate) (ys : List SearchCandidate)
    → length ys < n
    → consider n c ys ≡ some (push c ys)
unfolding consider drop_farthest
consider_room n c ys p = ground arith

-- The last `n` of a list.
abbrev pub last : ℕ → List SearchCandidate → List SearchCandidate
last n xs = drop (length xs - n) xs

pub consider-last :
    (n : ℕ) (c : SearchCandidate) (xs : List SearchCandidate)
    → 0 < n
    → IsCandidate c
    → All IsCandidate xs
    → IsDescending xs
    → consider n c (last n xs) ≡ some (last n (push c xs))
consider-last n c xs p hc h d =
    let l = length-push c xs in
    elim (Bool-cases (ltb (length xs) n)) [
      | inl t ↦
          let q = ltb→lt (length xs) n t in
          let e : length xs - n ≡ 0 = omega (arith, q) in
          let g : length (push c xs) - n ≡ 0 = omega (arith, q, l) in
          rw (e, g) (consider_room n c xs q)
      | inr f ↦
          let q : n ≤ length xs = ground (arith, f) in
          let e : length (push c xs) - n ≡ suc (length xs - n) = omega (arith, q, l) in
          rw e (
            consider_full n c (last n xs) (drop (suc (length xs - n)) (push c xs)) p
              (omega (arith, q, length-drop (length xs - n) xs))
              (drop-push (length xs - n) c xs hc h d))
    ]
