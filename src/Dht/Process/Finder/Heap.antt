-- ===== src/Dht/Process/Finder/Heap.antt =====
-- What the standard library says of `std::push_heap` and `std::pop_heap`, and heaps that do it.
use mathlib.Core.List.{Permᴰ}
use mathlib.Core.List.Permᴰ as Perm
use epyx.Base.{◌≤◌, ◌≡◌, ◌∙◌, true, false, List, [], ◌∷◌, arith, All, leb, length}
use epyx.Dht.KBucket.{SearchCandidate, nearer, push}
use epyx.Dht.KBucket.Nearest.Queue.{
  dist, IsCandidate, IsDescending, nearer_iff, push-All, push-IsDescending, push-Perm,
}
use epyx.Dht.Process.Finder.{HeapOps}

-- The element that `pop_heap` takes out of a heap of more than none: none is farther.
pub record Popped (xs ys : List SearchCandidate) : Type 0 where
  pub top : SearchCandidate
  pub members : Permᴰ xs (top ∷ ys)
  pub largest : All (λ e. nearer top e ≡ false) ys

pub record HeapLaws (h : HeapOps) : Type 1 where
  pub IsHeap : List SearchCandidate → Type 0
  pub IsHeap-nil : IsHeap []
  pub IsHeap-push :
      (c : SearchCandidate) (cs : List SearchCandidate)
      → IsCandidate c
      → IsHeap cs
      → IsHeap (h.heap_push c cs)
  pub push_members :
      (c : SearchCandidate) (cs : List SearchCandidate) → Permᴰ (h.heap_push c cs) (c ∷ cs)
  pub IsHeap-pop : (cs : List SearchCandidate) → 1 ≤ length cs → IsHeap cs → IsHeap (h.heap_pop cs)
  pub popped : (cs : List SearchCandidate) → 1 ≤ length cs → IsHeap cs → Popped cs (h.heap_pop cs)

-- A heap that is sorted, the farthest first.
abbrev tail : List SearchCandidate → List SearchCandidate
tail [] = []
tail (c ∷ cs) = cs

abbrev pub sorted_heap : HeapOps
sorted_heap = record { heap_push = push; heap_pop = tail }

abbrev IsSortedHeap : List SearchCandidate → Type 0
IsSortedHeap cs = All IsCandidate cs × IsDescending cs

none_farther :
    (c : SearchCandidate) (cs : List SearchCandidate)
    → IsCandidate c
    → All IsCandidate cs
    → All (λ e. leb (dist e) (dist c) ≡ true) cs
    → All (λ e. nearer c e ≡ false) cs
none_farther c [] i h d = tt
none_farther c (e ∷ cs) i h d =
    let x = nearer_iff c e i h.0 in
    let y = d.0 in (x ∙ ground (arith, y), none_farther c cs i h.1 d.1)

pub sorted_laws : HeapLaws sorted_heap
sorted_laws = record {
  IsHeap = IsSortedHeap;
  IsHeap-nil = (tt, tt);
  IsHeap-push = λ c cs i h. (push-All IsCandidate c cs i h.0, push-IsDescending c cs i h.0 h.1);
  push_members = push-Perm;
  IsHeap-pop = sorted_pop;
  popped = sorted_popped;
}
  where
    sorted_pop :
        (cs : List SearchCandidate) → 1 ≤ length cs → IsSortedHeap cs → IsSortedHeap (tail cs)
    sorted_pop [] p h = absurd (omega arith)
    sorted_pop (c ∷ cs) p h = (h.0.1, h.1.1)

    sorted_popped :
        (cs : List SearchCandidate) → 1 ≤ length cs → IsSortedHeap cs → Popped cs (tail cs)
    sorted_popped [] p h = absurd (omega arith)
    sorted_popped (c ∷ cs) p h = record {
      top = c;
      members = Perm.refl (c ∷ cs);
      largest = none_farther c cs h.0.0 h.0.1 h.1.0;
    }
