-- ===== src/Dht/Process/Finder/Step.antt =====
-- Lemmas on one step of a search: a list that is kept, and a peer that comes.
use mathlib.Core.List.{Permᴰ}
use mathlib.Core.List.Permᴰ as Perm
use epyx.Base.{
  ℕ, suc, ◌≤◌, ◌<◌, ◌≡◌, sym, subst, ◌∙◌, ◌⊎◌, inl, inr, Bool, true, false, List, ◌∷◌, arith, All,
  ltb, length, Bool-cases,
}
use epyx.Dht.Id.{DhtId, IsId, id_eq}
use epyx.Dht.Id.Order.{id_compare}
use epyx.Dht.KBucket.{Peer, SearchCandidate}
use epyx.Dht.Process.Finder.{HeapOps, push_bounded}
use epyx.Dht.Process.Finder.Heap.{HeapLaws, Popped}
use epyx.Dht.Process.Finder.Counts.{count, count-Permᴰ, length-Permᴰ, All-Permᴰ}
use epyx.Dht.Process.Finder.Bounded.{
  IsMade, with_id, beyond, far_from, IsFull, IsDistinct, made-IsCandidate, IsDistinct-cons,
  covered_member, covered-IsFull,
}

pub has_self :
    (id : DhtId) (c : SearchCandidate) (cs : List SearchCandidate)
    → IsId c.1.id
    → c.1.id ≡ id
    → 0 < count (with_id id) (c ∷ cs)
unfolding count
has_self id c cs i e =
    let hit : id_eq c.1.id id ≡ true = (id_compare c.1.id id i (subst IsId e i)).2.1 e in
    ground (arith, hit)

pub count-grows :
    (f : SearchCandidate → Bool) (c : SearchCandidate) (cs : List SearchCandidate)
    → 0 < count f cs
    → 0 < count f (c ∷ cs)
unfolding count
count-grows f c cs k = ground (arith, k)

smaller :
    (f : SearchCandidate → Bool) (t : SearchCandidate) (ys : List SearchCandidate)
    → count f (t ∷ ys) ≤ 1
    → count f ys ≤ 1
unfolding count
smaller f t ys l = ground (arith, l)

module _ (h : HeapOps) (laws : HeapLaws h) (r : DhtId) (hr : IsId r) (P : Peer → Type 0)
    (n : ℕ) where
  -- A list of candidates that a search keeps.
  pub record Kept (cs : List SearchCandidate) : Type 0 where
    pub heap : laws.IsHeap cs
    pub made : All (IsMade r P) cs
    pub bounded : length cs ≤ n
    pub distinct : IsDistinct r hr P cs

  -- A peer counts for a list, as a member or because the list is full of nearer ones.
  abbrev pub Reaches : List SearchCandidate → Peer → Type 0
  Reaches cs q = (0 < count (with_id q.id) cs) ⊎ IsFull n r cs q

  module _ (c : SearchCandidate) (cs : List SearchCandidate) (m : IsMade r P c) (k : Kept cs)
      (absent : count (with_id c.1.id) cs ≡ 0) where
    more : List SearchCandidate
    more = h.heap_push c cs

    more_members : Permᴰ more (c ∷ cs)
    unfolding more
    more_members = laws.push_members c cs

    more_made : All (IsMade r P) more
    more_made = All-Permᴰ (IsMade r P) (Perm.symm more_members) (m, k.made)

    more_heap : laws.IsHeap more
    unfolding more
    more_heap = laws.IsHeap-push c cs (made-IsCandidate r hr P c m) k.heap

    more-IsDistinct : IsDistinct r hr P more
    more-IsDistinct id i =
        subst (λ x. x ≤ 1) (sym (count-Permᴰ (with_id id) more_members))
          (IsDistinct-cons r hr P c cs m absent k.distinct id i)

    more-length : length more ≡ suc (length cs)
    more-length = length-Permᴰ more_members

    room : ltb n (length more) ≡ false → Kept more
    room e = record {
      heap = more_heap;
      made = more_made;
      bounded = ground (arith, e);
      distinct = more-IsDistinct;
    }

    room_counts :
        (q : Peer)
        → ltb n (length more) ≡ false
        → (0 < count (with_id q.id) (c ∷ cs)) ⊎ IsFull n r cs q
        → Reaches more q
    room_counts q e (inl member) =
        inl (subst (λ x. 0 < x) (sym (count-Permᴰ (with_id q.id) more_members)) member)
    room_counts q e (inr full) = absurd (ground (arith, e, more-length, full.0))

    module _ (o : Popped more (h.heap_pop more)) (over : ltb n (length more) ≡ true) where
      left : List SearchCandidate
      left = h.heap_pop more

      out_made : All (IsMade r P) (o.top ∷ left)
      unfolding left
      out_made = All-Permᴰ (IsMade r P) o.members more_made

      out_length : length left ≡ n
      unfolding left
      out_length =
          let e = length-Permᴰ o.members in
          let b = k.bounded in ground (arith, e, more-length, over, b)

      out_count : (f : SearchCandidate → Bool) → count f (c ∷ cs) ≡ count f (o.top ∷ left)
      unfolding left
      out_count f = sym (count-Permᴰ f more_members) ∙ count-Permᴰ f o.members

      out-IsDistinct : IsDistinct r hr P left
      unfolding left
      out-IsDistinct id i =
          let e = count-Permᴰ (with_id id) o.members in
          let d = more-IsDistinct id i in
          smaller (with_id id) o.top (h.heap_pop more) (omega (arith, e, d))

      popped-Kept : Kept left
      unfolding left
      popped-Kept = record {
        heap = laws.IsHeap-pop more (omega (arith, more-length)) more_heap;
        made = out_made.1;
        bounded = omega (arith, out_length);
        distinct = out-IsDistinct;
      }

      popped_counts :
          (q : Peer)
          → IsId q.id
          → (0 < count (with_id q.id) (c ∷ cs)) ⊎ IsFull n r cs q
          → Reaches left q
      unfolding left
      popped_counts q i (inl member) =
          covered_member r hr P n o.top left q out_made.0 out_made.1 o.largest out_length i
            (subst (λ x. 0 < x) (out_count (with_id q.id)) member)
      popped_counts q i (inr full) = inr (
          covered-IsFull r hr P n c o.top cs left q out_made.0 out_made.1 o.largest out_length
            (out_count (beyond (far_from r q))) full)

    pub push_bounded-Kept :
        Kept (push_bounded h n c cs)
        × ((q : Peer)
            → IsId q.id
            → (0 < count (with_id q.id) (c ∷ cs)) ⊎ IsFull n r cs q
            → Reaches (push_bounded h n c cs) q)
    unfolding push_bounded more
    push_bounded-Kept = elim (Bool-cases (ltb n (length more))) [
      | inr e ↦ rw e (room e, λ q i k. room_counts q e k)
      | inl e ↦
          let o = laws.popped more (omega (arith, more-length)) more_heap in
          rw e (unfold left in (popped-Kept o e, popped_counts o e))
    ]
