-- ===== src/Dht/Process/Finder/Counts.antt =====
-- Counting the members of a list of candidates, in whatever order they stand.
use mathlib.Core.List.{Permᴰ}
use epyx.Base.{
  ℕ, suc, ◌≡◌, refl, ap, subst, ◌∙◌, inl, inr, Bool, true, false, List, [], ◌∷◌, arith, All, length,
  if◌then◌else◌, Bool-cases,
}

count_swap :
    (b c : Bool) (n : ℕ)
    → (if b then suc (if c then suc n else n) else (if c then suc n else n))
      ≡ (if c then suc (if b then suc n else n) else (if b then suc n else n))
count_swap true true n = refl
count_swap true false n = refl
count_swap false true n = refl
count_swap false false n = refl

module _ {A : Type 0} where
  unfoldable pub count : (A → Bool) → List A → ℕ
  count f [] = 0
  count f (x ∷ xs) = let rest = count f xs in if f x then suc rest else rest

  count_cons :
      (f : A → Bool) (x : A) (m n : ℕ)
      → m ≡ n
      → (if f x then suc m else m) ≡ (if f x then suc n else n)
  count_cons f x m n e = ap (λ k. if f x then suc k else k) e

  pub count-Permᴰ : (f : A → Bool) {xs ys : List A} → Permᴰ xs ys → count f xs ≡ count f ys
  unfolding count
  count-Permᴰ f Permᴰ.nil = refl
  count-Permᴰ f (Permᴰ.cons {a} {b} {l₁} {l₂} e p) =
      count_cons f a (count f l₁) (count f l₂) (count-Permᴰ f p)
      ∙ ap (λ x. if f x then suc (count f l₂) else count f l₂) e
  count-Permᴰ f (Permᴰ.swap {a} {b} {a'} {b'} {l} e g) =
      count_swap (f a) (f b) (count f l)
      ∙ ap
          (λ x.
            if f b
            then suc (if f x then suc (count f l) else count f l)
            else (if f x then suc (count f l) else count f l))
          e
      ∙ ap (λ x. if f x then suc (count f (b' ∷ l)) else count f (b' ∷ l)) g
  count-Permᴰ f (Permᴰ.trans p q) = count-Permᴰ f p ∙ count-Permᴰ f q

  pub length-Permᴰ : {xs ys : List A} → Permᴰ xs ys → length xs ≡ length ys
  length-Permᴰ Permᴰ.nil = refl
  length-Permᴰ (Permᴰ.cons e p) = ap suc (length-Permᴰ p)
  length-Permᴰ (Permᴰ.swap e g) = refl
  length-Permᴰ (Permᴰ.trans p q) = length-Permᴰ p ∙ length-Permᴰ q

  pub All-Permᴰ : (P : A → Type 0) {xs ys : List A} → Permᴰ xs ys → All P xs → All P ys
  All-Permᴰ P Permᴰ.nil h = tt
  All-Permᴰ P (Permᴰ.cons e p) h = (subst P e h.0, All-Permᴰ P p h.1)
  All-Permᴰ P (Permᴰ.swap e g) h = (subst P g h.1.0, (subst P e h.0, h.1.1))
  All-Permᴰ P (Permᴰ.trans p q) h = All-Permᴰ P q (All-Permᴰ P p h)

  pub count-All : (f : A → Bool) (xs : List A) → count f xs ≡ 0 → All (λ x. f x ≡ false) xs
  unfolding count
  count-All f [] e = tt
  count-All f (x ∷ xs) e = elim (Bool-cases (f x)) [
    | inl hit ↦ absurd (ground (arith, e, hit))
    | inr miss ↦ (miss, count-All f xs (ground (arith, e, miss)))
  ]

  pub All-count : (f : A → Bool) (xs : List A) → All (λ x. f x ≡ false) xs → count f xs ≡ 0
  unfolding count
  All-count f [] h = refl
  All-count f (x ∷ xs) h = rw (h.0) (All-count f xs h.1)
