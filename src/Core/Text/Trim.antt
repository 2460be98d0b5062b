-- ===== src/Core/Text/Trim.antt =====
-- Lemmas on `String::ltrim`, `String::rtrim` and `String::trim` (core/string.cpp).
use epyx.Base.{ℕ, ◌≡◌, refl, ap, ◌∙◌, inl, inr, true, false, [], ◌∷◌, ◌++◌, Bytes, Bool-cases, All}
use epyx.Core.Ctype.{is_space}
use epyx.Core.Text.{ltrim, rtrim, trim}

abbrev pub IsSpaces : Bytes → Type 0
IsSpaces = All (λ c. is_space c ≡ true)

-- The text begins, or ends, with no white space.
abbrev pub IsTight : Bytes → Type 0
IsTight [] = Unit
IsTight (c ∷ s) = is_space c ≡ false

abbrev last_or : ℕ → Bytes → ℕ
last_or d [] = d
last_or d (c ∷ s) = last_or c s

abbrev pub IsTightEnd : Bytes → Type 0
IsTightEnd [] = Unit
IsTightEnd (c ∷ s) = is_space (last_or c s) ≡ false

ltrim_lem : (s : Bytes) → (pre : Bytes) × (s ≡ pre ++ ltrim s) × IsSpaces pre × IsTight (ltrim s)
unfolding ltrim
ltrim_lem [] = ([], refl, tt, tt)
ltrim_lem (c ∷ s) = elim (Bool-cases (is_space c)) [
  | inl e ↦
      let (pre, split, spaces, tight) = ltrim_lem s in
      rw e (c ∷ pre, ap (◌∷◌ c) split, (e, spaces), tight)
  | inr e ↦ rw e ([], refl, tt, e)
]

rtrim_lem :
    (s : Bytes) → (post : Bytes) × (s ≡ rtrim s ++ post) × IsSpaces post × IsTightEnd (rtrim s)
unfolding rtrim
rtrim_lem [] = ([], refl, tt, tt)
rtrim_lem (c ∷ s) = rtrim_cons (rtrim s) refl (rtrim_lem s)
  where
    rtrim_cons :
        (r : Bytes)
        → rtrim s ≡ r
        → ((post : Bytes) × (s ≡ rtrim s ++ post) × IsSpaces post × IsTightEnd (rtrim s))
        → (post : Bytes) × (c ∷ s ≡ rtrim (c ∷ s) ++ post)
          × IsSpaces post
          × IsTightEnd (rtrim (c ∷ s))
    rtrim_cons [] e (post, split, spaces, tight) = elim (Bool-cases (is_space c)) [
      | inl sp ↦ (
        c ∷ post,
        rw (e, sp, rtrim) (ap (◌∷◌ c) (rw e at split)),
        (sp, spaces),
        rw (e, sp, rtrim) tt,
      )
      | inr ns ↦
          (post, rw (e, ns, rtrim) (ap (◌∷◌ c) (rw e at split)), spaces, rw (e, ns, rtrim) ns)
    ]
    rtrim_cons (d ∷ t) e (post, split, spaces, tight) =
        (post, rw (e, rtrim) (ap (◌∷◌ c) (rw e at split)), spaces, rw (e, rtrim) (rw e at tight))

ltrim-IsTightEnd : (s : Bytes) → IsTightEnd s → IsTightEnd (ltrim s)
unfolding ltrim
ltrim-IsTightEnd [] h = tt
ltrim-IsTightEnd (c ∷ []) h = rw h h
ltrim-IsTightEnd (c ∷ d ∷ s) h = elim (Bool-cases (is_space c)) [
  | inl e ↦ rw e (ltrim-IsTightEnd (d ∷ s) h)
  | inr e ↦ rw e h
]

-- `trim` splits a text into white space, the result, which neither begins nor ends with white
-- space, and white space.
pub trim_lem :
    (s : Bytes)
    → (pre : Bytes) × (post : Bytes) × (s ≡ pre ++ trim s ++ post)
      × IsSpaces pre
      × IsSpaces post
      × IsTight (trim s)
      × IsTightEnd (trim s)
unfolding trim
trim_lem s =
    let (post, split, spaces, tight_end) = rtrim_lem s in
    let (pre, split', spaces', tight) = ltrim_lem (rtrim s) in
    (
      pre,
      post,
      split ∙ ap (λ (t : Bytes). t ++ post) split',
      spaces',
      spaces,
      tight,
      ltrim-IsTightEnd (rtrim s) tight_end,
    )
