-- ===== src/Parser/Gtt/Syntax/Scan.antt =====
-- Lemmas on the loops of the parser over the characters of a line.
use epyx.Base.{
  ℕ, ◌≡◌, ◌≢◌, refl, ap, inl, inr, Bool, true, false, [], ◌∷◌, ◌++◌, some, arith, ◌==◌, ==_iff,
  Bytes, All, Bool-cases,
}
use epyx.Parser.Gtt.Syntax.{scan, scan_end, skip_spaces}

abbrev pub Passes : (ℕ → Bool) → Bytes → Type 0
Passes ok = All (λ c. ok c ≡ true)

-- A character that passes is not one that does not.
pub ne_of_pass : (ok : ℕ → Bool) (c stop : ℕ) → ok c ≡ true → ok stop ≡ false → (c == stop) ≡ false
ne_of_pass ok c stop p q = elim (Bool-cases (c == stop)) [
  | inl e ↦ let same : c ≡ stop = (==_iff c stop).0 e in absurd (cc (ap ok same))
  | inr e ↦ e
]

pub scan-append :
    (stop : ℕ) (ok : ℕ → Bool) (s rest : Bytes)
    → Passes ok s
    → ok stop ≡ false
    → scan stop ok (s ++ stop ∷ rest) ≡ some (s, rest)
unfolding scan
scan-append stop ok [] rest h q = ground arith
scan-append stop ok (c ∷ s) rest h q =
    rw (ne_of_pass ok c stop h.0 q, h.0, scan-append stop ok s rest h.1 q)

pub scan_end_all : (ok : ℕ → Bool) (s : Bytes) → Passes ok s → ok 0 ≡ false → scan_end ok s ≡ some s
unfolding scan_end
scan_end_all ok [] h q = refl
scan_end_all ok (c ∷ s) h q = rw (ne_of_pass ok c 0 h.0 q, h.0, scan_end_all ok s h.1 q)

pub skip_spaces_one : (c : ℕ) (s : Bytes) → c ≢ b' ' → skip_spaces (b' ' ∷ c ∷ s) ≡ c ∷ s
unfolding skip_spaces
skip_spaces_one c s h = ground arith
