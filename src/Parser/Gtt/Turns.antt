-- ===== src/Parser/Gtt/Turns.antt =====
-- The loop of `getPacket` as a chain of turns, with no fuel in sight.
use epyx.Base.{ℕ, zero, suc, ◌<◌, ◌≡◌, refl, ◌∙◌, Option, none, some, arith, length}
use epyx.Parser.Gtt.Syntax.{Thrown}
use epyx.Parser.Gtt.Total.{IsReady, Ends, Allowed, round-Ends}
use epyx.Parser.Gtt.{Grammar, GttParser, Round, again, returned, threw, crashed, round, run}

abbrev pub IsLast : Round → Type 0
IsLast (again s) = ⊥
IsLast _ = Unit

-- From a state, turns lead to a last one that ends with `r`.
pub data Runs (g : Grammar) (r : Round) : GttParser → Type 0 where
  last_turn : {s : GttParser} → round g s ≡ r → IsLast r → Runs g r s
  turn : {s s' : GttParser} → round g s ≡ again s' → Runs g r s' → Runs g r s

module _ (g : Grammar) where
  run_last :
      (fuel : ℕ) (s : GttParser) (r : Round) → IsLast r → round g s ≡ r → run g (suc fuel) s ≡ r
  unfolding run
  run_last fuel s (again s') l e = elim l [ ]
  run_last fuel s (returned p s') l e = rw (e, run)
  run_last fuel s (threw t s') l e = rw (e, run)
  run_last fuel s crashed l e = rw (e, run)

  run_turn :
      (fuel : ℕ) (s s' : GttParser) → round g s ≡ again s' → run g (suc fuel) s ≡ run g fuel s'
  unfolding run
  run_turn fuel s s' e = rw (e, run)

  abbrev Any : Thrown → Type 0
  Any t = Unit

  Allowed-Any : (o : Option Thrown) → Allowed Any o
  Allowed-Any none = tt
  Allowed-Any (some t) = tt

  -- A turn from a state that is ready ends well.
  pub Ends-round : (s : GttParser) → IsReady s → Ends Any (length s.buffer) (round g s)
  Ends-round s r =
      round-Ends g Any (λ l f. Allowed-Any _) (λ c l f. Allowed-Any _) s.datapos s refl r

  pub round_again :
      (s s' : GttParser)
      → IsReady s
      → round g s ≡ again s'
      → IsReady s' × (length s'.buffer < length s.buffer)
  round_again s s' h e = rw e at (Ends-round s h)

  -- A chain of turns can begin from any state with the same turn.
  pub Runs-same :
      (s s' : GttParser) → round g s ≡ round g s' → (r : Round) → Runs g r s' → Runs g r s
  Runs-same s s' e r (last_turn q l) = last_turn (e ∙ q) l
  Runs-same s s' e r (turn q next) = turn (e ∙ q) next

  -- Fuel above the length of the buffer is enough.
  pub run-Runs :
      {r : Round} {s : GttParser}
      → Runs g r s
      → IsReady s
      → (fuel : ℕ) → length s.buffer < fuel
      → run g fuel s ≡ r
  run-Runs (last_turn e l) i zero h = absurd (omega arith)
  run-Runs (turn e next) i zero h = absurd (omega arith)
  run-Runs {r} {s} (last_turn e l) i (suc fuel) h = run_last fuel s r l e
  run-Runs {r} {s} (turn {s' = s'} e next) i (suc fuel) h =
      let (i', d) = round_again s s' i e in
      run_turn fuel s s' e ∙ run-Runs next i' fuel (omega arith)

  -- The state that the chain leaves.
  abbrev pub Leaves : Round → Type 0
  Leaves (again s) = IsReady s
  Leaves (returned p s) = IsReady s
  Leaves (threw t s) = IsReady s
  Leaves crashed = ⊥

  Ends-Leaves : (n : ℕ) (r : Round) → Ends Any n r → Leaves r
  Ends-Leaves n (again s) h = h.0
  Ends-Leaves n (returned p s) h = h
  Ends-Leaves n (threw t s) h = h.0
  Ends-Leaves n crashed h = h

  pub Runs-Leaves : {r : Round} {s : GttParser} → Runs g r s → IsReady s → Leaves r
  Runs-Leaves {r} {s} (last_turn e l) i = Ends-Leaves _ r (rw e at (Ends-round s i))
  Runs-Leaves {r} {s} (turn {s' = s'} e next) i = Runs-Leaves next (round_again s s' i e).0

  Runs-turn :
      (s : GttParser)
      → IsReady s
      → (x : Round) → round g s ≡ x
      → ((s' : GttParser)
          → round g s ≡ again s'
          → length s'.buffer < length s.buffer
          → IsReady s'
          → (r : Round) × IsLast r × Runs g r s')
      → (r : Round) × IsLast r × Runs g r s
  Runs-turn s h (again s') e next =
      let (i, d) = round_again s s' h e in let (r, l, runs) = next s' e d i in (r, l, turn e runs)
  Runs-turn s h (returned p s') e next = (returned p s', tt, last_turn e tt)
  Runs-turn s h (threw t s') e next = (threw t s', tt, last_turn e tt)
  Runs-turn s h crashed e next = (crashed, tt, last_turn e tt)

  Runs-below :
      (n : ℕ) (s : GttParser)
      → length s.buffer < n
      → IsReady s
      → (r : Round) × IsLast r × Runs g r s
  Runs-below zero s b h = absurd (omega arith)
  Runs-below (suc n) s b h =
      Runs-turn s h (round g s) refl λ s' e d h'. Runs-below n s' (omega arith) h'

  -- From such a state the chain of turns has an end.
  pub Runs-total : (s : GttParser) → IsReady s → (r : Round) × IsLast r × Runs g r s
  Runs-total s h = Runs-below (suc (length s.buffer)) s (omega arith) h
