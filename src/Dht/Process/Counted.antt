-- ===== src/Dht/Process/Counted.antt =====
-- How often an answer or a timeout gets through to the actor.
use epyx.Base.{ℕ, ◌≡◌, true, false, none, some, arith}
use epyx.Base.Dict
use epyx.Base.Dict.{Dict, nat_order, find-set}
use epyx.Base.Int.{pos}
use epyx.Dht.Process.{Scene, settle, process_receive, process_receive_at, process_timeout}

settled : (id : ℕ) (s : Scene) → Dict.find id (settle id s).queries ≡ some false
unfolding settle
settled id s = ground (arith, find-set id id false s.queries)

settle_then_receive : (id : ℕ) (s : Scene) → process_receive (pos id) (settle id s) ≡ none
unfolding process_receive process_receive_at
settle_then_receive id s = rw (settled id s, process_receive_at)

settle_then_timeout :
    (id : ℕ) (s : Scene) → process_timeout id (settle id s) ≡ some (settle id (settle id s))
unfolding process_timeout
settle_then_timeout id s = rw (settled id s, process_timeout)

-- Where a query waits, the first answer to it, or its timeout, gets through to the actor; after
-- that no answer to it does, but its timeout still does, although the query was answered.
pub process_counts :
    (id : ℕ) (s : Scene)
    → Dict.find id s.queries ≡ some true
    → (process_receive (pos id) s ≡ some (settle id s))
      × (process_timeout id s ≡ some (settle id s))
      × (process_receive (pos id) (settle id s) ≡ none)
      × (process_timeout id (settle id s) ≡ some (settle id (settle id s)))
unfolding process_receive process_receive_at process_timeout
process_counts id s e = (
  rw (e, process_receive_at),
  rw (e, process_timeout),
  settle_then_receive id s,
  settle_then_timeout id s,
)
