-- ===== src/Dht/Packet/Malformed.antt =====
-- Packets from which no message can be made.
use mathlib.Core.Bool.{true≢false}
use epyx.Base.{
  ℕ, ◌≡◌, ◌↔◌, sym, not, ◌&&◌, ◌||◌, Bool-cases, Option-cases, refl, ap, ◌∙◌, Bool, true, false,
  List, [], ◌∷◌, Option, none, some, inl, inr, ◌==◌, if◌then◌else◌, length, Bytes, codes,
}
use epyx.Base.Dict.{bytes_order}
use epyx.Parser.Packet.{GttPacket}
use epyx.Dht.Packet.{
  DhtPacket, DhtMethod, m_ping, m_pong, m_get, m_got, m_find, m_found, m_store, m_stored, then_made,
  Made, made, thrown, terminated, lacks, connectionid, from_gtt, fill, read_dht_method,
}

-- The headers that a message of each method must have.
abbrev pub required : DhtMethod → List Bytes
required m_ping = []
required m_pong = []
required m_get = connectionid ∷ codes "key" ∷ []
required m_store = connectionid ∷ codes "key" ∷ []
required m_got = connectionid ∷ codes "status" ∷ []
required m_stored = connectionid ∷ codes "status" ∷ []
required m_find = connectionid ∷ codes "count" ∷ codes "target" ∷ []
required m_found = connectionid ∷ codes "count" ∷ codes "status" ∷ []

abbrev has_all : List Bytes → GttPacket → Bool
has_all [] pkt = true
has_all (k ∷ ks) pkt = not (lacks k pkt) && has_all ks pkt

-- A FOUND must have a body too.
abbrev has_body : DhtMethod → GttPacket → Bool
has_body m_found pkt = not (length pkt.body == 0)
has_body _ pkt = true

abbrev complete_for : Option DhtMethod → GttPacket → Bool
complete_for none pkt = false
complete_for (some m) pkt = has_all (required m) pkt && has_body m pkt

abbrev pub complete : GttPacket → Bool
complete pkt = not (lacks (codes "from") pkt) && complete_for (read_dht_method pkt.method) pkt

abbrev Ends : Made → Bool → Type 0
Ends r c = (r ≡ terminated) ↔ (c ≡ false)

ended : Ends terminated false
ended = (λ e. refl, λ e. refl)

-- The code for the exits: a message or an exception is not the end of the program.
abbrev survives : Made → Bool
survives (made p) = true
survives thrown = true
survives terminated = false

goes_on : (r : Made) → survives r ≡ true → Ends r true
goes_on r h = (λ e. absurd (true≢false (sym h ∙ ap survives e)), λ e. absurd (true≢false e))

then_made-survives : (o : Option DhtPacket) → survives (then_made o) ≡ true
then_made-survives none = refl
then_made-survives (some p) = refl

guarded :
    (b c : Bool) (o : Option DhtPacket) → c ≡ not b → Ends (if b then terminated else then_made o) c
guarded true c o e = rw e ended
guarded false c o e = rw e (goes_on (then_made o) (then_made-survives o))

two : (a b : Bool) → ((not a && (not b && true)) && true) ≡ not (a || b)
two true b = refl
two false true = refl
two false false = refl

three : (a b c : Bool) → ((not a && (not b && (not c && true))) && true) ≡ not (a || b || c)
three true b c = refl
three false true c = refl
three false false true = refl
three false false false = refl

four : (a b c d : Bool) → ((not a && (not b && (not c && true))) && not d) ≡ not (a || b || c || d)
four true b c d = refl
four false true c d = refl
four false false true d = refl
four false false false true = refl
four false false false false = refl

module _ (simplify : ℕ → Bytes → Bytes) (pkt : GttPacket) where
  abbrev no : Bytes → Bool
  no k = lacks k pkt

  fill-Ends :
      (m : DhtMethod) (p : DhtPacket) → Ends (fill simplify m pkt p) (complete_for (some m) pkt)
  unfolding fill
  fill-Ends m_ping p = goes_on (made p) refl
  fill-Ends m_pong p = goes_on (made p) refl
  fill-Ends m_get p = guarded _ _ _ (two (no connectionid) (no (codes "key")))
  fill-Ends m_store p = guarded _ _ _ (two (no connectionid) (no (codes "key")))
  fill-Ends m_got p = guarded _ _ _ (two (no connectionid) (no (codes "status")))
  fill-Ends m_stored p = guarded _ _ _ (two (no connectionid) (no (codes "status")))
  fill-Ends m_find p =
      guarded _ _ _ (three (no connectionid) (no (codes "count")) (no (codes "target")))
  fill-Ends m_found p =
      guarded _ _ _
        (four (no connectionid) (no (codes "count")) (no (codes "status")) (length pkt.body == 0))

-- The constructor of a message ends the program, by a `throw;` with no exception to throw again,
-- exactly for the packets without sender, with an unknown method, without a header that the method
-- requires, or with method FOUND and an empty body.
pub from_gtt_terminated :
    (simplify : ℕ → Bytes → Bytes) (raw : DhtPacket) (pkt : GttPacket)
    → (from_gtt simplify raw pkt ≡ terminated) ↔ (complete pkt ≡ false)
unfolding from_gtt
from_gtt_terminated simplify raw pkt = elim (Bool-cases (lacks (codes "from") pkt)) [
  | inl t ↦ rw (t, from_gtt) ended
  | inr f ↦ elim (Option-cases (read_dht_method pkt.method)) [
    | inl e ↦ rw (f, e, from_gtt) ended
    | inr (m, e) ↦ rw (f, e, from_gtt) (fill-Ends simplify pkt m _)
  ]
]
