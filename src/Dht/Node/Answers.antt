-- ===== src/Dht/Node/Answers.antt =====
-- The answers of the static actors.
use epyx.Base.{
  ℕ, suc, Bool, true, Option, ◌≡◌, refl, sym, ap, ◌∙◌, false, List, [], ◌∷◌, none, some, arith,
  ◌==◌, if◌then◌else◌, Bool-cases, inl, inr, length, bytes_eq,
}
use epyx.Base.Dict.{bytes_order, find-set}
use epyx.Base.Int.{pos}
use epyx.Dht.Id.{DhtId}
use epyx.Dht.KBucket.Nearest.{candidates}
use epyx.Dht.KBucket.{
  Peer, Bucket, KBucket, find_nearest_nodes, scan_buckets, scan_bucket, consider, drop_farthest,
}
use epyx.Dht.Node.{
  InternalNode, get, set, treat_get, treat_store, treat_find, answer_to, answer_found,
  to_unsigned_long, Posted, to_process,
}
use epyx.Dht.Packet.{
  DhtPacket, DhtMethod, m_ping, m_pong, m_get, m_got, m_find, m_found, m_store, m_stored,
}

-- A GET treated after a STORE is answered, under its own connection id, by status 0 and the value
-- stored where it asks for that key, and else by what it would have been answered before the STORE.
pub get_after_store :
    (raw mem p q : DhtPacket) (n : InternalNode)
    → treat_get raw q (treat_store mem p n).0 ≡ (
        if bytes_eq p.key q.key
        then record (answer_to raw q m_got (pos 0)) { value = p.value }
        else treat_get raw q n)
unfolding treat_store treat_get get set
get_after_store raw mem p q n = elim (Bool-cases (bytes_eq p.key q.key)) [
  | inl t ↦ rw (find-set p.key q.key p.value n.storage.data_of, treat_get, t)
  | inr f ↦ rw (find-set p.key q.key p.value n.storage.data_of, treat_get, f)
]

suc_not_zero : (n : ℕ) → (suc n == 0) ≡ false
suc_not_zero n = ground arith

scan_bucket_zero : (id : DhtId) (p : Peer) (b : Bucket) → scan_bucket id 0 (p ∷ b) [] ≡ none
unfolding scan_bucket consider drop_farthest
scan_bucket_zero id p b = refl

scan_zero :
    (id : DhtId) (bs : List Bucket)
    → scan_buckets id 0 bs [] ≡ (if length (candidates id bs) == 0 then some [] else none)
unfolding scan_buckets scan_bucket
scan_zero id [] = refl
scan_zero id ([] ∷ bs) = scan_zero id bs
scan_zero id ((p ∷ b) ∷ bs) =
    ap (λ t. if t then some [] else none) (sym (suc_not_zero (length (candidates id (b ∷ bs)))))

zero_search :
    (id : DhtId) (k : KBucket)
    → find_nearest_nodes id 0 k ≡ (if length (candidates id k.buckets) == 0 then some [] else none)
unfolding find_nearest_nodes
zero_search id k = elim (Bool-cases (length (candidates id k.buckets) == 0)) [
  | inl t ↦ rw (scan_zero id k.buckets, find_nearest_nodes, t)
  | inr f ↦ rw (scan_zero id k.buckets, find_nearest_nodes, f)
]

-- A FIND with the count 0 reads the top of an empty queue, which is undefined, where the routing
-- table has a peer; where it has none it is answered by the empty list.
pub treat_find_zero :
    (raw pkt : DhtPacket) (n : InternalNode)
    → pkt.count ≡ pos 0
    → treat_find raw pkt n ≡ (
        if length (candidates pkt.id_to_find n.kbucket.buckets) == 0
        then some (record (answer_to raw pkt m_found (pos 0)) { found_peers = some [] })
        else none)
unfolding treat_find
treat_find_zero raw pkt n e =
    let id = pkt.id_to_find in
    let k = n.kbucket in
    ap (λ c. answer_found raw pkt (find_nearest_nodes id (to_unsigned_long c) k)) e
    ∙ ap (answer_found raw pkt) (zero_search id k)
    ∙ elim (Bool-cases (length (candidates id k.buckets) == 0)) [ inl t ↦ rw t | inr f ↦ rw f ]

-- Which method answers which.
abbrev pub reply_method : DhtMethod → Option DhtMethod
reply_method m_ping = some m_pong
reply_method m_get = some m_got
reply_method m_store = some m_stored
reply_method m_find = some m_found
reply_method _ = none

-- The answers to queries of this node.
abbrev pub is_answer : DhtMethod → Bool
is_answer m_got = true
is_answer m_stored = true
is_answer m_found = true
is_answer _ = false

abbrev pub method_of : Option DhtPacket → Option DhtMethod
method_of none = none
method_of (some pkt) = some pkt.method

abbrev pub process_of : Posted → Option ℕ
process_of (to_process actor) = some actor
process_of _ = none
