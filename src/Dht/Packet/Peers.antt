-- ===== src/Dht/Packet/Peers.antt =====
-- A list of peers written and read back.
use epyx.Base.{
  ℕ, ◌<◌, ◌^◌, ◌≡◌, refl, ap, ◌∙◌, List, [], ◌∷◌, ◌++◌, append_assoc, some, map, arith, length, All,
  Bytes,
}
use epyx.Net.Address.RoundTrip.{Without, IsIpv4}
use epyx.N2np.NodeId.{parse_node, print_node}
use epyx.N2np.NodeId.Laws.{parse_node-print_node}
use epyx.Dht.Id
use epyx.Dht.Id.{IsId}
use epyx.Dht.Id.Text.{read-print}
use epyx.Dht.KBucket.{Peer}
use epyx.Dht.Packet.{take_until, serialize, unserialize, unserialize_at, make_peer, read_peers}
use epyx.Dht.Packet.ToGtt.{serialize_all}

take_until-append :
    (d : ℕ) (s rest : Bytes) → Without d s → take_until d (s ++ d ∷ rest) ≡ (s, d ∷ rest)
unfolding take_until
take_until-append d [] rest h = ground arith
take_until-append d (c ∷ s) rest h = rw (h.0, take_until-append d s rest h.1)

-- A peer whose text can be read back: an address text without the delimiter, a name without `@`.
pub record IsPrintable (simplify : ℕ → Bytes → Bytes) (p : Peer) : Type 0 where
  pub id : IsId p.id
  pub name : Without b'@' p.n2np_id.name
  pub relay : IsIpv4 simplify p.n2np_id.relay.ip
  pub port : p.n2np_id.relay.port < 2 ^ 16
  pub no_delimiter : Without b'%' (print_node p.n2np_id)

-- What is read back: the time is not sent.
abbrev pub forgotten : Peer → Peer
forgotten p = record p { last_receive_time = 0 }

module _ (simplify : ℕ → Bytes → Bytes) where
  unserialize-serialize :
      (p : Peer) (rest : Bytes)
      → IsPrintable simplify p
      → unserialize simplify (serialize p ++ rest) ≡ some (forgotten p, rest)
  unfolding unserialize unserialize_at serialize
  unserialize-serialize p rest h =
      ap (unserialize simplify) (append_assoc (print_node p.n2np_id) (b'%' ∷ Id.print p.id) rest)
      ∙ ap (unserialize_at simplify)
          (take_until-append b'%' (print_node p.n2np_id) (Id.print p.id ++ rest) h.no_delimiter)
      ∙ ap (λ r. make_peer simplify (parse_node simplify (print_node p.n2np_id)) r)
          (read-print p.id rest h.id)
      ∙ ap (λ n. make_peer simplify n (p.id, rest))
          (parse_node-print_node simplify p.n2np_id h.name h.relay h.port)

  pub read_peers-serialize_all :
      (ps : List Peer)
      → All (IsPrintable simplify) ps
      → read_peers simplify (length ps) (serialize_all ps) ≡ some (map forgotten ps)
  unfolding read_peers serialize_all
  read_peers-serialize_all [] h = refl
  read_peers-serialize_all (p ∷ ps) h =
      rw (
        unserialize-serialize p (serialize_all ps) h.0,
        read_peers,
        read_peers-serialize_all ps h.1,
      )
