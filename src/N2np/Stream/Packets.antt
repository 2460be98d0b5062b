-- ===== src/N2np/Stream/Packets.antt =====
-- Lemmas on the loop run on the text of packets, one behind the other.
use epyx.Base.{◌≡◌, refl, sym, ap, ◌∙◌, List, [], ◌∷◌, ◌++◌, Option, none, some, Bytes, All}
use epyx.Parser.Line.{push}
use epyx.Parser.Packet.{GttPacket, build}
use epyx.Parser.Gtt.Idle.{IsIdle, get_packet-build_idle, get_packet_idle}
use epyx.Parser.Gtt.WellFormed.{IsWellFormed}
use epyx.Parser.Gtt.{GttParser, start_packet, reset, prepare}
use epyx.N2np.Stream.{eaten, recover, close, feed_all, eat_loop, eat_stream}
use epyx.N2np.Stream.Laws.{feed_some, feed_none}

unfoldable pub build_all : List GttPacket → Bytes
unfolding build
build_all [] = []
build_all (p ∷ ps) = build p ++ build_all ps

module _ {S F : Type 0} (handle : GttPacket → S → S × Option F) where
  abbrev and_then : (S → S × Option F) → S × Option F → S × Option F
  and_then go (s, none) = go s
  and_then go (s, some f) = (s, some f)

  -- Every packet is handled in turn, up to the first exception.
  unfoldable pub handle_all : List GttPacket → S → S × Option F
  handle_all [] s = (s, none)
  handle_all (p ∷ ps) s = and_then (handle_all ps) (handle p s)

  abbrev Fed : List GttPacket → GttParser → S → S → Type 0
  Fed ps q s t =
      (r : GttParser) × IsIdle r
      × (r.buffer ≡ [])
      × (feed_all handle (record q { buffer = build_all ps }) s ≡ eaten r t)

  feed-build_all :
      (ps : List GttPacket) (q : GttParser) (s t : S)
      → IsIdle q
      → All IsWellFormed ps
      → handle_all ps s ≡ (t, none)
      → Fed ps q s t
  unfolding build_all handle_all
  feed-build_all [] q s t i w e = (
    prepare (record q { buffer = [] }),
    record { start = i.start; pkt = i.pkt; fine = i.fine },
    refl,
    feed_none handle (record q { buffer = [] }) (prepare (record q { buffer = [] })) s
          (get_packet_idle q i)
        ∙ ap (eaten (prepare (record q { buffer = [] }))) (ap (λ x. x.0) e),
  )
  feed-build_all (p ∷ ps) q s t i w e =
      step (λ s' k. feed-build_all ps (start_packet q) s' t idle_again w.1 k) (handle p s) refl
    where
      idle_again : IsIdle (start_packet q)
      idle_again = record { start = refl; pkt = refl; fine = refl }

      step :
          ((s' : S) → handle_all ps s' ≡ (t, none) → Fed ps (start_packet q) s' t)
          → (r : S × Option F) → handle p s ≡ r
          → Fed (p ∷ ps) q s t
      step next (s', none) h =
          let (r, idle, empty, done) = next s' (ap (and_then (handle_all ps)) (sym h) ∙ e) in
          (
            r,
            idle,
            empty,
            feed_some handle (record q { buffer = build p ++ build_all ps })
                  (start_packet (record q { buffer = build_all ps })) p s s' tt
                  (get_packet-build_idle q p (build_all ps) i w.0) h
                ∙ done,
          )
      step next (s', some f) h = absurd (cc (ap (and_then (handle_all ps)) (sym h) ∙ e))

  recover_idle : (r : GttParser) → IsIdle r → recover r ≡ r
  recover_idle r i = ap (λ o. elim o [ none ↦ r | some e ↦ reset r ]) i.fine

  pub eat_stream-build_all :
      (ps : List GttPacket) (q : GttParser) (s t : S)
      → IsIdle q
      → q.buffer ≡ []
      → All IsWellFormed ps
      → handle_all ps s ≡ (t, none)
      → (r : GttParser) × IsIdle r
        × (r.buffer ≡ [])
        × (eat_stream handle (build_all ps) q s ≡ eaten r t)
  unfolding eat_stream eat_loop push
  eat_stream-build_all ps q s t i b w e =
      let (r, idle, empty, done) = feed-build_all ps q s t i w e in
      (
        r,
        idle,
        empty,
        ap (λ x. close (feed_all handle (record q { buffer = push x (build_all ps) }) s)) b
            ∙ ap close done
            ∙ ap (λ x. eaten x t) (recover_idle r idle),
      )
