-- ===== src/N2np/Stream/Laws.antt =====
-- Lemmas on the loop that reads packets off a connection.
use epyx.Base.{
  ℕ, zero, suc, ◌+◌, ◌<◌, ◌≡◌, refl, sym, ap, ◌∙◌, [], ◌∷◌, ◌++◌, append_assoc, Option, none, some,
  inl, inr, arith, length, Bytes, Option-cases,
}
use epyx.Parser.Line.{push}
use epyx.Parser.Packet.{GttPacket}
use epyx.Parser.Gtt.Total.{IsReady, get_packet_total}
use epyx.Parser.Gtt.Chunks.{get_packet-eat}
use epyx.Parser.Gtt.Shorter.{weight, get_packet_lighter}
use epyx.Parser.Gtt.{GttParser, gtt_grammar, returned, get_packet, eat}
use epyx.N2np.Stream.{
  Eaten, eaten, raised, broken, unending, recover, close, next_turn, feed, feed_all, eat_loop,
  eat_stream,
}

recover-IsReady : (p : GttParser) → IsReady p → IsReady (recover p)
recover-IsReady p h = elim (Option-cases p.error_message) [
  | inl fine ↦ rw (fine, recover) h
  | inr (e, bad) ↦ rw (bad, recover) tt
]

weight-le : (p : GttParser) → weight p < suc (suc (length p.buffer))
weight-le p = ground arith

push-append : (c a b : Bytes) → push c (a ++ b) ≡ push (push c a) b
unfolding push
push-append [] [] b = refl
push-append [] (x ∷ a) b = refl
push-append (c ∷ cs) a b = sym (append_assoc (c ∷ cs) a b)

module _ {S F : Type 0} (handle : GttPacket → S → S × Option F) where
  -- The loop has ended, and left the parser fit for more.
  abbrev pub Ended : Eaten S F → Type 0
  Ended (eaten p s) = IsReady p
  Ended (raised f p s) = IsReady p
  Ended broken = ⊥
  Ended unending = ⊥

  next_turn-Ended :
      (go : S → Eaten S F) (p : GttParser) (r : S × Option F)
      → ((s : S) → Ended (go s))
      → IsReady p
      → Ended (next_turn handle go p r)
  unfolding next_turn
  next_turn-Ended go p (s, none) h i = h s
  next_turn-Ended go p (s, some f) h i = i

  feed-Ended :
      (fuel : ℕ) (p : GttParser) (s : S)
      → weight p < fuel
      → IsReady p
      → Ended (feed handle fuel p s)
  unfolding feed
  feed-Ended zero p s h i = absurd (omega arith)
  feed-Ended (suc fuel) p s h i = step (feed-Ended fuel) (get_packet_total p i)
    where
      step :
          ((q : GttParser) (t : S) → weight q < fuel → IsReady q → Ended (feed handle fuel q t))
          → (o : Option GttPacket) × (q : GttParser) × (get_packet gtt_grammar p ≡ returned o q)
            × IsReady q
          → Ended (feed handle (suc fuel) p s)
      step next (none, q, e, r) = rw (e, feed) r
      step next (some k, q, e, r) =
          rw (e, feed)
            (next_turn-Ended (feed handle fuel q) q (handle k s)
              (λ t. next q t (omega (arith, (get_packet_lighter gtt_grammar p q k e).0)) r) r)

  feed_all-Ended : (p : GttParser) (s : S) → IsReady p → Ended (feed_all handle p s)
  unfolding feed_all
  feed_all-Ended p s i = feed-Ended (suc (suc (length p.buffer))) p s (weight-le p) i

  close-Ended : (x : Eaten S F) → Ended x → Ended (close x)
  close-Ended (eaten p s) h = recover-IsReady p h
  close-Ended (raised f p s) h = h
  close-Ended broken h = h
  close-Ended unending h = h

  -- From every parser that has a packet where its position needs one, `eat` returns, or ends by an
  -- exception of the handling of a packet, and leaves such a parser either way; its loop makes at
  -- most as many turns as the buffer has bytes, and two.
  pub eat_stream-Ended :
      (fresh : Bytes) (p : GttParser) (s : S) → IsReady p → Ended (eat_stream handle fresh p s)
  unfolding eat_stream eat_loop
  eat_stream-Ended fresh p s i = close-Ended _ (feed_all-Ended (eat p fresh) s i)

  -- Fuel above the weight of the parser is as good as any.
  feed_enough :
      (m n : ℕ) (p : GttParser) (s : S)
      → weight p < m
      → weight p < n
      → IsReady p
      → feed handle m p s ≡ feed handle n p s
  unfolding feed next_turn
  feed_enough zero n p s h k i = absurd (omega arith)
  feed_enough (suc m) zero p s h k i = absurd (omega arith)
  feed_enough (suc m) (suc n) p s h k i = step (feed_enough m n) (get_packet_total p i)
    where
      turn :
          (q : GttParser) (r : S × Option F)
          → ((t : S) → feed handle m q t ≡ feed handle n q t)
          → next_turn handle (feed handle m q) q r ≡ next_turn handle (feed handle n q) q r
      turn q (t, none) h = h t
      turn q (t, some f) h = refl

      step :
          ((q : GttParser) (t : S)
            → weight q < m
            → weight q < n
            → IsReady q
            → feed handle m q t ≡ feed handle n q t)
          → (o : Option GttPacket) × (q : GttParser) × (get_packet gtt_grammar p ≡ returned o q)
            × IsReady q
          → feed handle (suc m) p s ≡ feed handle (suc n) p s
      step next (none, q, e, r) = rw (e, feed)
      step next (some c, q, e, r) =
          let l = (get_packet_lighter gtt_grammar p q c e).0 in
          rw (e, feed) (turn q (handle c s) (λ t. next q t (omega arith) (omega arith) r))

  eaten_parts :
      {a b : GttParser} {x y : S} → ◌≡◌ {A = Eaten S F} (eaten a x) (eaten b y) → (a ≡ b) × (x ≡ y)
  eaten_parts h = (cc h, cc h)

  abbrev Resumed : Bytes → GttParser → S → GttParser → S → Type 0
  Resumed fresh p s q t = feed_all handle (eat p fresh) s ≡ feed_all handle (eat q fresh) t

  -- The same first packet, or none yet, gives the same loop.
  pub feed_same :
      (p q : GttParser) (s : S)
      → IsReady p
      → IsReady q
      → get_packet gtt_grammar p ≡ get_packet gtt_grammar q
      → feed_all handle p s ≡ feed_all handle q s
  unfolding feed_all
  feed_same p q s i j e =
      let m = suc (weight p + weight q) in
      feed_enough (suc (suc (length p.buffer))) m p s (weight-le p) (omega arith) i
      ∙ unfold feed in
        rw (e, feed) (feed_enough m (suc (suc (length q.buffer))) q s (omega arith) (weight-le q) j)

  feed_turn :
      (fuel : ℕ) (p q : GttParser) (c : GttPacket) (s : S)
      → get_packet gtt_grammar p ≡ returned (some c) q
      → feed handle (suc fuel) p s ≡ next_turn handle (feed handle fuel q) q (handle c s)
  unfolding feed
  feed_turn fuel p q c s e = rw (e, feed)

  pub feed_none :
      (p q : GttParser) (s : S)
      → get_packet gtt_grammar p ≡ returned none q
      → feed_all handle p s ≡ eaten q s
  unfolding feed_all
  feed_none p q s e = rw (e, feed)

  -- The loop after a packet that was handled.
  pub feed_some :
      (p q : GttParser) (c : GttPacket) (s t : S)
      → IsReady q
      → get_packet gtt_grammar p ≡ returned (some c) q
      → handle c s ≡ (t, none)
      → feed_all handle p s ≡ feed_all handle q t
  unfolding feed_all next_turn
  feed_some p q c s t j e h =
      let l = (get_packet_lighter gtt_grammar p q c e).0 in
      feed_turn (suc (length p.buffer)) p q c s e
      ∙ ap (next_turn handle (feed handle (suc (length p.buffer)) q) q) h
      ∙ feed_enough (suc (length p.buffer)) (suc (suc (length q.buffer))) q t (ground arith)
          (weight-le q) j

  pub feed_raised :
      (p q : GttParser) (c : GttPacket) (s t : S) (f : F)
      → get_packet gtt_grammar p ≡ returned (some c) q
      → handle c s ≡ (t, some f)
      → feed_all handle p s ≡ raised f q t
  unfolding feed_all next_turn
  feed_raised p q c s t f e h =
      feed_turn (suc (length p.buffer)) p q c s e
      ∙ ap (next_turn handle (feed handle (suc (length p.buffer)) q) q) h

  -- By induction on the weight: the packets of the first reading come first, then the rest.
  feed-eat :
      (n : ℕ) (fresh : Bytes) (p p' : GttParser) (s s' : S)
      → weight p < n
      → IsReady p
      → feed_all handle p s ≡ eaten p' s'
      → p'.error_message ≡ none
      → Resumed fresh p s p' s'
  feed-eat zero fresh p p' s s' w i e ok = absurd (omega arith)
  feed-eat (suc n) fresh p p' s s' w i e ok = step (feed-eat n fresh) (get_packet_total p i)
    where
      handled :
          (q : GttParser) (c : GttPacket) (r : S × Option F)
          → handle c s ≡ r
          → get_packet gtt_grammar p ≡ returned (some c) q
          → IsReady q
          → ((t : S) → feed_all handle q t ≡ eaten p' s' → Resumed fresh q t p' s')
          → Resumed fresh p s p' s'
      handled q c (t, none) h g j next =
          let clean = (get_packet_lighter gtt_grammar p q c g).1 in
          feed_some (eat p fresh) (eat q fresh) c s t j
            (get_packet-eat gtt_grammar fresh p q (some c) i g clean) h
          ∙ next t (sym (feed_some p q c s t j g h) ∙ e)
      handled q c (t, some f) h g j next =
          let no : ◌≡◌ {A = Eaten S F} (raised f q t) (eaten p' s') =
            sym (feed_raised p q c s t f g h) ∙ e in
          absurd (cc no)

      step :
          ((q q' : GttParser) (t t' : S)
            → weight q < n
            → IsReady q
            → feed_all handle q t ≡ eaten q' t'
            → q'.error_message ≡ none
            → Resumed fresh q t q' t')
          → (o : Option GttPacket) × (q : GttParser) × (get_packet gtt_grammar p ≡ returned o q)
            × IsReady q
          → Resumed fresh p s p' s'
      step next (none, q, g, j) =
          let same = eaten_parts (sym (feed_none p q s g) ∙ e) in
          let ok' : q.error_message ≡ none = ap (λ x. x.error_message) (same.0) ∙ ok in
          feed_same (eat p fresh) (eat q fresh) s i j
            (get_packet-eat gtt_grammar fresh p q none i g ok')
          ∙ ap (λ x. feed_all handle (eat x fresh) s) (same.0)
          ∙ ap (λ x. feed_all handle (eat p' fresh) x) (same.1)
      step next (some c, q, g, j) =
          let l = (get_packet_lighter gtt_grammar p q c g).0 in
          handled q c (handle c s) refl g j (λ t k. next q p' t s' (omega arith) j k ok)

  -- From a parser that has a packet where its position needs one: where the loop of `eat` has read
  -- the bytes a, threw nothing and has no parser error, reading the bytes b then ends as reading a
  -- and b in one piece does: with the same packets handled in the same order, and the same parser.
  pub eat_stream_segments :
      (a b : Bytes) (p p' : GttParser) (s s' : S)
      → IsReady p
      → eat_loop handle a p s ≡ eaten p' s'
      → p'.error_message ≡ none
      → eat_stream handle (a ++ b) p s ≡ eat_stream handle b p' s'
  unfolding eat_stream eat_loop
  eat_stream_segments a b p p' s s' i e ok = ap close (
      ap (λ x. feed_all handle (record p { buffer = x }) s) (push-append p.buffer a b)
      ∙ feed-eat (suc (weight (eat p a))) b (eat p a) p' s s' (omega arith) i e ok)
