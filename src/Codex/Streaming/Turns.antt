-- ===== src/Codex/Streaming/Turns.antt =====
-- The turn that is stored from a streamed answer (absorb and stream_response of proxy/codex.rs).
use subbier.Base.{
  ℕ, ◌≡◌, ◌∙◌, ◌⊎◌, inl, inr, refl, ap, sym, subst, true, false, Option, none, some, List, [], ◌∷◌,
  ◌++◌, map, All, All-of_Elem, Elem, here, there, Elem-map, Bool-cases,
}
use mathlib.Core.List.{append_assoc}
use subbier.Transcripts.{Store}
use subbier.Sse.{SseFramer, push, flush}
use subbier.Sse.Chunks.{push_all, received, list_of}
use subbier.Sse.Payload.{data_payload}
use subbier.Sse.Aggregate.{Aggregator, new_aggregator, is_done, consume, finish, and_then}
use subbier.Sse.Aggregate.Order.{consume_all, consume_all-append}
use subbier.Codex.Streaming.{
  Reader, StreamState, Turning, new_state, observe_response, observe, consumed, aggregate, absorb,
  remember_finished, finish_stream, stream_response,
}
use subbier.Codex.Streaming.Client.{chunks_of, absorb-framer}

module _ {J : Type 0} (r : Reader J) (t : Turning) (At : ℕ → Type 0) (before : Store) where
  -- The stream's state when the aggregator has come to `a`: the turn is stored once it is done.
  abbrev Kept : Aggregator J → StreamState J → Type 0
  Kept a s =
      ((is_done a ≡ false) × (s.aggregator ≡ some a) × (s.store ≡ before))
      ⊎ ((is_done a ≡ true)
          × (s.aggregator ≡ none)
          × ((now : ℕ) × At now
              × (s.store ≡ remember_finished r t now (finish r.json r.is_whitespace a) before)))

  observe_response-Kept :
      (o : Option J) (a : Aggregator J) (s : StreamState J)
      → Kept a s
      → Kept a (observe_response r t o s)
  observe_response-Kept none a s k = k
  observe_response-Kept (some response) a s (inl k) = inl k
  observe_response-Kept (some response) a s (inr k) = inr k

  consumed-Kept :
      (now : ℕ) (a : Aggregator J) (s : StreamState J)
      → At now
      → s.store ≡ before
      → Kept a (consumed r t now a s)
  consumed-Kept now a s n e = elim (Bool-cases (is_done a)) [
    | inl y ↦
        let c : consumed r t now a s ≡ record s {
          aggregator = none;
          store = remember_finished r t now (finish r.json r.is_whitespace a) s.store;
        } =
          rw y refl in
        subst (Kept a) (sym c) (
          inr
            (y, refl, (now, n, ap (remember_finished r t now (finish r.json r.is_whitespace a)) e)))
    | inr m ↦
        let c : consumed r t now a s ≡ record s { aggregator = some a } = rw m refl in
        subst (Kept a) (sym c) (inl (m, refl, e))
  ]

  aggregate-Kept :
      (now : ℕ) (frame : List ℕ) (a : Aggregator J) (s : StreamState J)
      → At now
      → Kept a s
      → Kept (consume r.json r.is_whitespace frame a) (aggregate r t now frame s.aggregator s)
  unfolding consume
  aggregate-Kept now frame a s n (inl k) =
      let b = consume r.json r.is_whitespace frame a in
      subst (λ o. Kept b (aggregate r t now frame o s)) (sym k.1) (consumed-Kept now b s n k.2)
  aggregate-Kept now frame a s n (inr k) =
      let b : consume r.json r.is_whitespace frame a ≡ a = rw k.0 refl in
      subst (λ c. Kept c (aggregate r t now frame s.aggregator s)) (sym b)
        (subst (λ o. Kept a (aggregate r t now frame o s)) (sym k.1) (inr k))

  absorb-Kept :
      (now : ℕ) (frames : List (List ℕ)) (a : Aggregator J) (s : StreamState J)
      → At now
      → Kept a s
      → Kept (consume_all r.json r.is_whitespace frames a) (absorb r t now frames s)
  unfolding absorb consume_all
  absorb-Kept now [] a s n k = k
  absorb-Kept now (frame ∷ frames) a s n k =
      let seen = observe r t frame s in
      let o =
        observe_response-Kept
          (and_then (and_then (data_payload r.is_whitespace frame) r.json.parse)
            (r.json.get "response"))
          a s k in
      absorb-Kept now frames (consume r.json r.is_whitespace frame a)
        (aggregate r t now frame seen.aggregator seen) n (aggregate-Kept now frame a seen n o)

  framed-Kept :
      (a : Aggregator J) (s : StreamState J) (framer : SseFramer)
      → Kept a s
      → Kept a (record s { framer = framer })
  framed-Kept a s framer (inl k) = inl k
  framed-Kept a s framer (inr k) = inr k

  ended-Kept :
      (end : ℕ) (a : Aggregator J) (s : StreamState J) (last : SseFramer × Option (List ℕ))
      → At end
      → Kept a s
      → Kept
          (consume_all r.json r.is_whitespace (list_of last.1) a)
          (finish_stream r t end last.1 (record s { framer = last.0 })).0
  unfolding consume_all
  ended-Kept end a s (framer, none) n k = framed-Kept a s framer k
  ended-Kept end a s (framer, some tail) n k =
      absorb-Kept end (tail ∷ []) a (record s { framer = framer }) n (framed-Kept a s framer k)

  -- The rest of a stream, from any state.
  stream_response-Kept :
      (end : ℕ) (chunks : List (ℕ × List ℕ)) (a : Aggregator J) (s : StreamState J)
      → At end
      → All (λ c. At c.0) chunks
      → Kept a s
      → let p = push_all r.decode (map (λ c. c.1) chunks) s.framer in
        Kept
          (consume_all r.json r.is_whitespace (p.1 ++ list_of (flush r.decode p.0).1) a)
          (stream_response r t end (chunks_of chunks) s).0
  unfolding stream_response push_all consume_all
  stream_response-Kept end [] a s n h k = ended-Kept end a s (flush r.decode s.framer) n k
  stream_response-Kept end (c ∷ chunks) a s n h k =
      let p = push r.decode c.1 s.framer in
      let start = record s { framer = p.0 } in
      let next = absorb r t c.0 p.1 start in
      let f : next.framer ≡ p.0 = absorb-framer r t c.0 p.1 start in
      let b = consume_all r.json r.is_whitespace p.1 a in
      let left : SseFramer → List (List ℕ) = λ x.
        let q = push_all r.decode (map (λ c. c.1) chunks) x in
        q.1 ++ list_of (flush r.decode q.0).1 in
      let i =
        stream_response-Kept end chunks b next n h.1
          (absorb-Kept c.0 p.1 a start h.0 (framed-Kept a s p.0 k)) in
      let q = push_all r.decode (map (λ c. c.1) chunks) p.0 in
      let e : consume_all r.json r.is_whitespace ((p.1 ++ q.1) ++ list_of (flush r.decode q.0).1) a
          ≡ consume_all r.json r.is_whitespace (left next.framer) b =
        ap (λ fs. consume_all r.json r.is_whitespace fs a)
          (append_assoc p.1 q.1 (list_of (flush r.decode q.0).1))
        ∙ consume_all-append r.json r.is_whitespace p.1 (left p.0) a
        ∙ ap (λ x. consume_all r.json r.is_whitespace (left x) b) (sym f) in
      subst (λ x. Kept x (stream_response r t end (chunks_of chunks) next).0) (sym e) i

module _ {J : Type 0} (r : Reader J) (t : Turning) where
  -- A stream that ends, not broken off, stores what the aggregator makes of all its frames, the
  -- unterminated one at its end included: if no terminal response is among them the store is as
  -- before, and otherwise the turn of that response has been remembered once, at the time of one of
  -- the chunks or of the end. It does so whether or not there is an id to put back.
  pub stream_response-turn :
      (end : ℕ) (chunks : List (ℕ × List ℕ)) (store : Store)
      → let a =
          consume_all r.json r.is_whitespace
            (received r.decode (map (λ c. c.1) chunks))
            new_aggregator in
        let after = (stream_response r t end (chunks_of chunks) (new_state r t store)).0 in
        ((is_done a ≡ false) × (after.store ≡ store))
        ⊎ ((is_done a ≡ true)
            × ((now : ℕ) × Elem now (end ∷ map (λ c. c.0) chunks)
                × (after.store
                    ≡ remember_finished r t now (finish r.json r.is_whitespace a) store)))
  unfolding received
  stream_response-turn end chunks store =
      let times = end ∷ map (λ (c : ℕ × List ℕ). c.0) chunks in
      let h : All (λ (c : ℕ × List ℕ). Elem c.0 times) chunks =
        All-of_Elem (λ (c : ℕ × List ℕ). Elem c.0 times) chunks
          (λ c e. there (Elem-map (λ c. c.0) c chunks e)) in
      elim (stream_response-Kept r t (λ now. Elem now times) store end chunks new_aggregator
        (new_state r t store) (here refl) h (inl (refl, refl, refl))) [
          | inl k ↦ inl (k.0, k.2)
          | inr k ↦ inr (k.0, k.2)
        ]
