-- ===== src/Codex/Streaming/Client.antt =====
-- What the client of a streamed conversation reads (stream_response of proxy/codex.rs).
use subbier.Base.{
  ℕ, ◌≡◌, ◌∙◌, refl, ap, sym, Bool, true, false, Option, none, some, List, [], ◌∷◌, ◌++◌, map,
  codes, All,
}
use mathlib.Core.List.{flatten, append_assoc}
use subbier.Transcripts.{Store}
use subbier.Sse.{scan, push, flush}
use subbier.Sse.Chunks.{push_all, push_all-new_framer, received}
use subbier.Sse.Payload.{data_payload, split_lines}
use subbier.Sse.Payload.Events.{
  NoBreak, NoReturn, IsPayload, Event, Carries, stream_of, received-stream_of, data_payload-data,
  scan-stream_of, IsWhole-NoReturn, stream_of-NoReturn, split_from-NoBreak,
}
use subbier.Sse.Aggregate.{Aggregator, is_done, consume, and_then}
use subbier.Sse.Rewrite.{replace_lines, join, object_of, with_id}
use subbier.Codex.Streaming.{
  Reader, StreamState, Turning, Read, chunk, Yield, sent, cut_off, new_state, observe_response,
  observe, consumed, aggregate, absorb, rewritten, text_of, forward, stream_response,
}

-- A text is encoded piece by piece, and a line feed is its own byte.
pub record IsEncoding (encode : List ℕ → List ℕ) : Type 0 where
  pub nothing : encode [] ≡ []
  pub append : (a b : List ℕ) → encode (a ++ b) ≡ encode a ++ encode b
  pub blank : encode (10 ∷ 10 ∷ []) ≡ 10 ∷ 10 ∷ []

abbrev pub bytes_of : List Yield → List ℕ
bytes_of [] = []
bytes_of (sent bytes ∷ ys) = bytes ++ bytes_of ys
bytes_of (cut_off ∷ ys) = bytes_of ys

abbrev pub chunks_of : List (ℕ × List ℕ) → List Read
chunks_of = map (λ c. chunk c.0 c.1)

abbrev pub turning : List ℕ → ℕ → List ℕ → Turning
turning id sub delta = record { rewrite = some id; sub = sub; delta = delta }

module _ {J : Type 0} (r : Reader J) (t : Turning) where
  consumed-framer :
      (now : ℕ) (a : Aggregator J) (s : StreamState J) → (consumed r t now a s).framer ≡ s.framer
  consumed-framer now a s = on (is_done a) refl
    where
      on : (b : Bool) → is_done a ≡ b → (consumed r t now a s).framer ≡ s.framer
      on true e = rw e refl
      on false e = rw e refl

  aggregate-framer :
      (now : ℕ) (frame : List ℕ) (a : Option (Aggregator J)) (s : StreamState J)
      → (aggregate r t now frame a s).framer ≡ s.framer
  aggregate-framer now frame none s = refl
  aggregate-framer now frame (some a) s =
      consumed-framer now (consume r.json r.is_whitespace frame a) s

  observe_response-framer :
      (o : Option J) (s : StreamState J) → (observe_response r t o s).framer ≡ s.framer
  observe_response-framer none s = refl
  observe_response-framer (some response) s = refl

  pub absorb-framer :
      (now : ℕ) (frames : List (List ℕ)) (s : StreamState J)
      → (absorb r t now frames s).framer ≡ s.framer
  unfolding absorb
  absorb-framer now [] s = refl
  absorb-framer now (frame ∷ frames) s =
      let seen = observe r t frame s in
      absorb-framer now frames (aggregate r t now frame seen.aggregator seen)
      ∙ aggregate-framer now frame seen.aggregator seen
      ∙ observe_response-framer
          (and_then (and_then (data_payload r.is_whitespace frame) r.json.parse)
            (r.json.get "response"))
          s

module _ {J : Type 0} (r : Reader J) (id : List ℕ) (encoding : IsEncoding r.encode) where
  text_of-append : (a b : List (List ℕ)) → text_of r id (a ++ b) ≡ text_of r id a ++ text_of r id b
  text_of-append [] b = refl
  text_of-append (frame ∷ a) b =
      rw (text_of-append a b)
        (sym (append_assoc (rewritten r id frame) (10 ∷ 10 ∷ text_of r id a) (text_of r id b)))

  forward-bytes :
      (bytes : List ℕ) (frames : List (List ℕ)) (ys : List Yield)
      → bytes_of (forward r (some id) bytes frames ++ ys)
        ≡ r.encode (text_of r id frames) ++ bytes_of ys
  forward-bytes bytes [] ys = rw encoding.nothing refl
  forward-bytes bytes (frame ∷ frames) ys = refl

  -- The frames that are complete, rewritten, when nothing is left at the end.
  stream_response-bytes :
      (sub : ℕ) (delta : List ℕ) (end : ℕ) (chunks : List (ℕ × List ℕ)) (s : StreamState J)
      → (push_all r.decode (map (λ c. c.1) chunks) s.framer).0.buf ≡ []
      → bytes_of (stream_response r (turning id sub delta) end (chunks_of chunks) s).1
        ≡ r.encode (text_of r id (push_all r.decode (map (λ c. c.1) chunks) s.framer).1)
  unfolding stream_response push_all flush
  stream_response-bytes sub delta end [] s h = rw h (sym encoding.nothing)
  stream_response-bytes sub delta end (c ∷ chunks) s h =
      let t = turning id sub delta in
      let p = push r.decode c.1 s.framer in
      let next = absorb r t c.0 p.1 (record s { framer = p.0 }) in
      let f : next.framer ≡ p.0 = absorb-framer r t c.0 p.1 (record s { framer = p.0 }) in
      let left : (push_all r.decode (map (λ c. c.1) chunks) next.framer).0.buf ≡ [] = rw f h in
      let rest = push_all r.decode (map (λ c. c.1) chunks) p.0 in
      forward-bytes c.1 p.1 (stream_response r t end (chunks_of chunks) next).1
      ∙ ap (λ b. r.encode (text_of r id p.1) ++ b)
          (stream_response-bytes sub delta end chunks next left)
      ∙ ap
          (λ f.
            r.encode (text_of r id p.1)
            ++ r.encode (text_of r id (push_all r.decode (map (λ c. c.1) chunks) f).1))
          f
      ∙ sym (encoding.append (text_of r id p.1) (text_of r id rest.1))
      ∙ sym (ap r.encode (text_of-append p.1 rest.1))

-- A frame from upstream with its payload, the event in it and the event's response.
pub record Upstream (J : Type 0) : Type 0 where
  pub frame : List ℕ
  pub payload : List ℕ
  pub event : J
  pub response : J

abbrev pub upward : {J : Type 0} → Upstream J → Event
upward u = (u.frame, u.payload)

module _ {J : Type 0} (r : Reader J) (id : List ℕ) where
  -- The event as it is printed for the client.
  abbrev pub printed : Upstream J → List ℕ
  printed u = r.json.to_string (with_id r.json r.string id u.event u.response)

  -- The frame is a line of data with an event that has a response object; what is printed of the
  -- event with the id is one line without blanks around it, and encoding loses nothing of it.
  pub record Passes (u : Upstream J) : Type 0 where
    pub carries : Carries r.is_whitespace r.decode (upward u)
    pub parses : r.json.parse u.payload ≡ some u.event
    pub responds : and_then (r.json.get "response" u.event) (object_of r.json) ≡ some u.response
    pub prints : IsPayload r.is_whitespace (printed u)
    pub one_line : NoBreak (r.encode (codes "data: " ++ printed u))
    pub decodes : r.decode (r.encode (codes "data: " ++ printed u)) ≡ codes "data: " ++ printed u

  rewritten-line :
      (u : Upstream J)
      → r.is_whitespace 32 ≡ true
      → Passes u
      → rewritten r id (codes "data: " ++ u.payload) ≡ codes "data: " ++ printed u
  unfolding data_payload split_lines replace_lines join
  rewritten-line u w p =
      let q = data_payload-data r.is_whitespace u.payload w p.carries.2 in
      let one =
        split_from-NoBreak 100 (codes "ata: " ++ u.payload) []
          (refl, (refl, (refl, (refl, (refl, (refl, p.carries.2.one_line)))))) in
      rw (q, p.parses, p.responds, one) refl

  abbrev down : Upstream J → Event
  down u = (r.encode (codes "data: " ++ printed u), printed u)

  down-Carries :
      (us : List (Upstream J))
      → All Passes us
      → All (Carries r.is_whitespace r.decode) (map down us)
  down-Carries [] h = tt
  down-Carries (u ∷ us) h = ((h.0.one_line, h.0.decodes, h.0.prints), down-Carries us h.1)

  up-Carries :
      (us : List (Upstream J)) → All Passes us → All (λ (e : Event). NoBreak e.0) (map upward us)
  up-Carries [] h = tt
  up-Carries (u ∷ us) h = (h.0.carries.0, up-Carries us h.1)

  encode-text_of :
      (us : List (Upstream J))
      → IsEncoding r.encode
      → r.is_whitespace 32 ≡ true
      → All Passes us
      → r.encode (text_of r id (map r.decode (map (λ (e : Event). e.0) (map upward us))))
        ≡ stream_of (map down us)
  unfolding stream_of
  encode-text_of [] encoding w h = encoding.nothing
  encode-text_of (u ∷ us) encoding w h =
      let text = text_of r id (map r.decode (map (λ (e : Event). e.0) (map upward us))) in
      let line = codes "data: " ++ printed u in
      let d : r.decode u.frame ≡ codes "data: " ++ u.payload = h.0.carries.1 in
      ap (λ f. r.encode (rewritten r id f ++ (10 ∷ 10 ∷ text))) d
      ∙ ap (λ l. r.encode (l ++ (10 ∷ 10 ∷ text))) (rewritten-line u w h.0)
      ∙ encoding.append line (10 ∷ 10 ∷ text)
      ∙ ap (λ b. r.encode line ++ b) (encoding.append (10 ∷ 10 ∷ []) text)
      ∙ ap (λ b. r.encode line ++ (b ++ r.encode text)) encoding.blank
      ∙ ap (λ b. r.encode line ++ (10 ∷ 10 ∷ b)) (encode-text_of us encoding w h.1)

  map-down :
      (us : List (Upstream J))
      → map (λ (e : Event). some e.1) (map down us) ≡ map (λ u. some (printed u)) us
  map-down [] = refl
  map-down (u ∷ us) = rw (map-down us) refl

  -- When a request named a stored turn, the client of its stream reads the upstream's events, all of
  -- them in order, with the turn's id put into the response of each, however the bytes are cut into
  -- chunks on the way in and on the way out. The upstream's frames are lines of data with events that
  -- have a response object; a space is whitespace, encoding loses nothing and goes piece by piece, and
  -- an event is printed on one line without blanks around it.
  pub stream_response-client :
      (us : List (Upstream J)) (sub : ℕ) (delta : List ℕ) (store : Store) (end : ℕ)
      (chunks : List (ℕ × List ℕ)) (read : List (List ℕ))
      → IsEncoding r.encode
      → r.is_whitespace 32 ≡ true
      → All Passes us
      → flatten (map (λ c. c.1) chunks) ≡ stream_of (map upward us)
      → let t = turning id sub delta in
        flatten read ≡ bytes_of (stream_response r t end (chunks_of chunks) (new_state r t store)).1
        → map (data_payload r.is_whitespace) (received r.decode read)
          ≡ map (λ u. some (printed u)) us
  stream_response-client us sub delta store end chunks read encoding w h c q =
      let up : List Event = map upward us in
      let k : NoReturn (flatten (map (λ c. c.1) chunks)) =
        rw c (stream_of-NoReturn up (up-Carries us h)) in
      let p =
        push_all-new_framer r.decode (map (λ c. c.1) chunks)
          (IsWhole-NoReturn [] (map (λ c. c.1) chunks) tt k) in
      let e : scan 0 [] (flatten (map (λ c. c.1) chunks)) ≡ (map (λ (e : Event). e.0) up, []) =
        ap (scan 0 []) c ∙ scan-stream_of up (up-Carries us h) in
      let b =
        stream_response-bytes r id encoding sub delta end chunks
          (new_state r (turning id sub delta) store) (p.1 ∙ ap (λ x. x.1) e) in
      let f : flatten read ≡ stream_of (map down us) =
        q
        ∙ b
        ∙ ap (λ frames. r.encode (text_of r id frames)) (p.0 ∙ ap (λ x. map r.decode x.0) e)
        ∙ encode-text_of us encoding w h in
      received-stream_of r.is_whitespace r.decode (map down us) read w (down-Carries us h) f
      ∙ map-down us
