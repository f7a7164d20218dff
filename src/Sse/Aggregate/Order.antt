-- ===== src/Sse/Aggregate/Order.antt =====
-- The Aggregator of proxy/sse.rs over the frames of a whole stream.
use subbier.Base.{
  ℕ, ◌+◌, ◌-◌, ◌^◌, ◌≤◌, ◌<◌, max, ◌≡◌, ◌≢◌, ◌∙◌, ◌⊎◌, refl, sym, ap, subst, inl, inr, Bool, true,
  false, Option, none, some, List, [], ◌∷◌, ◌++◌, map, All, All-append, All-imp, unwrap_or, codes,
  arith,
}
use mathlib.Core.List.{append-nil, append_assoc, map-append}
use subbier.Base.OrdMap.{OrdMap, insert}
use subbier.Sse.Payload.{data_payload}
use subbier.Sse.Aggregate.{
  Json, Aggregator, finished, saturating_next, and_then, new_aggregator, is_done, type_of,
  output_index, add_item, take_event, consume, finish, with_output,
}

insert-last :
    {V : Type 0} (k : ℕ) (v : V) (m : OrdMap V)
    → All (λ e. e.0 < k) m
    → insert k v m ≡ m ++ ((k, v) ∷ [])
unfolding insert
insert-last k v [] h = refl
insert-last k v ((j, w) ∷ m) h = let q = h.0 in ground (arith, insert-last k v m h.1)

module _ {J : Type 0} (json : Json J) (is_whitespace : ℕ → Bool) where
  -- The frames one after the other.
  unfoldable pub consume_all : List (List ℕ) → Aggregator J → Aggregator J
  unfolding consume
  consume_all [] a = a
  consume_all (f ∷ fs) a = consume_all fs (consume json is_whitespace f a)

  -- Once a terminal event has arrived, no later frame changes anything.
  consume_all-done :
      (frames : List (List ℕ)) (a : Aggregator J) → is_done a ≡ true → consume_all frames a ≡ a
  unfolding consume_all consume
  consume_all-done [] a h = refl
  consume_all-done (f ∷ fs) a h = rw (h, consume_all-done fs a h) refl

  -- The event in a frame.
  abbrev pub Reads : List ℕ → J → Type 0
  Reads frame event = and_then (data_payload is_whitespace frame) json.parse ≡ some event

  -- A frame with an item, which stands at `index` if it says where.
  pub record IsItem (frame : List ℕ) (event item : J) (index : Option ℕ) : Type 0 where
    pub reads : Reads frame event
    pub typed : type_of json is_whitespace event ≡ codes "response.output_item.done"
    pub carried : json.get "item" event ≡ some item
    pub placed : output_index json is_whitespace (json.get "output_index" event) ≡ index

  consume-item :
      (frame : List ℕ) (event item : J) (index : Option ℕ) (a : Aggregator J)
      → IsItem frame event item index
      → is_done a ≡ false
      → consume json is_whitespace frame a
        ≡ add_item json is_whitespace (unwrap_or a.next_item_index index) item a
  unfolding consume take_event
  consume-item frame event item index a v d = rw (d, v.reads, v.typed, v.carried, v.placed) refl

  pub record Arrival : Type 0 where
    pub frame : List ℕ
    pub event : J
    pub item : J
    pub index : Option ℕ

  -- Each item stands where it says, or after all those before it; no place is at or before an earlier
  -- one, and none is the last that a u64 can name.
  abbrev pub InOrder : ℕ → List Arrival → Type 0
  InOrder next [] = Unit
  InOrder next (a ∷ rest) =
      IsItem a.frame a.event a.item a.index
      × (next ≤ unwrap_or next a.index)
      × (unwrap_or next a.index < 2 ^ 64 - 1)
      × InOrder (unwrap_or next a.index + 1) rest

  -- Items so far, with places below the next one, and no response yet.
  record Holds (items : List J) (a : Aggregator J) : Type 0 where
    values : map (λ e. e.1) a.items ≡ items
    below : All (λ e. e.0 < a.next_item_index) a.items
    open_yet : is_done a ≡ false

  add_item-Holds :
      (items : List J) (k : ℕ) (item : J) (a : Aggregator J)
      → a.next_item_index ≤ k
      → k < 2 ^ 64 - 1
      → Holds items a
      → Holds (items ++ (item ∷ [])) (add_item json is_whitespace k item a)
        × ((add_item json is_whitespace k item a).next_item_index ≡ k + 1)
  add_item-Holds items k item a l b h =
      let below : All (λ e. e.0 < k) a.items =
        All-imp (λ e. e.0 < a.next_item_index) (λ e. e.0 < k) a.items (λ e q. omega (arith, q, l))
          h.below in
      let n : max a.next_item_index (saturating_next k) ≡ k + 1 = omega (arith, l, b) in
      (
        record {
          values =
              rw
                (
                  insert-last k item a.items below,
                  map-append (λ e. e.1) a.items ((k, item) ∷ []),
                  h.values,
                )
                refl;
          below =
              rw (insert-last k item a.items below, n)
                (All-append (λ e. e.0 < k + 1) a.items ((k, item) ∷ [])
                  (All-imp (λ e. e.0 < k) (λ e. e.0 < k + 1) a.items (λ e q. omega (arith, q))
                    below)
                  (omega arith, tt));
          open_yet = h.open_yet;
        },
        n,
      )

  consume_all-Holds :
      (arrivals : List Arrival) (items : List J) (a : Aggregator J)
      → InOrder a.next_item_index arrivals
      → Holds items a
      → Holds (items ++ map (λ v. v.item) arrivals) (consume_all (map (λ v. v.frame) arrivals) a)
  unfolding consume_all
  consume_all-Holds [] items a o h = rw (append-nil items) h
  consume_all-Holds (v ∷ vs) items a o h =
      let k = unwrap_or a.next_item_index v.index in
      let (g, n) = add_item-Holds items k v.item a o.1 o.2 h in
      let i =
        consume_all-Holds vs (items ++ (v.item ∷ [])) (add_item json is_whitespace k v.item a)
          (rw n o.3) g in
      let q = append_assoc items (v.item ∷ []) (map (λ v. v.item) vs) in
      let j : Holds (items ++ (v.item ∷ map (λ v. v.item) vs))
          (consume_all (map (λ v. v.frame) vs) (add_item json is_whitespace k v.item a)) =
        rw q at i in
      subst
        (λ b.
          Holds (items ++ (v.item ∷ map (λ v. v.item) vs)) (consume_all (map (λ v. v.frame) vs) b))
        (sym (consume-item v.frame v.event v.item v.index a o.0 h.open_yet)) j

  -- A frame with the response.
  pub record IsLast (frame : List ℕ) (event response : J) : Type 0 where
    pub reads : Reads frame event
    pub typed :
        (type_of json is_whitespace event ≡ codes "response.completed")
        ⊎ (type_of json is_whitespace event ≡ codes "response.incomplete")
        ⊎ (type_of json is_whitespace event ≡ codes "response.failed")
    pub carried : json.get "response" event ≡ some response
    pub object : json.is_object response ≡ true

  take_event-last :
      (event_type : List ℕ) (event response : J) (a : Aggregator J)
      → (event_type ≡ codes "response.completed")
        ⊎ (event_type ≡ codes "response.incomplete")
        ⊎ (event_type ≡ codes "response.failed")
      → json.get "response" event ≡ some response
      → json.is_object response ≡ true
      → take_event json is_whitespace event_type event a ≡ record a { terminal = some response }
  unfolding take_event
  take_event-last event_type event response a (inl t) c o = rw (t, c, o) refl
  take_event-last event_type event response a (inr (inl t)) c o = rw (t, c, o) refl
  take_event-last event_type event response a (inr (inr t)) c o = rw (t, c, o) refl

  consume-last :
      (frame : List ℕ) (event response : J) (a : Aggregator J)
      → IsLast frame event response
      → is_done a ≡ false
      → consume json is_whitespace frame a ≡ record a { terminal = some response }
  unfolding consume
  consume-last frame event response a v d =
      rw (d, v.reads)
        (take_event-last (type_of json is_whitespace event) event response a v.typed v.carried
          v.object)

  pub consume_all-append :
      (xs ys : List (List ℕ)) (a : Aggregator J)
      → consume_all (xs ++ ys) a ≡ consume_all ys (consume_all xs a)
  unfolding consume_all
  consume_all-append [] ys a = refl
  consume_all-append (x ∷ xs) ys a = consume_all-append xs ys (consume json is_whitespace x a)

  -- What `finish` makes of such a stream.
  finish-consume_all :
      (arrivals : List Arrival) (last : List ℕ) (event response : J) (rest : List (List ℕ))
      → InOrder 0 arrivals
      → IsLast last event response
      → finish json is_whitespace
          (consume_all (map (λ v. v.frame) arrivals ++ (last ∷ rest)) new_aggregator)
        ≡ finished (with_output json is_whitespace (map (λ v. v.item) arrivals) response)
  unfolding finish consume_all
  finish-consume_all arrivals last event response rest o v =
      let frames = map (λ v. v.frame) arrivals in
      let a = consume_all frames new_aggregator in
      let h =
        consume_all-Holds arrivals [] new_aggregator o
          (record { values = refl; below = tt; open_yet = refl }) in
      let l = consume-last last event response a v h.open_yet in
      let e : consume_all (last ∷ rest) a
          ≡ consume_all rest (record a { terminal = some response }) =
        ap (consume_all rest) l in
      let d = consume_all-done rest (record a { terminal = some response }) refl in
      rw (consume_all-append frames (last ∷ rest) new_aggregator, e, d, h.values) refl

  -- The entries of a response's own output, none if it has no array there.
  abbrev pub own_output : J → List J
  own_output response = unwrap_or [] (and_then (json.get "output" response) json.as_array)

  with_output-cases :
      (items : List J) (response : J) (own : Option (List J))
      → and_then (json.get "output" response) json.as_array ≡ own
      → ((own_output response ≢ []) × (with_output json is_whitespace items response ≡ response))
        ⊎ ((own_output response ≡ [])
            × (with_output json is_whitespace items response
                ≡ json.insert_key "output" (json.array items) response))
  with_output-cases items response none e = rw e (inr (refl, refl))
  with_output-cases items response (some []) e = rw e (inr (refl, refl))
  with_output-cases items response (some (x ∷ xs)) e = rw e (inl ((λ h. cc), refl))

  -- A stream of items in order, a response and then any frames adds up to that response: as it is if
  -- it has an output with entries of its own, and otherwise with the items as its output, in the order
  -- in which they came. An item may leave out its place or skip some, but not go back.
  pub finish-items :
      (arrivals : List Arrival) (last : List ℕ) (event response : J) (rest : List (List ℕ))
      → InOrder 0 arrivals
      → IsLast last event response
      → let result =
          finish json is_whitespace
            (consume_all (map (λ v. v.frame) arrivals ++ (last ∷ rest)) new_aggregator) in
        let items = map (λ v. v.item) arrivals in
        ((own_output response ≢ []) × (result ≡ finished response))
        ⊎ ((own_output response ≡ [])
            × (result ≡ finished (json.insert_key "output" (json.array items) response)))
  finish-items arrivals last event response rest o v =
      let items = map (λ v. v.item) arrivals in
      let q = finish-consume_all arrivals last event response rest o v in
      elim (with_output-cases items response (and_then (json.get "output" response) json.as_array)
        refl) [ inl (n, e) ↦ inl (n, q ∙ ap finished e) | inr (n, e) ↦ inr (n, q ∙ ap finished e) ]
