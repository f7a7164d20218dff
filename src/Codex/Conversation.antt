-- ===== src/Codex/Conversation.antt =====
-- A request that continues a conversation, from the store of store/transcripts.rs through prepare of
-- proxy/codex.rs to the body that goes upstream.
use subbier.Base.{ℕ, ◌≡◌, ◌∙◌, ◌≤◌, ◌+◌, refl, ap, Option, none, some, List, ◌++◌, map, String}
use subbier.Base.OrdMap.{lookup}
use subbier.Model.{SubId}
use subbier.Transcripts.{Limits, Store, Turn, Chain, chain, remember, max_depth, cutoff}
use subbier.Transcripts.Turns.{AllRecent, Continues, remember-chain}
use subbier.Registry.{SubRegistry, id_of}
use subbier.Registry.Conversations.{read_chain, read_placement, hint_for}
use subbier.Codex.{
  object, array, Json, Rejectable, accepted, Prepared, previous_response_id, number_of, input_of,
  response_input_items, normalize_item, splice, prepared, spliced, prepare, cache_key,
}
use subbier.Codex.Body.{sent_input, joined, sent, prepare-sent}

-- A request that is sent upstream with that input and without the id of a conversation.
pub record SentWith {J M : Type 0} (json : Json J M) (input : List J) (sub : Option SubId)
    (r : Rejectable (Prepared J M)) : Type 0 where
  pub request : Prepared J M
  pub is_accepted : r ≡ accepted request
  pub has_input : json.get "input" request.body ≡ some (json.make (array input))
  pub has_no_id : json.get "previous_response_id" request.body ≡ none
  pub prefers : request.hints.chain ≡ sub

module _ {J M : Type 0} (json : Json J M) (number : String → ℕ) (item : ℕ → J) (limits : Limits)
    (entries : SubRegistry) where
  sent_input-array :
      (items : List J)
      → sent_input json (some (json.make (array items)))
        ≡ some (json.make (array (map (normalize_item json) items)))
  sent_input-array items = rw json.view-make refl

  read_chain-found :
      (later : ℕ) (id : String) (t : Option String) (s : Store) (c : Chain)
      → t ≡ some id
      → (chain (number id) later s).1 ≡ some c
      → (read_chain later (number_of number t) s).1 ≡ some (some c)
  read_chain-found later id t s c i r = rw i (ap some r)

  -- The request that goes out when the conversation is read back.
  prepare-found :
      (later : ℕ) (s : Store) (value : J) (body : M) (id : String) (c : Chain)
      → json.view value ≡ object body
      → previous_response_id json body ≡ some id
      → (chain (number id) later s).1 ≡ some c
      → SentWith json
          (map
            (normalize_item json)
            (map item c.items ++ response_input_items json (input_of json body)))
          (id_of c.sub entries)
          (prepare json number item limits later entries (some value) s).1
  unfolding prepare
  prepare-found later s value body id c v i r =
      let read : Store × Option (Option Chain) =
        read_chain later (number_of number (previous_response_id json body)) s in
      let e : read.1 ≡ some (some c) = read_chain-found later id _ s c i r in
      let placed = read_placement limits later (number_of number (cache_key json body)) read.0 in
      let p : Prepared J M =
        prepared json number item limits later entries body (splice json body (map item c.items))
          (record { chain = id_of c.sub entries; key = hint_for entries placed.1 }) in
      let a : (prepare json number item limits later entries (some value) s).1 ≡ accepted p =
        rw v (ap (spliced json number item limits later entries body placed.1) e) in
      record {
        request = p;
        is_accepted = a;
        has_input =
            prepare-sent json number item limits later entries value body s p "input" v a
            ∙ (ap (λ o. sent_input json (joined json item body o)) e
                ∙ sent_input-array
                    (map item c.items ++ response_input_items json (input_of json body)));
        has_no_id =
            prepare-sent json number item limits later entries value body s p "previous_response_id"
              v a
            ∙ ap (λ o. sent json item body o "previous_response_id") e;
        prefers = refl;
      }

  -- Once a turn has been stored, a request that names it goes upstream with the whole conversation
  -- before the client's own items, all of them rewritten for the backend: the items from before the
  -- turn, then the turn's input and its output. The id is gone from the body, and the account that
  -- served the turn is preferred. The turn has a new id; it opens a conversation, or continues a
  -- stored one of at most max_depth turns; nothing stored has expired, and there was room for it.
  pub remember-prepare :
      (turn : Turn) (now later n : ℕ) (items : List ℕ) (s : Store) (value : J) (body : M)
      (id : String)
      → lookup turn.id s.rows ≡ none
      → Continues s.rows turn.parent n items
      → n ≤ max_depth
      → AllRecent (cutoff limits now) s.rows
      → s.bytes + turn.serialised ≤ limits.max_bytes
      → json.view value ≡ object body
      → previous_response_id json body ≡ some id
      → number id ≡ turn.id
      → SentWith json
          (map (normalize_item json) (
            map item (items ++ (turn.input ++ turn.output))
            ++ response_input_items json (input_of json body)))
          (id_of turn.sub entries)
          (prepare json number item limits later entries
            (some value)
            (remember limits turn now s)).1
  remember-prepare turn now later n items s value body id f c d h b v i k =
      prepare-found later (remember limits turn now s) value body id
        (record { items = items ++ (turn.input ++ turn.output); sub = turn.sub }) v i
        (rw k (remember-chain limits turn now later n items s f c d h b))
