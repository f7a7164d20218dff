-- ===== src/Codex/Streaming.antt =====
-- stream_response of crates/libsubby/src/proxy/codex.rs: a stream on its way to the client, with the
-- turn that is stored from it.
--
-- What reads the upstream stream and the clock is a list: each chunk stands with the time at which
-- it came, and the connection can break in its place. serde_json's values are those of the
-- aggregator. The store knows ids, accounts and items by numbers, which `number` and `item` give,
-- and `size` the length of the texts of a turn's input and output. Strings are lists of characters;
-- `encode` gives their bytes. Remembering a turn does not fail.
pub mod Client
pub mod Turns
mod Samples
use subbier.Base.{
  ℕ, Bool, true, false, Option, none, some, List, [], ◌∷◌, ◌++◌, map, if◌then◌else◌, is_empty,
}
use mathlib.Core.List.{flatten}
use subbier.Transcripts.{Limits, Store, Turn, remember}
use subbier.Sse.{SseFramer, new_framer, push, flush}
use subbier.Sse.Payload.{data_payload}
use subbier.Sse.Aggregate.{
  Json, Aggregator, Aggregated, new_aggregator, is_done, consume, finish, finished, no_terminal,
  and_then,
}
use subbier.Sse.Rewrite.{rewrite_previous_response_id}

-- What is not in the source's reach: the crates that it calls, and what the store makes of values.
pub record Reader (J : Type 0) : Type 0 where
  pub json : Json J
  pub string : List ℕ → J
  pub as_u64 : J → Option ℕ
  pub is_whitespace : ℕ → Bool
  pub decode : List ℕ → List ℕ
  pub encode : List ℕ → List ℕ
  pub number : List ℕ → ℕ
  pub item : J → ℕ
  pub size : (input : List ℕ) → (output : List J) → ℕ
  pub limits : Limits

-- The parts of `StreamState` that change. `tokens` has the arguments of set_tokens, `status` that of
-- set_status.
pub record StreamState (J : Type 0) : Type 0 where
  pub framer : SseFramer
  pub aggregator : Option (Aggregator J)
  pub store : Store
  pub tokens : List (Option ℕ × Option ℕ)
  pub status : Option ℕ

-- Those that stay: `rewrite`, which is also `parent`, `sub` and `delta`.
pub record Turning : Type 0 where
  pub rewrite : Option (List ℕ)
  pub sub : ℕ
  pub delta : List ℕ

pub data Read : Type 0 where
  chunk : (now : ℕ) (bytes : List ℕ) → Read
  broken : Read

-- What the client gets.
pub data Yield : Type 0 where
  sent : List ℕ → Yield
  cut_off : Yield

module _ {J : Type 0} (r : Reader J) where
  abbrev pub rewritten : List ℕ → List ℕ → List ℕ
  rewritten id frame = rewrite_previous_response_id r.json r.string r.is_whitespace frame id

  -- The text of the frames that a chunk completes.
  abbrev pub text_of : List ℕ → List (List ℕ) → List ℕ
  text_of id [] = []
  text_of id (frame ∷ frames) = rewritten id frame ++ (10 ∷ 10 ∷ text_of id frames)

  abbrev pub forward : Option (List ℕ) → List ℕ → List (List ℕ) → List Yield
  forward none bytes frames = sent bytes ∷ []
  forward (some id) bytes [] = []
  forward (some id) bytes (frame ∷ frames) = sent (r.encode (text_of id (frame ∷ frames))) ∷ []

  abbrev pub forward_tail : Option (List ℕ) → List ℕ → List Yield
  forward_tail none tail = []
  forward_tail (some id) tail = sent (r.encode (rewritten id tail)) ∷ []

module _ {J : Type 0} (r : Reader J) (t : Turning) where
  abbrev pub new_state : Store → StreamState J
  new_state store = record {
    framer = new_framer;
    aggregator = some new_aggregator;
    store = store;
    tokens = [];
    status = none;
  }

  abbrev pub counts_of : Option J → Option ℕ × Option ℕ
  counts_of none = (none, none)
  counts_of (some usage) = (
    and_then (r.json.get "input_tokens" usage) r.as_u64,
    and_then (r.json.get "output_tokens" usage) r.as_u64,
  )

  abbrev pub usage_counts : J → Option ℕ × Option ℕ
  usage_counts response = counts_of (r.json.get "usage" response)

  abbrev pub observe_response : Option J → StreamState J → StreamState J
  observe_response none s = s
  observe_response (some response) s = record s {
    tokens = s.tokens ++ (usage_counts response ∷ []);
  }

  abbrev pub observe : List ℕ → StreamState J → StreamState J
  observe frame s =
      observe_response
        (and_then (and_then (data_payload r.is_whitespace frame) r.json.parse)
          (r.json.get "response"))
        s

  abbrev pub number_of : Option (List ℕ) → Option ℕ
  number_of none = none
  number_of (some id) = some (r.number id)

  abbrev pub turn_with : J → Option (List ℕ) → Option (List J) → Option Turn
  turn_with terminal none output = none
  turn_with terminal (some id) none = none
  turn_with terminal (some id) (some output) = some (record {
    id = r.number id;
    parent = number_of t.rewrite;
    sub = t.sub;
    input = t.delta;
    output = map r.item output;
    serialised = r.size t.delta output;
  })

  abbrev pub turn_of : J → Option Turn
  turn_of terminal =
      turn_with terminal (and_then (r.json.get "id" terminal) r.json.as_str)
        (and_then (r.json.get "output" terminal) r.json.as_array)

  abbrev pub remember_turn : ℕ → Option Turn → Store → Store
  remember_turn now none store = store
  remember_turn now (some turn) store = remember r.limits turn now store

  abbrev pub remember_finished : ℕ → Aggregated J → Store → Store
  remember_finished now (no_terminal detail) store = store
  remember_finished now (finished terminal) store = remember_turn now (turn_of terminal) store

  abbrev pub consumed : ℕ → Aggregator J → StreamState J → StreamState J
  consumed now a s =
      if is_done a
      then record s {
        aggregator = none;
        store = remember_finished now (finish r.json r.is_whitespace a) s.store;
      }
      else record s { aggregator = some a }

  abbrev pub aggregate : ℕ → List ℕ → Option (Aggregator J) → StreamState J → StreamState J
  aggregate now frame none s = s
  aggregate now frame (some a) s = consumed now (consume r.json r.is_whitespace frame a) s

  unfoldable pub absorb : ℕ → List (List ℕ) → StreamState J → StreamState J
  absorb now [] s = s
  absorb now (frame ∷ frames) s =
      let seen = observe frame s in absorb now frames (aggregate now frame seen.aggregator seen)

  abbrev pub finish_stream : ℕ → Option (List ℕ) → StreamState J → StreamState J × List Yield
  finish_stream now none s = (s, [])
  finish_stream now (some tail) s = (absorb now (tail ∷ []) s, forward_tail r t.rewrite tail)

  -- The stream up to its end, which comes at `end`.
  unfoldable pub stream_response :
      (end : ℕ) → List Read → StreamState J → StreamState J × List Yield
  unfolding absorb
  stream_response end [] s =
      let last = flush r.decode s.framer in finish_stream end last.1 (record s { framer = last.0 })
  stream_response end (broken ∷ reads) s = (record s { status = some 502 }, cut_off ∷ [])
  stream_response end (chunk now bytes ∷ reads) s =
      let pushed = push r.decode bytes s.framer in
      let rest = stream_response end reads (absorb now pushed.1 (record s { framer = pushed.0 })) in
      (rest.0, forward r t.rewrite bytes pushed.1 ++ rest.1)
