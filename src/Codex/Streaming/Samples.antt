-- ===== src/Codex/Streaming/Samples.antt =====
-- A streamed conversation of two events, for the theorems on what its client reads and on the turn that is
-- stored.
use subbier.Base.{
  ℕ, ◌≡◌, ◌⊎◌, Elem, false, refl, ◌==◌, true, none, some, List, [], ◌∷◌, ◌++◌, map, if◌then◌else◌,
  codes, same_text, take,
}
use mathlib.Core.List.{flatten}
use subbier.Base.OrdMap.{retain, insert, lookup}
use subbier.Transcripts.{Store, default_limits, remember}
use subbier.Sse.Chunks.{received}
use subbier.Sse.{push, flush}
use subbier.Sse.Payload.{data_payload}
use subbier.Sse.Payload.Events.{IsPayload, stream_of}
use subbier.Sse.Rewrite.{replace_lines, join}
use subbier.Sse.Aggregate.{Json, consume, finish, Aggregator, new_aggregator, is_done}
use subbier.Sse.Aggregate.Order.{consume_all}
use subbier.Codex.Streaming.Turns.{stream_response-turn}
use subbier.Codex.Streaming.{StreamState, remember_finished, Reader, new_state, stream_response}
use subbier.Codex.Streaming.Client.{
  IsEncoding, Upstream, Passes, bytes_of, chunks_of, turning, stream_response-client,
}

-- A value is a text; its response is its first letter.
abbrev letters : Json (List ℕ)
letters = record {
  parse = λ text. some text;
  get = λ key value. if same_text (codes key) (codes "response") then some (take 1 value) else none;
  as_str = λ value. some value;
  index = λ value. none;
  is_object = λ value. true;
  as_array = λ value. none;
  insert_key = λ key value object.
      if same_text (codes key) (codes "response") then value else object ++ value;
  array = λ values. flatten values;
  to_string = λ value. value;
}

abbrev reader : Reader (List ℕ)
reader = record {
  json = letters;
  string = λ text. text;
  as_u64 = λ value. none;
  is_whitespace = λ c. c == 32;
  decode = λ bytes. bytes;
  encode = λ text. text;
  number = λ text. 0;
  item = λ value. 0;
  size = λ input output. 0;
  limits = default_limits;
}

same_bytes-IsEncoding : IsEncoding (λ text. text)
same_bytes-IsEncoding = record { nothing = refl; append = λ a b. refl; blank = refl }

-- An event that is one letter.
abbrev letter : ℕ → Upstream (List ℕ)
letter c = record {
  frame = codes "data: " ++ (c ∷ []);
  payload = c ∷ [];
  event = c ∷ [];
  response = c ∷ [];
}

one_letter-IsPayload : IsPayload (λ c. c == 32) (codes "a")
one_letter-IsPayload = record {
  one_line = (refl, tt);
  starts = refl;
  ends = refl;
  nonempty = refl;
  no_end = refl;
}

other_letter-IsPayload : IsPayload (λ c. c == 32) (codes "b")
other_letter-IsPayload = record {
  one_line = (refl, tt);
  starts = refl;
  ends = refl;
  nonempty = refl;
  no_end = refl;
}

with_number-IsPayload : IsPayload (λ c. c == 32) (codes "a7")
with_number-IsPayload = record {
  one_line = (refl, (refl, tt));
  starts = refl;
  ends = refl;
  nonempty = refl;
  no_end = refl;
}

other_with_number-IsPayload : IsPayload (λ c. c == 32) (codes "b7")
other_with_number-IsPayload = record {
  one_line = (refl, (refl, tt));
  starts = refl;
  ends = refl;
  nonempty = refl;
  no_end = refl;
}

a-Passes : Passes reader (codes "7") (letter 97)
a-Passes = record {
  carries =
      ((refl, (refl, (refl, (refl, (refl, (refl, (refl, tt))))))), refl, one_letter-IsPayload);
  parses = refl;
  responds = refl;
  prints = with_number-IsPayload;
  one_line = (refl, (refl, (refl, (refl, (refl, (refl, (refl, (refl, tt))))))));
  decodes = refl;
}

b-Passes : Passes reader (codes "7") (letter 98)
b-Passes = record {
  carries =
      ((refl, (refl, (refl, (refl, (refl, (refl, (refl, tt))))))), refl, other_letter-IsPayload);
  parses = refl;
  responds = refl;
  prints = other_with_number-IsPayload;
  one_line = (refl, (refl, (refl, (refl, (refl, (refl, (refl, (refl, tt))))))));
  decodes = refl;
}

abbrev stored_nothing : Store
stored_nothing = record { rows = []; placements = []; bytes = 0 }

-- The second frame begins in the first chunk.
abbrev arriving : List (ℕ × List ℕ)
arriving =
    (1, codes "data: a" ++ (10 ∷ 10 ∷ codes "da")) ∷ (2, codes "ta: b" ++ (10 ∷ 10 ∷ [])) ∷ []

abbrev leaving : List (List ℕ)
leaving = (codes "data: a7" ++ (10 ∷ 10 ∷ codes "data: b7" ++ (10 ∷ []))) ∷ (10 ∷ []) ∷ []

leaving-bytes :
    flatten leaving
    ≡ bytes_of
        (stream_response reader
          (turning (codes "7") 1 [])
          3
          (chunks_of arriving)
          (new_state reader (turning (codes "7") 1 []) stored_nothing)).1
unfolding stream_response flatten push data_payload join replace_lines consume flush
leaving-bytes = refl

stream_response-client_example :
    map (data_payload (λ c. c == 32)) (received (λ bytes. bytes) leaving)
    ≡ some (codes "a7") ∷ some (codes "b7") ∷ []
unfolding stream_of flatten
stream_response-client_example =
    stream_response-client reader (codes "7") (letter 97 ∷ letter 98 ∷ []) 1 [] stored_nothing 3
      arriving leaving same_bytes-IsEncoding refl (a-Passes, (b-Passes, tt)) refl leaving-bytes

-- Values whose events are all terminal responses.
abbrev field : List ℕ → List ℕ → List ℕ
field key value = if same_text key (codes "type") then codes "response.completed" else value

abbrev finishing : Reader (List ℕ)
finishing = record reader {
  json = record letters {
    get = λ key value. some (field (codes key) value);
    as_array = λ value. some ((1 ∷ []) ∷ []);
  };
  number = λ text. 5;
  item = λ value. 8;
  size = λ input output. 20;
}

abbrev answered : StreamState (List ℕ)
answered =
    (stream_response finishing (turning (codes "7") 1 []) 3 (chunks_of arriving)
      (new_state finishing (turning (codes "7") 1 []) stored_nothing)).0

abbrev total : Aggregator (List ℕ)
total =
    consume_all finishing.json finishing.is_whitespace
      (received finishing.decode (map (λ c. c.1) arriving)) new_aggregator

stream_response-turn_example :
    ((is_done total ≡ false) × (answered.store ≡ stored_nothing))
    ⊎ ((is_done total ≡ true)
        × ((now : ℕ) × Elem now (3 ∷ 1 ∷ 2 ∷ [])
            × (answered.store
                ≡ remember_finished finishing
                    (turning (codes "7") 1 [])
                    now
                    (finish finishing.json finishing.is_whitespace total)
                    stored_nothing)))
stream_response-turn_example =
    stream_response-turn finishing (turning (codes "7") 1 []) 3 arriving stored_nothing

-- The first response ends the turn.
the_turn_is_stored : answered.store.bytes ≡ 20
unfolding stream_response flatten push data_payload consume flush finish remember retain insert
    lookup
the_turn_is_stored = refl
