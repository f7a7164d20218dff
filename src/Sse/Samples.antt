-- ===== src/Sse/Samples.antt =====
-- Streams that are cut into chunks, for the theorems on server-sent events.
use subbier.Base.{
  take, same_text, ℕ, ◌≡◌, ◌≢◌, ◌⊎◌, refl, inl, true, Bool, Option, none, some, List, [], ◌∷◌, ◌++◌,
  ◌==◌, map, codes, if◌then◌else◌, ◌||◌, arith,
}
use mathlib.Core.List.{flatten}
use subbier.Sse.{starts_with}
use subbier.Sse.Chunks.{received, received-chunks}
use subbier.Sse.Payload.{data_payload, payload_of, split_lines, split_from}
use subbier.Sse.Payload.Events.{Event, stream_of, received-stream_of, Carries, IsPayload}
use subbier.Sse.Rewrite.{rewrite_previous_response_id, replace_lines, join}
use subbier.Sse.Rewrite.Lines.{other_lines, rewrite_previous_response_id-payload}
use subbier.Sse.Aggregate.{Json, finished, finish, new_aggregator}
use subbier.Sse.Aggregate.Order.{Arrival, consume_all, finish-items, own_output}

abbrev bytes : List ℕ → List ℕ
bytes text = text

abbrev is_space : ℕ → Bool
is_space c = c == 32

-- `a`, a blank line in carriage returns and line feeds, and `b`, cut inside that line.
abbrev cut : List (List ℕ)
cut = (97 ∷ 13 ∷ []) ∷ (10 ∷ 13 ∷ 10 ∷ 98 ∷ []) ∷ []

cut_frames : received bytes cut ≡ (97 ∷ []) ∷ (98 ∷ []) ∷ []
unfolding received
cut_frames = refl

received-chunks_example : received bytes cut ≡ received bytes (flatten cut ∷ [])
received-chunks_example = received-chunks bytes cut (refl, (refl, tt))

-- The cut that the condition excludes leaves a line feed at the start of the next frame.
stray_line_feed :
    received bytes ((97 ∷ 13 ∷ 10 ∷ 13 ∷ []) ∷ (10 ∷ 98 ∷ []) ∷ [])
    ≡ (97 ∷ []) ∷ (10 ∷ 98 ∷ []) ∷ []
unfolding received
stray_line_feed = refl

abbrev events : List Event
events = (codes "data: {}", codes "{}") ∷ (codes "data: x y", codes "x y") ∷ []

abbrev event_chunks : List (List ℕ)
event_chunks = codes "data: {}" ∷ (10 ∷ []) ∷ (10 ∷ codes "data: x y") ∷ (10 ∷ 10 ∷ []) ∷ []

braces-Carries : Carries is_space bytes (codes "data: {}", codes "{}")
braces-Carries = (
  (refl, (refl, (refl, (refl, (refl, (refl, (refl, (refl, tt)))))))),
  refl,
  record {
    one_line = (refl, (refl, tt));
    starts = refl;
    ends = refl;
    nonempty = refl;
    no_end = refl;
  },
)

words-Carries : Carries is_space bytes (codes "data: x y", codes "x y")
words-Carries = (
  (refl, (refl, (refl, (refl, (refl, (refl, (refl, (refl, (refl, tt))))))))),
  refl,
  record {
    one_line = (refl, (refl, (refl, tt)));
    starts = refl;
    ends = refl;
    nonempty = refl;
    no_end = refl;
  },
)

received-stream_of_example :
    map (data_payload is_space) (received bytes event_chunks) ≡ map (λ e. some e.1) events
unfolding stream_of flatten
received-stream_of_example =
    received-stream_of is_space bytes events event_chunks refl (braces-Carries, (words-Carries, tt))
      refl

-- Values that are texts: an item begins with `i`, a response with anything else.
abbrev field : List ℕ → List ℕ → Option (List ℕ)
field key value =
    if same_text key (codes "type")
    then some (
        if starts_with (codes "i") value
        then codes "response.output_item.done"
        else codes "response.completed")
    else if same_text key (codes "item") || same_text key (codes "response")
    then some value
    else none

abbrev texts : Json (List ℕ)
texts = record {
  parse = λ text. some text;
  get = λ key value. field (codes key) value;
  as_str = λ value. some value;
  index = λ value. none;
  is_object = λ value. true;
  as_array = λ value. none;
  insert_key = λ key value object. object ++ value;
  array = λ values. flatten values;
  to_string = λ value. value;
}

abbrev arrival : List ℕ → List ℕ → Arrival texts is_space
arrival frame value = record { frame = frame; event = value; item = value; index = none }

abbrev arrivals : List (Arrival texts is_space)
arrivals = arrival (codes "data: i1") (codes "i1") ∷ arrival (codes "data: i2") (codes "i2") ∷ []

-- Nothing in these values is an array, so the response takes the items.
finish-items_example :
    let result = finish texts is_space (
      consume_all texts is_space
        (map (λ v. v.frame) arrivals ++ (codes "data: r" ∷ codes ": ping" ∷ []))
        new_aggregator) in
    ((own_output texts is_space (codes "r") ≢ []) × (result ≡ finished (codes "r")))
    ⊎ ((own_output texts is_space (codes "r") ≡ []) × (result ≡ finished (codes "ri1i2")))
unfolding data_payload flatten
finish-items_example =
    finish-items texts is_space arrivals (codes "data: r") (codes "r") (codes "r")
      (codes ": ping" ∷ [])
      (
        record { reads = refl; typed = refl; carried = refl; placed = refl },
        omega arith,
        omega arith,
        (
          record { reads = refl; typed = refl; carried = refl; placed = refl },
          omega arith,
          omega arith,
          tt,
        ),
      )
      (record { reads = refl; typed = inl refl; carried = refl; object = refl })

abbrev split_event : List ℕ
split_event =
    codes "event: x" ++ (10 ∷ codes "data: r" ++ (10 ∷ codes "id: 7" ++ (10 ∷ codes "data:s")))

abbrev joined_event : List ℕ
joined_event = codes "r" ++ (10 ∷ codes "s")

rewritten-IsPayload : IsPayload is_space (codes "rok")
rewritten-IsPayload = record {
  one_line = (refl, (refl, (refl, tt)));
  starts = refl;
  ends = refl;
  nonempty = refl;
  no_end = refl;
}

-- Values whose `response` is their first character, and whose line breaks are not printed.
abbrev letters : Json (List ℕ)
letters = record texts {
  get = λ key value. some (take 1 value);
  insert_key = λ key value object.
      if same_text (codes key) (codes "response") then value else object ++ value;
}

rewrite_previous_response_id-payload_example :
    (data_payload is_space
        (rewrite_previous_response_id letters (λ t. t) is_space split_event (codes "ok"))
      ≡ some (codes "rok"))
    × (other_lines (
          split_lines
            (rewrite_previous_response_id letters (λ t. t) is_space split_event (codes "ok")))
        ≡ codes "event: x" ∷ codes "id: 7" ∷ [])
unfolding data_payload payload_of split_lines split_from other_lines
rewrite_previous_response_id-payload_example =
    rewrite_previous_response_id-payload letters (λ t. t) is_space split_event (codes "ok")
      joined_event joined_event (codes "r") refl refl refl refl rewritten-IsPayload

rewritten_frame :
    rewrite_previous_response_id letters (λ t. t) is_space split_event (codes "ok")
    ≡ codes "event: x" ++ (10 ∷ codes "data: rok" ++ (10 ∷ codes "id: 7"))
unfolding data_payload payload_of split_lines split_from replace_lines join
rewritten_frame = refl
