-- ===== src/Sse/Aggregate.antt =====
-- crates/libsubby/src/proxy/sse.rs: the Aggregator, which folds the frames of a stream into one
-- response.
--
-- `serde_json::Value` is a type of its own, with the operations of `Json`; a text is a list of
-- characters.
pub mod Order
use subbier.Base.{
  same_text, ℕ, ◌+◌, ◌-◌, ◌^◌, min, max, Bool, true, false, ◌&&◌, ◌||◌, not, Option, none, some,
  List, [], ◌∷◌, map, if◌then◌else◌, is_some, is_none_or, is_empty, unwrap_or, filter_some, String,
  codes, take,
}
use subbier.Base.OrdMap.{OrdMap, insert}
use subbier.Sse.Payload.{data_payload}

-- `index` is the number as a u64, or the float that is one.
pub record Json (J : Type 0) : Type 0 where
  pub parse : List ℕ → Option J
  pub get : String → J → Option J
  pub as_str : J → Option (List ℕ)
  pub index : J → Option ℕ
  pub is_object : J → Bool
  pub as_array : J → Option (List J)
  pub insert_key : String → J → J → J
  pub array : List J → J
  pub to_string : J → List ℕ

pub record Aggregator (J : Type 0) : Type 0 where
  pub terminal : Option J
  pub error : Option J
  pub items : OrdMap J
  pub next_item_index : ℕ

pub data Aggregated (J : Type 0) : Type 0 where
  finished : J → Aggregated J
  no_terminal : (detail : Option (List ℕ)) → Aggregated J

abbrev pub error_detail_limit : ℕ
error_detail_limit = 300

abbrev pub truncate : List ℕ → List ℕ
truncate text = take error_detail_limit text

-- `u64::saturating_add(1)`.
abbrev pub saturating_next : ℕ → ℕ
saturating_next n = min (n + 1) (2 ^ 64 - 1)

abbrev pub and_then : {A B : Type 0} → Option A → (A → Option B) → Option B
and_then none f = none
and_then (some a) f = f a

module _ {J : Type 0} where
  abbrev pub new_aggregator : Aggregator J
  new_aggregator = record { terminal = none; error = none; items = []; next_item_index = 0 }

  abbrev pub is_done : Aggregator J → Bool
  is_done a = is_some a.terminal

module _ {J : Type 0} (json : Json J) (is_whitespace : ℕ → Bool) where
  abbrev pub type_of : J → List ℕ
  type_of event = unwrap_or [] (and_then (json.get "type" event) json.as_str)

  abbrev pub output_index : Option J → Option ℕ
  output_index value = and_then value json.index

  abbrev pub add_item : ℕ → J → Aggregator J → Aggregator J
  add_item index item a = record a {
    items = insert index item a.items;
    next_item_index = max a.next_item_index (saturating_next index);
  }

  abbrev pub take_item : J → Option J → Aggregator J → Aggregator J
  take_item event none a = a
  take_item event (some item) a =
      add_item (unwrap_or a.next_item_index (output_index (json.get "output_index" event))) item a

  abbrev pub is_terminal : List ℕ → Bool
  is_terminal event_type =
      same_text event_type (codes "response.completed")
      || same_text event_type (codes "response.incomplete")
      || same_text event_type (codes "response.failed")

  abbrev pub take_terminal : Option J → Aggregator J → Aggregator J
  take_terminal none a = a
  take_terminal (some response) a =
      if json.is_object response then record a { terminal = some response } else a

  -- An event, of the type given.
  unfoldable pub take_event : List ℕ → J → Aggregator J → Aggregator J
  take_event event_type event a =
      let b =
        if same_text event_type (codes "response.output_item.done")
        then take_item event (json.get "item" event) a
        else a in
      let c = if is_terminal event_type then take_terminal (json.get "response" event) b else b in
      if same_text event_type (codes "error") then record c { error = some event } else c

  abbrev pub take_parsed : Option J → Aggregator J → Aggregator J
  take_parsed none a = a
  take_parsed (some event) a = take_event (type_of event) event a

  unfoldable pub consume : List ℕ → Aggregator J → Aggregator J
  unfolding take_event
  consume frame a =
      if is_done a
      then a
      else take_parsed (and_then (data_payload is_whitespace frame) json.parse) a

  abbrev pub with_output : List J → J → J
  with_output items response =
      if is_none_or is_empty (and_then (json.get "output" response) json.as_array)
      then json.insert_key "output" (json.array items) response
      else response

  abbrev pub detail_of : Option J → Option (List ℕ)
  detail_of none = none
  detail_of (some error) = some (truncate (json.to_string error))

  abbrev pub finish_with : List J → Option J → Option J → Aggregated J
  finish_with items error none = no_terminal (detail_of error)
  finish_with items error (some response) = finished (with_output items response)

  unfoldable pub finish : Aggregator J → Aggregated J
  finish a = finish_with (map (λ e. e.1) a.items) a.error a.terminal
