-- ===== src/Sse/Rewrite.antt =====
-- rewrite_previous_response_id of crates/libsubby/src/proxy/sse.rs, which puts the client's id back
-- into a frame.
--
-- serde_json's values are those of the aggregator's Json; `string` makes one of a text.
pub mod Lines
use subbier.Base.{
  ℕ, Bool, true, false, Option, none, some, List, [], ◌∷◌, ◌++◌, if◌then◌else◌, codes, strip_prefix,
  is_some,
}
use subbier.Sse.Payload.{split_lines, data_payload}
use subbier.Sse.Aggregate.{Json, and_then}

abbrev pub is_data : List ℕ → Bool
is_data line = is_some (strip_prefix (codes "data:") line)

-- The loop over the lines, with `replaced`.
unfoldable pub replace_lines : List ℕ → Bool → List (List ℕ) → List (List ℕ)
replace_lines rewritten replaced [] = []
replace_lines rewritten replaced (line ∷ lines) = elim (strip_prefix (codes "data:") line) [
  | some rest ↦ elim replaced [
    | true ↦ replace_lines rewritten true lines
    | false ↦ rewritten ∷ replace_lines rewritten true lines
  ]
  | none ↦ line ∷ replace_lines rewritten replaced lines
]

-- `join("\n")`.
unfoldable pub join : List (List ℕ) → List ℕ
join [] = []
join (line ∷ []) = line
join (line ∷ next ∷ lines) = line ++ (10 ∷ join (next ∷ lines))

module _ {J : Type 0} (json : Json J) where
  abbrev pub object_of : J → Option J
  object_of value = if json.is_object value then some value else none

  abbrev pub replaced_frame : List ℕ → J → List ℕ
  replaced_frame frame event =
      join (replace_lines (codes "data: " ++ json.to_string event) false (split_lines frame))

module _ {J : Type 0} (json : Json J) (string : List ℕ → J) where
  abbrev pub with_id : List ℕ → J → J → J
  with_id id event response =
      json.insert_key "response" (json.insert_key "previous_response_id" (string id) response) event

  abbrev pub rewrite_response : List ℕ → List ℕ → J → Option J → List ℕ
  rewrite_response frame id event none = frame
  rewrite_response frame id event (some response) =
      replaced_frame json frame (with_id id event response)

  abbrev pub rewrite_event : List ℕ → List ℕ → Option J → List ℕ
  rewrite_event frame id none = frame
  rewrite_event frame id (some event) =
      rewrite_response frame id event (and_then (json.get "response" event) (object_of json))

  abbrev pub rewrite_previous_response_id : (ℕ → Bool) → List ℕ → List ℕ → List ℕ
  rewrite_previous_response_id is_whitespace frame id =
      rewrite_event frame id (and_then (data_payload is_whitespace frame) json.parse)
