-- ===== src/Codex.antt =====
-- crates/libsubby/src/proxy/codex.rs and proxy/transcript.rs: what a Codex request becomes before it
-- goes upstream. `prepare` reads the body, splices the stored conversation into it and rewrites it.
--
-- serde_json is an interface, Json: its values and objects with the operations that the code calls,
-- and the laws of a map. The store knows an id, a cache key and an item by a number, so `number`
-- gives the number of a text, and `item` the value of an item. Serialising a body and reading the
-- store do not fail.
pub mod Body
pub mod Conversation
pub mod Streaming
mod Samples
use subbier.Base.{
  ℕ, ◌≡◌, Bool, true, false, ◌&&◌, ◌||◌, not, Option, none, some, List, [], ◌∷◌, ◌++◌, map, String,
  same_string, if◌then◌else◌, is_some, unwrap_or, filter_some,
}
use subbier.Transcripts.{Limits, Store, Chain}
use subbier.Registry.{SubRegistry, id_of}
use subbier.Registry.Conversations.{read_chain, read_placement, hint_for, http_status}
use subbier.Balance.Selection.{Hints}

-- `serde_json::Value`, one level deep: `other` is a number.
pub data View (J M : Type 0) : Type 0 where
  null other : View J M
  boolean : Bool → View J M
  text : String → View J M
  array : List J → View J M
  object : M → View J M

pub record Json (J M : Type 0) : Type 0 where
  pub view : J → View J M
  pub make : View J M → J
  pub to_string : J → String
  pub empty : M
  pub get : String → M → Option J
  pub insert : String → J → M → M
  pub remove : String → M → M
  pub view-make : (v : View J M) → view (make v) ≡ v
  pub get-insert :
      (k q : String) (v : J) (m : M)
      → get q (insert k v m) ≡ (if same_string k q then some v else get q m)
  pub get-remove :
      (k q : String) (m : M) → get q (remove k m) ≡ (if same_string k q then none else get q m)

-- `DROPPED_KEYS`.
abbrev pub dropped_keys : List String
dropped_keys =
    "prompt_cache_key" ∷ "prompt_cache_retention" ∷ "prompt_cache_options" ∷ "max_output_tokens"
    ∷ []

-- `InvalidJson`, and so on: a rejection is its status.
pub data Rejectable (A : Type 0) : Type 0 where
  accepted : A → Rejectable A
  rejected : (status : ℕ) → Rejectable A

-- The number of an optional text.
abbrev pub number_of : (String → ℕ) → Option String → Option ℕ
number_of number none = none
number_of number (some t) = some (number t)

pub record Prepared (J M : Type 0) : Type 0 where
  pub body : M
  pub client_stream : Bool
  pub previous_response_id : Option String
  pub key : Option String
  pub hints : Hints
  pub delta : List J

module _ {J M : Type 0} (json : Json J M) where
  abbrev pub as_text : View J M → Option String
  as_text (text t) = some t
  as_text _ = none

  abbrev pub as_array : View J M → Option (List J)
  as_array (array items) = some items
  as_array _ = none

  abbrev pub view_at : Option J → View J M
  view_at none = null
  view_at (some value) = json.view value

  -- `previous_response_id`, on what the body holds.
  abbrev pub id_from : J → View J M → Option String
  id_from value null = none
  id_from value (text id) = some id
  id_from value _ = some (json.to_string value)

  abbrev pub id_at : Option J → Option String
  id_at none = none
  id_at (some value) = id_from value (json.view value)

  unfoldable pub previous_response_id : M → Option String
  previous_response_id body = id_at (json.get "previous_response_id" body)

  abbrev pub user_message : String → J
  user_message t = json.make (
      object (
        json.insert "content" (json.make (text t))
          (json.insert "role" (json.make (text "user")) json.empty)))

  abbrev pub items_from : J → View J M → List J
  items_from value (array items) = items
  items_from value null = []
  items_from value (text t) = user_message t ∷ []
  items_from value _ = value ∷ []

  unfoldable pub response_input_items : J → List J
  response_input_items input = items_from input (json.view input)

  -- `body.get("input").unwrap_or(&Value::Null)`.
  abbrev pub input_of : M → J
  input_of body = unwrap_or (json.make null) (json.get "input" body)

  unfoldable pub splice : M → List J → M
  unfolding response_input_items
  splice body items =
      json.remove "previous_response_id" (
        json.insert "input" (json.make (array (items ++ response_input_items (input_of body))))
          body)

  unfoldable pub remove_all : List String → M → M
  remove_all [] body = body
  remove_all (k ∷ ks) body = remove_all ks (json.remove k body)

  abbrev pub normalize_part_view : J → View J M → J
  normalize_part_view part (object m) = json.make (object (json.remove "prompt_cache_breakpoint" m))
  normalize_part_view part _ = part

  abbrev pub normalize_part : J → J
  normalize_part part = normalize_part_view part (json.view part)

  abbrev pub is_system : Option String → Bool
  is_system none = false
  is_system (some role) = same_string role "system"

  abbrev pub with_parts : M → Option (List J) → M
  with_parts m none = m
  with_parts m (some parts) = json.insert "content" (json.make (array (map normalize_part parts))) m

  unfoldable pub normalize_message : M → M
  normalize_message m =
      let roled =
        if is_system (as_text (view_at (json.get "role" m)))
        then json.insert "role" (json.make (text "developer")) m
        else m in
      let cut = json.remove "prompt_cache_breakpoint" roled in
      with_parts cut (as_array (view_at (json.get "content" cut)))

  abbrev pub normalize_item_view : J → View J M → J
  normalize_item_view item (object m) = json.make (object (normalize_message m))
  normalize_item_view item _ = item

  unfoldable pub normalize_item : J → J
  unfolding normalize_message
  normalize_item item = normalize_item_view item (json.view item)

  abbrev pub with_input : M → Option (List J) → M
  with_input body none = body
  with_input body (some items) =
      json.insert "input" (json.make (array (map normalize_item items))) body

  unfoldable pub normalize_for_codex_backend : M → M
  unfolding remove_all normalize_item
  normalize_for_codex_backend body =
      let cut = remove_all dropped_keys body in
      with_input cut (as_array (view_at (json.get "input" cut)))

  -- What stands between the reading of the store and the encoding.
  unfoldable pub rewrite : M → M
  unfolding normalize_for_codex_backend
  rewrite body =
      json.insert "stream" (json.make (boolean true))
        (normalize_for_codex_backend (json.insert "store" (json.make (boolean false)) body))

  abbrev pub is_true : View J M → Bool
  is_true (boolean true) = true
  is_true _ = false

  -- The cache key of the client, unless it is empty or no text.
  abbrev pub cache_key : M → Option String
  cache_key body =
      filter_some (λ k. not (same_string k ""))
        (as_text (view_at (json.get "prompt_cache_key" body)))

  -- The stream that the client wants, read after the rewriting.
  abbrev pub wants_stream : M → Bool
  wants_stream body = is_true (
      view_at (
        json.get "stream"
          (normalize_for_codex_backend (json.insert "store" (json.make (boolean false)) body))))

  module _ (number : String → ℕ) (item : ℕ → J) (limits : Limits) (now : ℕ)
      (entries : SubRegistry) where
    abbrev pub prepared : M → M → Hints → Prepared J M
    prepared original body hints = record {
      body = rewrite body;
      client_stream = wants_stream body;
      previous_response_id = previous_response_id original;
      key = cache_key original;
      hints = hints;
      delta = response_input_items (input_of original);
    }

    -- The body with the conversation that was found, if one was asked for.
    abbrev pub spliced : M → Option ℕ → Option (Option Chain) → Rejectable (Prepared J M)
    spliced body placed none =
        accepted (prepared body body (record { chain = none; key = hint_for entries placed }))
    spliced body placed (some none) = rejected http_status
    spliced body placed (some (some c)) = accepted (
        prepared body (splice body (map item c.items))
          (record { chain = id_of c.sub entries; key = hint_for entries placed }))

    abbrev pub prepare_object : M → Store → Store × Rejectable (Prepared J M)
    prepare_object body s =
        let c = read_chain now (number_of number (previous_response_id body)) s in
        let p = read_placement limits now (number_of number (cache_key body)) c.0 in
        (p.0, spliced body p.1 c.1)

    -- `prepare`, on what the bytes of the body parse to.
    abbrev pub prepare_view : View J M → Store → Store × Rejectable (Prepared J M)
    prepare_view (object body) s = prepare_object body s
    prepare_view _ s = (s, rejected 400)

    unfoldable pub prepare : Option J → Store → Store × Rejectable (Prepared J M)
    unfolding previous_response_id response_input_items splice rewrite normalize_for_codex_backend
        id_of
    prepare none s = (s, rejected 400)
    prepare (some value) s = prepare_view (json.view value) s
