-- ===== src/Codex/Samples.antt =====
-- JSON values as trees, and a request of two turns, for the theorems on proxy/codex.rs.
use subbier.Base.{
  ℕ, ◌≡◌, ◌∙◌, refl, ap, inl, inr, arith, Bool, false, Option, none, some, List, [], ◌∷◌, ◌++◌, map,
  String, same_string, same_string_iff, if◌then◌else◌, Bool-cases,
}
use subbier.Base.OrdMap.{lookup}
use subbier.Transcripts.{Store, Turn, default_limits, remember}
use subbier.Registry.{id_of}
use subbier.Registry.Conversations.{read_chain}
use subbier.Codex.{
  View, null, other, boolean, text, array, object, Json, Prepared, prepared, prepare,
  previous_response_id, number_of, normalize_item, response_input_items, input_of,
}
use subbier.Codex.Body.{sent, prepare-sent}
use subbier.Codex.Conversation.{SentWith, remember-prepare}

mutual
  data Tree : Type 0 where
    nothing number : Tree
    flag : Bool → Tree
    word : String → Tree
    many : Trees → Tree
    fields : Fields → Tree

  data Trees : Type 0 where
    last : Trees
    next : Tree → Trees → Trees

  data Fields : Type 0 where
    bare : Fields
    with : String → Tree → Fields → Fields

abbrev to_list : Trees → List Tree
to_list last = []
to_list (next t ts) = t ∷ to_list ts

abbrev of_list : List Tree → Trees
of_list [] = last
of_list (t ∷ ts) = next t (of_list ts)

to_list-of_list : (ts : List Tree) → to_list (of_list ts) ≡ ts
to_list-of_list [] = refl
to_list-of_list (t ∷ ts) = ap (λ xs. t ∷ xs) (to_list-of_list ts)

abbrev view_tree : Tree → View Tree Fields
view_tree nothing = null
view_tree number = other
view_tree (flag b) = boolean b
view_tree (word t) = text t
view_tree (many ts) = array (to_list ts)
view_tree (fields m) = object m

abbrev make_tree : View Tree Fields → Tree
make_tree null = nothing
make_tree other = number
make_tree (boolean b) = flag b
make_tree (text t) = word t
make_tree (array ts) = many (of_list ts)
make_tree (object m) = fields m

view-make_tree : (v : View Tree Fields) → view_tree (make_tree v) ≡ v
view-make_tree null = refl
view-make_tree other = refl
view-make_tree (boolean b) = refl
view-make_tree (text t) = refl
view-make_tree (array ts) = ap array (to_list-of_list ts)
view-make_tree (object m) = refl

abbrev get_field : String → Fields → Option Tree
get_field q bare = none
get_field q (with k v m) = if same_string k q then some v else get_field q m

abbrev remove_field : String → Fields → Fields
remove_field k bare = bare
remove_field k (with j v m) =
    if same_string j k then remove_field k m else with j v (remove_field k m)

get-remove_field :
    (k q : String) (m : Fields)
    → get_field q (remove_field k m) ≡ (if same_string k q then none else get_field q m)
get-remove_field k q bare = elim (Bool-cases (same_string k q)) [
  | inl y ↦ rw y refl
  | inr n ↦ rw n refl
]
get-remove_field k q (with j v m) = elim (Bool-cases (same_string j k)) [
  | inl y ↦
      let e : j ≡ k = (same_string_iff j k).0 y in
      rw y (
        get-remove_field k q m ∙ elim (Bool-cases (same_string k q)) [
          | inl z ↦ rw z refl
          | inr n ↦ let w : same_string j q ≡ false = rw e n in rw (n, w) refl
        ])
  | inr n ↦ rw n (elim (Bool-cases (same_string k q)) [
    | inl z ↦
        let e : k ≡ q = (same_string_iff k q).0 z in
        let w : same_string j q ≡ false = rw e at n in
        let r : get_field q (remove_field k m) ≡ none = get-remove_field k q m ∙ rw z refl in
        rw (z, w) r
    | inr l ↦
        rw l (ap (λ o. if same_string j q then some v else o) (get-remove_field k q m ∙ rw l refl))
  ])
]

abbrev trees : Json Tree Fields
trees = record {
  view = view_tree;
  make = make_tree;
  to_string = λ t. "";
  empty = bare;
  get = get_field;
  insert = with;
  remove = remove_field;
  view-make = view-make_tree;
  get-insert = λ k q v m. refl;
  get-remove = get-remove_field;
}

abbrev number_of_text : String → ℕ
number_of_text t = if same_string t "resp_1" then 1 else 2

abbrev item_of : ℕ → Tree
item_of n = fields (with "role" (word "system") bare)

abbrev empty_store : Store
empty_store = record { rows = []; placements = []; bytes = 0 }

abbrev opening : Turn
opening = record {
  id = 1;
  parent = none;
  sub = 7;
  input = 10 ∷ [];
  output = 11 ∷ [];
  serialised = 40;
}

-- What the client sends in the second turn.
abbrev follow_up : Fields
follow_up =
    with "previous_response_id" (word "resp_1")
      (with "input" (word "go on") (with "prompt_cache_key" (word "k") bare))

remember-prepare_example :
    SentWith trees
      (map
        (normalize_item trees)
        (map item_of (10 ∷ 11 ∷ []) ++ response_input_items trees (input_of trees follow_up)))
      (id_of 7 [])
      (prepare trees number_of_text item_of default_limits 20 []
        (some (fields follow_up))
        (remember default_limits opening 10 empty_store)).1
unfolding lookup previous_response_id
remember-prepare_example =
    remember-prepare trees number_of_text item_of default_limits [] opening 10 20 0 [] empty_store
      (fields follow_up) follow_up "resp_1" refl (refl, refl) (omega arith) tt (omega arith) refl
      refl refl

-- A first request, which names no conversation.
abbrev first_request : Fields
first_request = with "input" (word "hello") (with "max_output_tokens" number bare)

abbrev goes_out : Prepared Tree Fields
goes_out =
    prepared trees number_of_text item_of default_limits 20 [] first_request first_request
      (record { chain = none; key = none })

prepare-sent_example :
    get_field "max_output_tokens" goes_out.body
    ≡ sent trees item_of first_request
        (read_chain 20
          (number_of number_of_text (previous_response_id trees first_request))
          empty_store).1
        "max_output_tokens"
unfolding prepare previous_response_id
prepare-sent_example =
    prepare-sent trees number_of_text item_of default_limits 20 [] (fields first_request)
      first_request empty_store goes_out "max_output_tokens" refl refl
