-- ===== src/Codex/Body.antt =====
-- The fields of the body that prepare of proxy/codex.rs sends upstream.
use subbier.Base.{
  ℕ, ◌≡◌, ◌∙◌, refl, ap, sym, subst, inl, inr, Bool, true, false, ◌||◌, ◌&&◌, Option, none, some,
  List, [], ◌∷◌, ◌++◌, map, String, same_string, same_string_iff, if◌then◌else◌, Bool-cases,
  Option-cases, any,
}
use subbier.Transcripts.{Limits, Store, Chain}
use subbier.Registry.{SubRegistry}
use subbier.Registry.Conversations.{read_chain}
use subbier.Codex.{
  object, array, boolean, Json, dropped_keys, accepted, rejected, Prepared, as_array, view_at,
  input_of, response_input_items, splice, remove_all, normalize_item, normalize_for_codex_backend,
  with_input, rewrite, previous_response_id, number_of, prepared, spliced, prepare_object, prepare,
}

accepted-injective : {A : Type 0} {a b : A} → accepted a ≡ accepted b → a ≡ b
accepted-injective h = cc

not_accepted : {A : Type 0} {a : A} {status : ℕ} → rejected status ≡ accepted a → ⊥
not_accepted h = cc

module _ {J M : Type 0} (json : Json J M) where
  get-remove_all :
      (ks : List String) (q : String) (m : M)
      → json.get q (remove_all json ks m)
        ≡ (if any (λ k. same_string k q) ks then none else json.get q m)
  unfolding remove_all
  get-remove_all [] q m = refl
  get-remove_all (k ∷ ks) q m =
      get-remove_all ks q (json.remove k m)
      ∙ (ap (λ o. if any (λ k. same_string k q) ks then none else o) (json.get-remove k q m)
          ∙ either (same_string k q) (any (λ k. same_string k q) ks) (json.get q m))
    where
      either :
          {A : Type 0} (a b : Bool) (o : Option A)
          → (if b then none else if a then none else o) ≡ (if a || b then none else o)
      either true true o = refl
      either true false o = refl
      either false b o = refl

  abbrev sent_items : J → Option (List J) → J
  sent_items input none = input
  sent_items input (some items) = json.make (array (map (normalize_item json) items))

  -- What goes upstream as the input: the items, rewritten, or what is no list as it is.
  abbrev pub sent_input : Option J → Option J
  sent_input none = none
  sent_input (some input) = some (sent_items input (as_array json (json.view input)))

  -- A field of the rewritten body.
  abbrev rewritten : M → String → Option J
  rewritten body q =
      if same_string "stream" q
      then some (json.make (boolean true))
      else if same_string "input" q
      then sent_input (json.get "input" body)
      else if any (λ k. same_string k q) dropped_keys
      then none
      else if same_string "store" q
      then some (json.make (boolean false))
      else json.get q body

  abbrev cut : M → M
  cut body = remove_all json dropped_keys (json.insert "store" (json.make (boolean false)) body)

  get-cut :
      (body : M) (q : String)
      → json.get q (cut body) ≡ (
          if any (λ k. same_string k q) dropped_keys
          then none
          else if same_string "store" q
          then some (json.make (boolean false))
          else json.get q body)
  get-cut body q =
      get-remove_all dropped_keys q (json.insert "store" (json.make (boolean false)) body)
      ∙ ap (λ o. if any (λ k. same_string k q) dropped_keys then none else o)
          (json.get-insert "store" q (json.make (boolean false)) body)

  get-cut_input : (body : M) → json.get "input" (cut body) ≡ json.get "input" body
  get-cut_input body = get-cut body "input"

  get-unchanged :
      (q : String) (m : M) (o : Option J)
      → json.get "input" m ≡ o
      → json.get q m ≡ (if same_string "input" q then o else json.get q m)
  get-unchanged q m o e = elim (Bool-cases (same_string "input" q)) [
    | inl y ↦
        let z : "input" ≡ q = (same_string_iff "input" q).0 y in
        rw y (subst (λ x. json.get x m ≡ o) z e)
    | inr n ↦ rw n refl
  ]

  get-with_input :
      (q : String) (m : M) (o : Option J)
      → json.get "input" m ≡ o
      → json.get q (with_input json m (as_array json (view_at json o)))
        ≡ (if same_string "input" q then sent_input o else json.get q m)
  get-with_input q m none e = get-unchanged q m none e
  get-with_input q m (some value) e = elim (Option-cases (as_array json (json.view value))) [
    | inl z ↦ rw z (get-unchanged q m (some value) e)
    | inr (items, z) ↦
        rw z (json.get-insert "input" q (json.make (array (map (normalize_item json) items))) m)
  ]

  get-rewrite : (body : M) (q : String) → json.get q (rewrite json body) ≡ rewritten body q
  unfolding rewrite normalize_for_codex_backend
  get-rewrite body q =
      json.get-insert "stream" q (json.make (boolean true)) _
      ∙ ap (λ o. if same_string "stream" q then some (json.make (boolean true)) else o)
          (get-with_input q (cut body) (json.get "input" (cut body)) refl
            ∙ (ap (λ o. if same_string "input" q then sent_input o else json.get q (cut body))
                  (get-cut_input body)
                ∙ ap (λ o. if same_string "input" q then sent_input (json.get "input" body) else o)
                    (get-cut body q)))

  -- The input that the conversation that was found makes of the client's.
  abbrev pub joined : (ℕ → J) → M → Option (Option Chain) → Option J
  joined item body (some (some c)) =
      some (json.make (array (map item c.items ++ response_input_items json (input_of json body))))
  joined item body _ = json.get "input" body

  -- Whether a conversation was spliced in, which takes its id out of the body.
  abbrev pub is_chained : Option (Option Chain) → Bool
  is_chained (some (some c)) = true
  is_chained _ = false

  -- A field of the body that goes upstream.
  abbrev pub sent : (ℕ → J) → M → Option (Option Chain) → String → Option J
  sent item body c q =
      if same_string "stream" q
      then some (json.make (boolean true))
      else if same_string "input" q
      then sent_input (joined item body c)
      else if any (λ k. same_string k q) dropped_keys
      then none
      else if same_string "store" q
      then some (json.make (boolean false))
      else if is_chained c && same_string "previous_response_id" q
      then none
      else json.get q body

  get-splice :
      (body : M) (items : List J) (q : String)
      → json.get q (splice json body items) ≡ (
          if same_string "previous_response_id" q
          then none
          else if same_string "input" q
          then some (json.make (array (items ++ response_input_items json (input_of json body))))
          else json.get q body)
  unfolding splice
  get-splice body items q =
      json.get-remove "previous_response_id" q _
      ∙ ap (λ o. if same_string "previous_response_id" q then none else o)
          (json.get-insert "input" q _ body)

  spliced-rewritten :
      (body : M) (items : List J) (q : String)
      → rewritten (splice json body items) q ≡ (
          if same_string "stream" q
          then some (json.make (boolean true))
          else if same_string "input" q
          then sent_input
              (some (json.make (array (items ++ response_input_items json (input_of json body)))))
          else if any (λ k. same_string k q) dropped_keys
          then none
          else if same_string "store" q
          then some (json.make (boolean false))
          else if same_string "previous_response_id" q
          then none
          else json.get q body)
  spliced-rewritten body items q = elim (Bool-cases (same_string "input" q)) [
    | inl y ↦ rw y (
        ap (λ o. if same_string "stream" q then some (json.make (boolean true)) else sent_input o)
          (get-splice body items "input"))
    | inr n ↦
        let g : json.get q (splice json body items)
            ≡ (if same_string "previous_response_id" q then none else json.get q body) =
          (let h = get-splice body items q in rw n at h) in
        rw n (
          ap
            (λ o.
              if same_string "stream" q
              then some (json.make (boolean true))
              else if any (λ k. same_string k q) dropped_keys
              then none
              else if same_string "store" q
              then some (json.make (boolean false))
              else o)
            g)
  ]

  get-rewrite-splice :
      (item : ℕ → J) (body : M) (c : Chain) (q : String)
      → json.get q (rewrite json (splice json body (map item c.items)))
        ≡ sent item body (some (some c)) q
  get-rewrite-splice item body c q =
      get-rewrite (splice json body (map item c.items)) q
      ∙ spliced-rewritten body (map item c.items) q

  module _ (number : String → ℕ) (item : ℕ → J) (limits : Limits) (now : ℕ)
      (entries : SubRegistry) where
    spliced-sent :
        (body : M) (placed : Option ℕ) (c : Option (Option Chain)) (p : Prepared J M) (q : String)
        → spliced json number item limits now entries body placed c ≡ accepted p
        → json.get q p.body ≡ sent item body c q
    spliced-sent body placed none p q h =
        let z : prepared json number item limits now entries body body _ ≡ p =
          accepted-injective h in
        ap (λ x. json.get q x.body) (sym z) ∙ get-rewrite body q
    spliced-sent body placed (some none) p q h = absurd (not_accepted h)
    spliced-sent body placed (some (some c)) p q h =
        let z : prepared json number item limits now entries body
              (splice json body (map item c.items)) _
            ≡ p =
          accepted-injective h in
        ap (λ x. json.get q x.body) (sym z) ∙ get-rewrite-splice item body c q

    -- What `prepare` sends upstream for a body that it accepts, field by field: `stream` is true and
    -- `store` is false; the input is the items of the conversation that was found before those of
    -- the client, or the client's own, rewritten; the four fields that the backend does not take
    -- are gone, and so is the id of a conversation that was found; every other field is the
    -- client's.
    pub prepare-sent :
        (value : J) (body : M) (s : Store) (p : Prepared J M) (q : String)
        → json.view value ≡ object body
        → (prepare json number item limits now entries (some value) s).1 ≡ accepted p
        → json.get q p.body
          ≡ sent item body
              (read_chain now (number_of number (previous_response_id json body)) s).1
              q
    unfolding prepare
    prepare-sent value body s p q v h =
        let g : (prepare_object json number item limits now entries body s).1 ≡ accepted p =
          (rw v at h) in
        spliced-sent body _ _ p q g
