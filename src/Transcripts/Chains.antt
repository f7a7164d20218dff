-- ===== src/Transcripts/Chains.antt =====
-- Conversations as the store holds them, and those that `chain` reads back.
use subbier.Base.{
  ℕ, zero, suc, ◌≡◌, refl, sym, subst, ap, ◌∙◌, inl, inr, true, Option, none, some, List, [], ◌∷◌,
  ◌++◌, arith, Option-cases, Bool-cases,
}
use subbier.Base.OrdMap.{OrdMap, lookup}
use subbier.Transcripts.{
  Row, Store, walk, is_whole, items_of, assemble, Chain, chain, chain_found, max_depth,
}

-- The items of the turns from the root to `id`, oldest first, each turn's input before its output.
pub data Conversation (rows : OrdMap Row) : ℕ → List ℕ → Type 0 where
  root :
      {id : ℕ} (r : Row)
      → lookup id rows ≡ some r
      → r.parent ≡ none
      → Conversation rows id (r.input ++ r.output)
  turn :
      {id : ℕ} (r : Row) (parent : ℕ) {items : List ℕ}
      → lookup id rows ≡ some r
      → r.parent ≡ some parent
      → Conversation rows parent items
      → Conversation rows id (items ++ (r.input ++ r.output))

module _ (rows : OrdMap Row) (id : ℕ) (r : Row) (e : lookup id rows ≡ some r) where
  single : is_whole ((id, r) ∷ []) ≡ true → Conversation rows id (items_of ((id, r) ∷ []))
  unfolding is_whole items_of
  single h = elim (Option-cases r.parent) [
    | inl q ↦ root r e q
    | inr (p, q) ↦ absurd (ground arith)
  ]

  grown :
      (parent : ℕ) (ls : List (ℕ × Row))
      → r.parent ≡ some parent
      → (is_whole ls ≡ true → Conversation rows parent (items_of ls))
      → is_whole ((id, r) ∷ ls) ≡ true
      → Conversation rows id (items_of ((id, r) ∷ ls))
  unfolding is_whole items_of
  grown parent [] q ih h = absurd (ground arith)
  grown parent (m ∷ ls) q ih h =
      let k : is_whole (m ∷ ls) ≡ true = ground arith in turn r parent e q (ih k)

module _ (id : ℕ) (rows : OrdMap Row) where
  missing_zero : lookup id rows ≡ none → walk zero (some id) rows ≡ []
  unfolding walk
  missing_zero e = rw (e, walk) refl

  missing_suc : (left : ℕ) → lookup id rows ≡ none → walk (suc left) (some id) rows ≡ []
  unfolding walk
  missing_suc left e = rw (e, walk) refl

  pub found_zero : (r : Row) → lookup id rows ≡ some r → walk zero (some id) rows ≡ (id, r) ∷ []
  unfolding walk
  found_zero r e = rw (e, walk) refl

  pub found_suc :
      (left : ℕ) (r : Row)
      → lookup id rows ≡ some r
      → walk (suc left) (some id) rows ≡ (id, r) ∷ walk left r.parent rows
  unfolding walk
  found_suc left r e = rw (e, walk) refl

not_whole : is_whole [] ≡ true → ⊥
unfolding is_whole
not_whole h = cc

-- What is shown of a list of links.
abbrev Leads : OrdMap Row → ℕ → List (ℕ × Row) → Type 0
Leads rows id ls = is_whole ls ≡ true → Conversation rows id (items_of ls)

empty-Leads : (rows : OrdMap Row) (id : ℕ) → Leads rows id []
empty-Leads rows id h = absurd (not_whole h)

walk-Conversation : (left id : ℕ) (rows : OrdMap Row) → Leads rows id (walk left (some id) rows)
unfolding walk
walk-Conversation zero id rows = elim (Option-cases (lookup id rows)) [
  | inl e ↦ subst (Leads rows id) (sym (missing_zero id rows e)) (empty-Leads rows id)
  | inr (r, e) ↦ subst (Leads rows id) (sym (found_zero id rows r e)) (single rows id r e)
]
walk-Conversation (suc left) id rows = elim (Option-cases (lookup id rows)) [
  | inl e ↦ subst (Leads rows id) (sym (missing_suc id rows left e)) (empty-Leads rows id)
  | inr (r, e) ↦
      subst (Leads rows id) (sym (found_suc id rows left r e)) (elim (Option-cases r.parent) [
        | inl q ↦
            subst (λ o. Leads rows id ((id, r) ∷ walk left o rows)) (sym q) (single rows id r e)
        | inr (p, q) ↦
            subst (λ o. Leads rows id ((id, r) ∷ walk left o rows)) (sym q)
              (grown rows id r e p (walk left (some p) rows) q (walk-Conversation left p rows))
      ])
]

abbrev items_in : Option Chain → List ℕ
items_in none = []
items_in (some c) = c.items

assembled :
    (head : ℕ) (rows : OrdMap Row) (links : List (ℕ × Row)) (c : Chain)
    → (is_whole links ≡ true → Conversation rows head (items_of links))
    → assemble links ≡ some c
    → Conversation rows head c.items
unfolding assemble
assembled head rows [] c k h = cc
assembled head rows (l ∷ ls) c k h = elim (Bool-cases (is_whole (l ∷ ls))) [
  | inl w ↦
      let a : assemble (l ∷ ls) ≡ some (record { items = items_of (l ∷ ls); sub = l.1.sub }) =
        rw w refl in
      subst (Conversation rows head) (ap items_in (sym a ∙ h)) (k w)
  | inr w ↦ absurd (ground arith)
]

pub chain_found-answer :
    (links : List (ℕ × Row)) (now : ℕ) (s : Store) (o : Option Chain)
    → (chain_found links now s o).1 ≡ o
chain_found-answer links now s none = refl
chain_found-answer links now s (some c) = refl

-- A conversation that is read back is complete: its items are those of every turn from a root, which
-- has no parent, down to the turn asked for, in this order.
chain-Conversation :
    (head now : ℕ) (s : Store) (c : Chain)
    → (chain head now s).1 ≡ some c
    → Conversation s.rows head c.items
unfolding chain
chain-Conversation head now s c h =
    let links = walk max_depth (some head) s.rows in
    assembled head s.rows links c (walk-Conversation max_depth head s.rows)
      (sym (chain_found-answer links now s (assemble links)) ∙ h)
