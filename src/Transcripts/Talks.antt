-- ===== src/Transcripts/Talks.antt =====
-- Conversations in store/transcripts.rs by their number of turns, and the walks that find them.
use subbier.Base.{
  ℕ, zero, suc, ◌≤◌, ◌≡◌, refl, inl, inr, true, none, some, List, [], ◌∷◌, ◌++◌, arith, ◌==◌,
  Bool-cases,
}
use subbier.Base.OrdMap.{OrdMap, lookup, insert, lookup-insert}
use subbier.Transcripts.{Row, walk, is_whole, items_of, assemble}
use subbier.Transcripts.Chains.{found_zero, found_suc}

-- The items of a conversation of `n` turns that ends with the turn `id`.
pub data Talk (rows : OrdMap Row) : ℕ → ℕ → List ℕ → Type 0 where
  opening :
      {id : ℕ} (r : Row)
      → lookup id rows ≡ some r
      → r.parent ≡ none
      → Talk rows 1 id (r.input ++ r.output)
  reply :
      {n id : ℕ} (r : Row) (parent : ℕ) {items : List ℕ}
      → lookup id rows ≡ some r
      → r.parent ≡ some parent
      → Talk rows n parent items
      → Talk rows (suc n) id (items ++ (r.input ++ r.output))

-- A walk that finds the whole conversation.
pub record Finds (rows : OrdMap Row) (left id : ℕ) (items : List ℕ) : Type 0 where
  pub row : Row
  pub rest : List (ℕ × Row)
  pub stored : lookup id rows ≡ some row
  pub walks : walk left (some id) rows ≡ (id, row) ∷ rest
  pub whole : is_whole ((id, row) ∷ rest) ≡ true
  pub gives : items_of ((id, row) ∷ rest) ≡ items

walk-nothing : (left : ℕ) (rows : OrdMap Row) → walk left none rows ≡ []
unfolding walk
walk-nothing left rows = refl

opening-Finds :
    (rows : OrdMap Row) (left id : ℕ) (r : Row)
    → lookup id rows ≡ some r
    → r.parent ≡ none
    → Finds rows left id (r.input ++ r.output)
unfolding is_whole items_of
opening-Finds rows zero id r e p = record {
  row = r;
  rest = [];
  stored = e;
  walks = found_zero id rows r e;
  whole = rw p refl;
  gives = refl;
}
opening-Finds rows (suc left) id r e p = record {
  row = r;
  rest = [];
  stored = e;
  walks = rw (found_suc id rows left r e, p, walk-nothing left rows) refl;
  whole = rw p refl;
  gives = refl;
}

reply-Finds :
    (rows : OrdMap Row) (left id parent : ℕ) (r : Row) (items : List ℕ)
    → lookup id rows ≡ some r
    → r.parent ≡ some parent
    → Finds rows left parent items
    → Finds rows (suc left) id (items ++ (r.input ++ r.output))
unfolding is_whole items_of
reply-Finds rows left id parent r items e p f = record {
  row = r;
  rest = (parent, f.row) ∷ f.rest;
  stored = e;
  walks = rw (found_suc id rows left r e, p, f.walks) refl;
  whole = let same : (parent == parent) ≡ true = ground arith in let w = f.whole in rw (p, same) w;
  gives = rw f.gives refl;
}

Talk-positive : {rows : OrdMap Row} {n id : ℕ} {items : List ℕ} → Talk rows n id items → 1 ≤ n
Talk-positive (opening r e p) = omega arith
Talk-positive (reply r parent e p t) = let q = Talk-positive t in omega (arith, q)

pub Talk-Finds :
    {rows : OrdMap Row} {n id : ℕ} {items : List ℕ} (left : ℕ)
    → Talk rows n id items
    → n ≤ suc left
    → Finds rows left id items
Talk-Finds {rows} {id = id} left (opening r e p) l = opening-Finds rows left id r e p
Talk-Finds {rows} {id = id} zero (reply {n} r parent {items} e p t) l =
    absurd (let q = Talk-positive t in omega (arith, q, l))
Talk-Finds {rows} {id = id} (suc left) (reply {n} r parent {items} e p t) l =
    reply-Finds rows left id parent r items e p (Talk-Finds left t (omega (arith, l)))

pub assemble-Finds :
    (rows : OrdMap Row) (left id : ℕ) (items : List ℕ) (f : Finds rows left id items)
    → assemble (walk left (some id) rows) ≡ some (record { items = items; sub = f.row.sub })
unfolding assemble
assemble-Finds rows left id items f = rw f.walks (rw (f.whole, f.gives) refl)

kept :
    (rows : OrdMap Row) (new id : ℕ) (row r : Row)
    → lookup new rows ≡ none
    → lookup id rows ≡ some r
    → lookup id (insert new row rows) ≡ some r
kept rows new id row r f e = elim (Bool-cases (new == id)) [
  | inl q ↦
      absurd
        (let i : new ≡ id = ground arith in let z : lookup new rows ≡ some r = rw (← i) at e in cc)
  | inr q ↦ let l = lookup-insert new id row rows in rw (l, q) e
]

-- A row under a new id leaves the conversations alone.
pub Talk-insert :
    {rows : OrdMap Row} {n id : ℕ} {items : List ℕ} (new : ℕ) (row : Row)
    → lookup new rows ≡ none
    → Talk rows n id items
    → Talk (insert new row rows) n id items
Talk-insert {rows} {id = id} new row f (opening r e p) = opening r (kept rows new id row r f e) p
Talk-insert {rows} {id = id} new row f (reply r parent e p t) =
    reply r parent (kept rows new id row r f e) p (Talk-insert new row f t)
