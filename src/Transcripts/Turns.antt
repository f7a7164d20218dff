-- ===== src/Transcripts/Turns.antt =====
-- A turn remembered by store/transcripts.rs and read back.
use subbier.Base.{
  ℕ, zero, suc, ◌+◌, ◌-◌, ◌≤◌, ◌≡◌, refl, sym, ap, ◌∙◌, inl, inr, false, Option, none, some, List,
  [], ◌∷◌, ◌++◌, arith, length, ltb, leb, ◌==◌, All, Bool-cases,
}
use subbier.Base.OrdMap.{OrdMap, lookup, insert, retain, lookup-insert}
use subbier.Transcripts.{
  Limits, Turn, Row, Store, stored_bytes, shrink, expire, evict, bytes_of, row_of, remember, cutoff,
  walk, assemble, chain, max_depth,
}
use subbier.Transcripts.Chains.{chain_found-answer}
use subbier.Transcripts.Talks.{Talk, opening, reply, Finds, Talk-Finds, assemble-Finds, Talk-insert}

All-insert :
    (P : ℕ × Row → Type 0) (k : ℕ) (v : Row) (m : OrdMap Row)
    → P (k, v)
    → All P m
    → All P (insert k v m)
unfolding insert
All-insert P k v [] p h = (p, tt)
All-insert P k v ((j, w) ∷ m) p h = elim (Bool-cases (ltb k j)) [
  | inl e ↦ rw e (p, h)
  | inr e ↦ elim (Bool-cases (j == k)) [
    | inl q ↦ rw (e, q) (p, h.1)
    | inr q ↦ rw (e, q) (h.0, All-insert P k v m p h.1)
  ]
]

-- No row is older than the limit.
abbrev pub AllRecent : ℕ → OrdMap Row → Type 0
AllRecent limit = All (λ e. limit ≤ e.1.touched_at)

nothing_expired :
    (limit : ℕ) (m : OrdMap Row)
    → AllRecent limit m
    → stored_bytes (retain (λ r. ltb r.touched_at limit) m) ≡ 0
unfolding stored_bytes retain
nothing_expired limit [] h = refl
nothing_expired limit ((k, r) ∷ m) h =
    let e : ltb r.touched_at limit ≡ false = let q = h.0 in ground arith in
    rw e (nothing_expired limit m h.1)

shrink-fitting :
    (left : ℕ) (limits : Limits) (s : Store) → s.bytes ≤ limits.max_bytes → shrink left limits s ≡ s
unfolding shrink
shrink-fitting zero limits s h = refl
shrink-fitting (suc left) limits s h =
    let e : ltb limits.max_bytes s.bytes ≡ false = ground arith in rw e refl

-- Nothing is evicted from a store that fits and in which nothing has expired.
evict-rows :
    (limits : Limits) (now : ℕ) (s : Store)
    → AllRecent (cutoff limits now) s.rows
    → s.bytes ≤ limits.max_bytes
    → (evict limits now s).rows ≡ s.rows
unfolding evict
evict-rows limits now s h b =
    let placed = record s {
      placements = retain (λ p. leb (cutoff limits now) p.touched_at) s.placements;
    } in
    let z = nothing_expired (cutoff limits now) s.rows h in
    let e : expire (cutoff limits now) placed ≡ placed = rw z refl in
    ap (λ k. (shrink (length k.rows) limits k).rows) e
    ∙ ap (λ k. k.rows) (shrink-fitting (length placed.rows) limits placed b)

remember-rows :
    (limits : Limits) (turn : Turn) (now : ℕ) (s : Store)
    → lookup turn.id s.rows ≡ none
    → AllRecent (cutoff limits now) s.rows
    → s.bytes + turn.serialised ≤ limits.max_bytes
    → (remember limits turn now s).rows ≡ insert turn.id (row_of turn now s.rows) s.rows
unfolding remember
remember-rows limits turn now s f h b =
    let e : ltb limits.max_bytes turn.serialised ≡ false = ground (arith, b) in
    let row = row_of turn now s.rows in
    let bytes = s.bytes + turn.serialised - bytes_of (lookup turn.id s.rows) in
    let fits : bytes ≤ limits.max_bytes = rw f (omega (arith, b)) in
    rw e (
      evict-rows limits now (record s { rows = insert turn.id row s.rows; bytes = bytes })
        (All-insert (λ e. cutoff limits now ≤ e.1.touched_at) turn.id row s.rows (omega arith) h)
        fits)

-- What the turn continues: nothing, or a conversation of `n` turns.
abbrev pub Continues : OrdMap Row → Option ℕ → ℕ → List ℕ → Type 0
Continues rows none n items = (n ≡ 0) × (items ≡ [])
Continues rows (some parent) n items = Talk rows n parent items

new_turn :
    (turn : Turn) (now : ℕ) (rows : OrdMap Row) (n : ℕ) (items : List ℕ) (parent : Option ℕ)
    → turn.parent ≡ parent
    → lookup turn.id rows ≡ none
    → Continues rows parent n items
    → Talk
        (insert turn.id (row_of turn now rows) rows)
        (suc n)
        turn.id
        (items ++ (turn.input ++ turn.output))
new_turn turn now rows n items none p f c =
    let row = row_of turn now rows in
    let l = lookup-insert turn.id turn.id row rows in
    let e : lookup turn.id (insert turn.id row rows) ≡ some row = ground (arith, l) in
    rw (c.0, c.1) (opening row e p)
new_turn turn now rows n items (some parent) p f t =
    let row = row_of turn now rows in
    let l = lookup-insert turn.id turn.id row rows in
    let e : lookup turn.id (insert turn.id row rows) ≡ some row = ground (arith, l) in
    reply row parent e p (Talk-insert turn.id row f t)

-- The row of the turn is what the walk begins with.
found_sub :
    (turn : Turn) (now : ℕ) (rows : OrdMap Row) (left : ℕ) (items : List ℕ)
    → (f : Finds (insert turn.id (row_of turn now rows) rows) left turn.id items)
    → f.row.sub ≡ turn.sub
found_sub turn now rows left items f =
    let row = row_of turn now rows in
    let l = lookup-insert turn.id turn.id row rows in
    let e : lookup turn.id (insert turn.id row rows) ≡ some row = ground (arith, l) in
    let q : some row ≡ some f.row = sym e ∙ f.stored in
    let z : row ≡ f.row = cc in ap (λ r. r.sub) (sym z)

-- A turn with a new id that opens a conversation, or continues a stored one of at most `max_depth`
-- turns, is read back at once with all the items of the conversation, its own last, and with its
-- account, provided that nothing stored has expired and that there is room for the turn.
pub remember-chain :
    (limits : Limits) (turn : Turn) (now later n : ℕ) (items : List ℕ) (s : Store)
    → lookup turn.id s.rows ≡ none
    → Continues s.rows turn.parent n items
    → n ≤ max_depth
    → AllRecent (cutoff limits now) s.rows
    → s.bytes + turn.serialised ≤ limits.max_bytes
    → (chain turn.id later (remember limits turn now s)).1
      ≡ some (record { items = items ++ (turn.input ++ turn.output); sub = turn.sub })
unfolding chain
remember-chain limits turn now later n items s f c d h b =
    let rows = insert turn.id (row_of turn now s.rows) s.rows in
    let t = new_turn turn now s.rows n items turn.parent refl f c in
    let g = Talk-Finds max_depth t (omega (arith, d)) in
    let a = assemble-Finds rows max_depth turn.id (items ++ (turn.input ++ turn.output)) g in
    let q = remember-rows limits turn now s f h b in
    let v = found_sub turn now s.rows max_depth (items ++ (turn.input ++ turn.output)) g in
    chain_found-answer (walk max_depth (some turn.id) (remember limits turn now s).rows) later
      (remember limits turn now s)
      (assemble (walk max_depth (some turn.id) (remember limits turn now s).rows))
    ∙ rw (q, a, v) refl
