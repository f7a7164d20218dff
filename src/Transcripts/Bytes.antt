-- ===== src/Transcripts/Bytes.antt =====
-- The running total of bytes that store/transcripts.rs keeps beside its rows.
use subbier.Base.{
  ℕ, zero, suc, ◌+◌, ◌-◌, ◌≤◌, ◌≡◌, refl, inl, inr, Option, none, some, List, [], ◌∷◌, arith,
  length, ltb, leb, Bool-cases, Option-cases,
}
use subbier.Base.OrdMap.{
  OrdMap, IsSorted, lookup, insert, remove, retain, insert-IsSorted, remove-IsSorted,
  retain-IsSorted,
}
use subbier.Transcripts.{
  Limits, Turn, Row, Store, Placement, stored_bytes, oldest, shrink, is_recent, expire, evict,
  bytes_of, row_of, remember, cutoff, touched, touch, walk, assemble, chain_found, chain, Chain,
  max_depth, placement, place, placed,
}
use subbier.Transcripts.Sums.{
  stored_bytes-insert, stored_bytes-remove, stored_bytes-retain, length-remove, no_rows,
  oldest-lookup, oldest-none,
}

-- The rows are sorted by key, and the running total is their sum.
pub record IsTotalled (s : Store) : Type 0 where
  pub sorted : IsSorted s.rows
  pub totalled : s.bytes ≡ stored_bytes s.rows

-- The running total is right, and at most `max_bytes`.
pub record IsWithin (limits : Limits) (s : Store) : Type 0 where
  pub is_totalled : IsTotalled s
  pub fits : s.bytes ≤ limits.max_bytes

shrink-IsWithin :
    (left : ℕ) (limits : Limits) (s : Store)
    → length s.rows ≤ left
    → IsTotalled s
    → IsWithin limits (shrink left limits s)
unfolding shrink stored_bytes
shrink-IsWithin zero limits s h v = record {
  is_totalled = v;
  fits = omega (arith, v.totalled, no_rows s.rows h);
}
shrink-IsWithin (suc left) limits s h v = elim (Bool-cases (ltb limits.max_bytes s.bytes)) [
  | inr e ↦ rw e (record { is_totalled = v; fits = ground arith })
  | inl e ↦ elim (Option-cases (oldest s.rows)) [
    | inl o ↦ absurd (
        let z = no_rows s.rows (rw (oldest-none s.rows o) (omega arith)) in
        let t = v.totalled in ground arith)
    | inr (w, o) ↦
        let l = oldest-lookup 0 s.rows w.0 w.1 v.sorted o in
        let n = length-remove w.0 s.rows w.1 l in
        let t = stored_bytes-remove w.0 s.rows in
        rw (e, o)
          (shrink-IsWithin left limits
            (record s { rows = remove w.0 s.rows; bytes = s.bytes - w.1.bytes })
            (omega (arith, n, h))
            (record {
              sorted = remove-IsSorted w.0 s.rows v.sorted;
              totalled =
                  let t2 : stored_bytes (remove w.0 s.rows) + w.1.bytes ≡ stored_bytes s.rows =
                    rw l at t in
                  omega (arith, t2, v.totalled);
            }))
  ]
]

expire-IsTotalled : (limit : ℕ) (s : Store) → IsTotalled s → IsTotalled (expire limit s)
expire-IsTotalled limit s v =
    elim (Bool-cases (ltb 0 (stored_bytes (retain (λ r. ltb r.touched_at limit) s.rows)))) [
      | inr e ↦ rw e v
      | inl e ↦ rw e (record {
        sorted = retain-IsSorted (is_recent limit) s.rows v.sorted;
        totalled = let t = stored_bytes-retain limit s.rows in omega (arith, t, v.totalled);
      })
    ]

evict-IsWithin :
    (limits : Limits) (now : ℕ) (s : Store) → IsTotalled s → IsWithin limits (evict limits now s)
unfolding evict
evict-IsWithin limits now s v =
    let kept =
      expire (cutoff limits now) (record s {
        placements = retain (λ p. leb (cutoff limits now) p.touched_at) s.placements;
      }) in
    shrink-IsWithin (length kept.rows) limits kept (omega arith) (
      expire-IsTotalled (cutoff limits now)
        (record s { placements = retain (λ p. leb (cutoff limits now) p.touched_at) s.placements })
        (record { sorted = v.sorted; totalled = v.totalled }))

inserted-IsTotalled :
    (turn : Turn) (now : ℕ) (s : Store)
    → IsTotalled s
    → IsTotalled (record s {
      rows = insert turn.id (row_of turn now s.rows) s.rows;
      bytes = s.bytes + turn.serialised - bytes_of (lookup turn.id s.rows);
    })
inserted-IsTotalled turn now s v =
    let t = stored_bytes-insert turn.id 0 (row_of turn now s.rows) s.rows v.sorted in
    record {
      sorted = insert-IsSorted turn.id (row_of turn now s.rows) s.rows v.sorted;
      totalled = omega (arith, t, v.totalled);
    }

remember-IsWithin :
    (limits : Limits) (turn : Turn) (now : ℕ) (s : Store)
    → IsWithin limits s
    → IsWithin limits (remember limits turn now s)
unfolding remember
remember-IsWithin limits turn now s v = elim (Bool-cases (ltb limits.max_bytes turn.serialised)) [
  | inl e ↦ rw e v
  | inr e ↦
      let w = evict-IsWithin limits now _ (inserted-IsTotalled turn now s v.is_totalled) in rw e w
]

touched-IsSorted-stored_bytes :
    (id now : ℕ) (o : Option Row) (m : OrdMap Row)
    → lookup id m ≡ o
    → IsSorted m
    → IsSorted (touched id now o m) × (stored_bytes (touched id now o m) ≡ stored_bytes m)
touched-IsSorted-stored_bytes id now none m e f = (f, refl)
touched-IsSorted-stored_bytes id now (some r) m e f =
    let t = stored_bytes-insert id 0 (record r { touched_at = now }) m f in
    (insert-IsSorted id _ m f, let u = rw e at t in omega (arith, u))

touch-stored_bytes :
    (links : List (ℕ × Row)) (now : ℕ) (m : OrdMap Row)
    → IsSorted m
    → IsSorted (touch links now m) × (stored_bytes (touch links now m) ≡ stored_bytes m)
unfolding touch
touch-stored_bytes [] now m f = (f, refl)
touch-stored_bytes (l ∷ ls) now m f =
    let (g, t) = touched-IsSorted-stored_bytes l.0 now (lookup l.0 m) m refl f in
    let (h, u) = touch-stored_bytes ls now (touched l.0 now (lookup l.0 m) m) g in
    (h, omega (arith, t, u))

chain_found-IsWithin :
    (limits : Limits) (links : List (ℕ × Row)) (now : ℕ) (s : Store) (o : Option Chain)
    → IsWithin limits s
    → IsWithin limits (chain_found links now s o).0
chain_found-IsWithin limits links now s none v = v
chain_found-IsWithin limits links now s (some c) v =
    let (f, t) = touch-stored_bytes links now s.rows v.is_totalled.sorted in
    record {
      is_totalled = record { sorted = f; totalled = omega (arith, t, v.is_totalled.totalled) };
      fits = v.fits;
    }

chain-IsWithin :
    (limits : Limits) (head now : ℕ) (s : Store)
    → IsWithin limits s
    → IsWithin limits (chain head now s).0
unfolding chain
chain-IsWithin limits head now s v =
    let links = walk max_depth (some head) s.rows in
    chain_found-IsWithin limits links now s (assemble links) v

pub data Operation : Type 0 where
  remembers : Turn → ℕ → Operation
  reads : ℕ → ℕ → Operation
  looks_up : ℕ → ℕ → Operation
  places : ℕ → ℕ → ℕ → Operation

unfoldable pub step : Limits → Operation → Store → Store
step limits (remembers turn now) s = remember limits turn now s
step limits (reads head now) s = (chain head now s).0
step limits (looks_up key now) s = (placement limits key now s).0
step limits (places key sub now) s = place key sub now s

unfoldable pub run : Limits → List Operation → Store → Store
run limits [] s = s
run limits (e ∷ es) s = run limits es (step limits e s)

placed-IsWithin :
    (limits : Limits) (key limit now : ℕ) (s : Store) (o : Option Placement)
    → IsWithin limits s
    → IsWithin limits (placed key limit now s o).0
placed-IsWithin limits key limit now s none v = v
placed-IsWithin limits key limit now s (some p) v = elim (Bool-cases (leb limit p.touched_at)) [
  | inl e ↦ rw e (record {
    is_totalled = record { sorted = v.is_totalled.sorted; totalled = v.is_totalled.totalled };
    fits = v.fits;
  })
  | inr e ↦ rw e v
]

step-IsWithin :
    (limits : Limits) (e : Operation) (s : Store)
    → IsWithin limits s
    → IsWithin limits (step limits e s)
unfolding step placement place
step-IsWithin limits (remembers turn now) s v = remember-IsWithin limits turn now s v
step-IsWithin limits (reads head now) s v = chain-IsWithin limits head now s v
step-IsWithin limits (looks_up key now) s v =
    placed-IsWithin limits key (cutoff limits now) now s (lookup key s.placements) v
step-IsWithin limits (places key sub now) s v = record {
  is_totalled = record { sorted = v.is_totalled.sorted; totalled = v.is_totalled.totalled };
  fits = v.fits;
}

-- From a store within its limit, every history of turns remembered, conversations read and
-- placements read and written leaves the running total of bytes equal to the sum over the stored
-- rows, and at most the limit.
pub run-IsWithin :
    (limits : Limits) (es : List Operation) (s : Store)
    → IsWithin limits s
    → IsWithin limits (run limits es s)
unfolding run
run-IsWithin limits [] s v = v
run-IsWithin limits (e ∷ es) s v =
    run-IsWithin limits es (step limits e s) (step-IsWithin limits e s v)
