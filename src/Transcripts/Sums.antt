-- ===== src/Transcripts/Sums.antt =====
-- Sums of bytes over the rows, and the row that gives way first.
use subbier.Base.{
  ℕ, suc, ◌+◌, ◌≤◌, ◌≡◌, refl, sym, subst, inl, inr, true, false, Option, none, some, [], ◌∷◌,
  arith, length, ltb, leb, ◌==◌, Bool-cases, Option-cases,
}
use subbier.Base.OrdMap.{OrdMap, From, lookup, insert, remove, retain, lookup-below}
use subbier.Transcripts.{Row, stored_bytes, oldest, older_of, is_before, is_recent, bytes_of}

pub stored_bytes-insert :
    (k b : ℕ) (r : Row) (m : OrdMap Row)
    → From b m
    → stored_bytes (insert k r m) + bytes_of (lookup k m) ≡ stored_bytes m + r.bytes
unfolding stored_bytes insert lookup
stored_bytes-insert k b r [] f = omega arith
stored_bytes-insert k b r ((j, q) ∷ m) f =
    let i = stored_bytes-insert k (suc j) r m f.1 in
    let l = lookup-below k (suc j) m f.1 in
    elim (Bool-cases (ltb k j)) [
      | inl e ↦
          let n = l (ground arith) in
          let d : (j == k) ≡ false = ground arith in rw (e, d, n) (omega arith)
      | inr e ↦ elim (Bool-cases (j == k)) [
        | inl d ↦ rw (e, d) (omega arith)
        | inr d ↦ rw (e, d) (omega (arith, i))
      ]
    ]

pub stored_bytes-remove :
    (k : ℕ) (m : OrdMap Row) → stored_bytes (remove k m) + bytes_of (lookup k m) ≡ stored_bytes m
unfolding stored_bytes remove lookup
stored_bytes-remove k [] = omega arith
stored_bytes-remove k ((j, q) ∷ m) =
    let i = stored_bytes-remove k m in
    elim (Bool-cases (j == k)) [ inl d ↦ rw d (omega arith) | inr d ↦ rw d (omega (arith, i)) ]

pub stored_bytes-retain :
    (limit : ℕ) (m : OrdMap Row)
    → stored_bytes (retain (is_recent limit) m)
        + stored_bytes (retain (λ r. ltb r.touched_at limit) m)
      ≡ stored_bytes m
unfolding stored_bytes retain
stored_bytes-retain limit [] = omega arith
stored_bytes-retain limit ((j, q) ∷ m) =
    let i = stored_bytes-retain limit m in
    elim (Bool-cases (leb limit q.touched_at)) [
      | inl e ↦
          let d : ltb q.touched_at limit ≡ false = ground arith in rw (e, d) (omega (arith, i))
      | inr e ↦ let d : ltb q.touched_at limit ≡ true = ground arith in rw (e, d) (omega (arith, i))
    ]

pub length-remove :
    (k : ℕ) (m : OrdMap Row) (r : Row) → lookup k m ≡ some r → suc (length (remove k m)) ≡ length m
unfolding remove lookup
length-remove k [] r h = cc
length-remove k ((j, q) ∷ m) r h =
    let i = length-remove k m r in
    elim (Bool-cases (j == k)) [
      | inl d ↦ rw d (omega arith)
      | inr d ↦ rw d (let g = i (rw d at h) in omega (arith, g))
    ]

first-lookup :
    (e : ℕ × Row) (k : ℕ) (r : Row) (m : OrdMap Row)
    → some e ≡ some (k, r)
    → lookup k (e ∷ m) ≡ some r
unfolding lookup
first-lookup e k r m q =
    let p : e ≡ (k, r) = cc in
    let own : lookup k ((k, r) ∷ m) ≡ some r = ground arith in
    subst (λ x. lookup k (x ∷ m) ≡ some r) (sym p) own

pub no_rows : (m : OrdMap Row) → length m ≤ 0 → stored_bytes m ≡ 0
unfolding stored_bytes
no_rows [] h = refl
no_rows (e ∷ m) h = absurd (omega (arith, h))

-- The oldest row is a row of the table.
older_of-lookup :
    (e : ℕ × Row) (b : ℕ) (m : OrdMap Row) (o : Option (ℕ × Row))
    → From (suc e.0) m
    → ((k : ℕ) (r : Row) → o ≡ some (k, r) → lookup k m ≡ some r)
    → (k : ℕ) (r : Row) → older_of e o ≡ some (k, r)
    → lookup k (e ∷ m) ≡ some r
unfolding lookup
older_of-lookup e b m none f h k r q = first-lookup e k r m q
older_of-lookup e b m (some v) f h k r q = elim (Bool-cases (is_before v.1 e.1)) [
  | inr x ↦ first-lookup e k r m (rw x at q)
  | inl x ↦
      let l = h k r (rw x at q) in
      let below = lookup-below k (suc e.0) m f in
      elim (Bool-cases (e.0 == k)) [
        | inr d ↦ rw d l
        | inl d ↦ absurd (let z = below (ground arith) in cc)
      ]
]

pub oldest-lookup :
    (b : ℕ) (m : OrdMap Row) (k : ℕ) (r : Row)
    → From b m
    → oldest m ≡ some (k, r)
    → lookup k m ≡ some r
unfolding oldest
oldest-lookup b [] k r f q = cc
oldest-lookup b ((j, v) ∷ m) k r f q =
    older_of-lookup (j, v) b m (oldest m) f.1 (λ k r h. oldest-lookup (suc j) m k r f.1 h) k r q

pub oldest-none : (m : OrdMap Row) → oldest m ≡ none → m ≡ []
unfolding oldest
oldest-none [] h = refl
oldest-none (e ∷ m) h = elim (Option-cases (oldest m)) [
  | inl o ↦ absurd (ground arith)
  | inr (v, o) ↦ absurd (ground arith)
]
