-- ===== src/Balance/Strategy/Least.antt =====
-- The minimum by a comparator: `pick_min_by` returns the place of a least candidate.
use Prim.Native.Nat.{Ordering}
use subbier.Base.{
  ℕ, suc, ◌+◌, ◌≡◌, ◌≢◌, ◌⊎◌, refl, inl, inr, some, List, [], ◌∷◌, arith, All, get_elem?,
}
use subbier.Base.Comparator.{IsOrder}
use subbier.Balance.Strategy.{Candidate, min_from, pick_min_by}

module _ (key : Candidate → Candidate → Ordering) where
  -- `a` comes before `b` or ties with it.
  abbrev pub NotAfter : Candidate → Candidate → Type 0
  NotAfter a b = key a b ≢ Ordering.gt

  -- The candidate at `index`, which none of the others precedes.
  pub record IsLeastAt (candidates : List Candidate) (index : ℕ) : Type 0 where
    pub chosen : Candidate
    pub stands : get_elem? candidates index ≡ some chosen
    pub least : All (NotAfter chosen) candidates

Ordering-cases : (o : Ordering) → (o ≡ Ordering.gt) ⊎ (o ≡ Ordering.lt) ⊎ (o ≡ Ordering.eq)
Ordering-cases o = ground arith

module _ (key : Candidate → Candidate → Ordering) (o : IsOrder key) where
  NotAfter-refl : (a : Candidate) → NotAfter key a a
  NotAfter-refl a e = ground (arith, o.turn a a)

  NotAfter-chain :
      (a b : Candidate) (cs : List Candidate)
      → NotAfter key a b
      → All (NotAfter key b) cs
      → All (NotAfter key a) cs
  NotAfter-chain a b [] h k = tt
  NotAfter-chain a b (c ∷ cs) h k = (o.chain a b c h k.0, NotAfter-chain a b cs h k.1)

  -- Where the fold ends: at the best candidate so far, or at a later one that precedes it.
  data Ends (i : ℕ) (best : Candidate) (j : ℕ) (cs : List Candidate) (r : ℕ) : Type 0 where
    stays : r ≡ i → All (NotAfter key best) cs → Ends i best j cs r
    moves :
        (k : ℕ) (c : Candidate)
        → r ≡ j + k
        → get_elem? cs k ≡ some c
        → NotAfter key c best
        → All (NotAfter key c) cs
        → Ends i best j cs r

  Ends-keep :
      {i : ℕ} {best : Candidate} {j : ℕ} {c : Candidate} {cs : List Candidate} {r : ℕ}
      → NotAfter key best c
      → Ends i best (suc j) cs r
      → Ends i best j (c ∷ cs) r
  Ends-keep h (stays e l) = stays e (h, l)
  Ends-keep {best = best} {c = c} h (moves k d e g l m) =
      moves (suc k) d (omega arith) g l (o.chain d best c l h, m)

  Ends-replace :
      {i : ℕ} {best : Candidate} {j : ℕ} {c : Candidate} {cs : List Candidate} {r : ℕ}
      → NotAfter key c best
      → Ends j c (suc j) cs r
      → Ends i best j (c ∷ cs) r
  Ends-replace {c = c} h (stays e l) = moves 0 c (omega arith) refl h (NotAfter-refl c, l)
  Ends-replace {best = best} {c = c} h (moves k d e g l m) =
      moves (suc k) d (omega arith) g (o.chain d c best l h) (l, m)

  min_from-Ends :
      (i : ℕ) (best : Candidate) (j : ℕ) (cs : List Candidate)
      → Ends i best j cs (min_from key i best j cs)
  unfolding min_from
  min_from-Ends i best j [] = stays refl tt
  min_from-Ends i best j (c ∷ cs) = elim (Ordering-cases (key best c)) [
    | inl e ↦
        rw (e, min_from)
          (Ends-replace (λ g. ground (arith, o.turn best c)) (min_from-Ends j c (suc j) cs))
    | inr (inl e) ↦ rw (e, min_from) (Ends-keep (λ g. cc) (min_from-Ends i best (suc j) cs))
    | inr (inr e) ↦ rw (e, min_from) (Ends-keep (λ g. cc) (min_from-Ends i best (suc j) cs))
  ]

  pub pick_min_by-IsLeastAt :
      (c : Candidate) (cs : List Candidate) → IsLeastAt key (c ∷ cs) (pick_min_by (c ∷ cs) key)
  unfolding pick_min_by
  pick_min_by-IsLeastAt c cs = from (min_from-Ends 0 c 1 cs)
    where
      from : Ends 0 c 1 cs (min_from key 0 c 1 cs) → IsLeastAt key (c ∷ cs) (min_from key 0 c 1 cs)
      from (stays e l) = record { chosen = c; stands = rw e; least = (NotAfter-refl c, l) }
      from (moves k d e g l m) = record {
        chosen = d;
        stands = let e' : min_from key 0 c 1 cs ≡ suc k = omega arith in rw e' g;
        least = (l, m);
      }
