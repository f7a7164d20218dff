-- ===== src/Balance/Strategy/RoundRobin.antt =====
-- Round robin: the next `SubId` after the cursor, and what a cycle of picks visits.
pub mod Ring
pub mod Cycle
use subbier.Base.{
  ℕ, zero, suc, ◌+◌, ◌≤◌, ◌<◌, ◌≡◌, refl, sym, ap, subst, ◌∙◌, inl, inr, Option, none, some, Bool,
  true, false, List, [], ◌∷◌, ◌++◌, map, arith, All, Elem, here, there, get_elem?, find, ltb, leb,
  length, or_else, Bool-cases, Option-cases, if◌then◌else◌,
}
use mathlib.Core.List.{Perm}
use mathlib.Core.List.Perm
use subbier.Model.{SubId}
use subbier.Balance.Strategy.{
  Candidate, StrategyState, enumerate, insert_by_sub, sort_by_sub, first, after_cursor, index_of,
  sub_of, pick_round_robin,
}

-- The `SubId`s of the candidates in round robin's order.
abbrev pub sub_at : ℕ × Candidate → SubId
sub_at e = e.1.sub

abbrev pub order : List Candidate → List (ℕ × Candidate)
order cs = sort_by_sub (enumerate 0 cs)

abbrev pub ring : List Candidate → List SubId
ring cs = map sub_at (order cs)

abbrev pub head : List SubId → Option SubId
head [] = none
head (s ∷ ss) = some s

-- The `SubId` that round robin moves to: the first one after the cursor, else the first one.
abbrev pub next_sub : Option SubId → List SubId → Option SubId
next_sub none ss = head ss
next_sub (some last) ss = or_else (find (ltb last) ss) (head ss)

abbrev Stands : List Candidate → ℕ × Candidate → Type 0
Stands cs e = get_elem? cs e.0 ≡ some e.1

enumerate-Stands :
    (ds : List Candidate) (i : ℕ) (cs : List Candidate)
    → ((k : ℕ) → get_elem? ds (i + k) ≡ get_elem? cs k)
    → All (Stands ds) (enumerate i cs)
unfolding enumerate
enumerate-Stands ds i [] h = tt
enumerate-Stands ds i (c ∷ cs) h = (
  ap (get_elem? ds) (omega arith) ∙ h 0,
  enumerate-Stands ds (suc i) cs (λ k. ap (get_elem? ds) (omega arith) ∙ h (suc k)),
)

module _ {κ} (P : ℕ × Candidate → Type κ) where
  insert_by_sub-All :
      (e : ℕ × Candidate) (es : List (ℕ × Candidate)) → P e → All P es → All P (insert_by_sub e es)
  unfolding insert_by_sub
  insert_by_sub-All e [] h k = (h, tt)
  insert_by_sub-All e (f ∷ fs) h k = elim (Bool-cases (leb e.1.sub f.1.sub)) [
    | inl b ↦ rw b (h, k)
    | inr b ↦ rw b (k.0, insert_by_sub-All e fs h k.1)
  ]

  sort_by_sub-All : (es : List (ℕ × Candidate)) → All P es → All P (sort_by_sub es)
  unfolding sort_by_sub
  sort_by_sub-All [] k = tt
  sort_by_sub-All (e ∷ es) k = insert_by_sub-All e (sort_by_sub es) k.0 (sort_by_sub-All es k.1)

find-Stands :
    (cs : List Candidate) (p : ℕ × Candidate → Bool) (es : List (ℕ × Candidate)) (e : ℕ × Candidate)
    → All (Stands cs) es
    → find p es ≡ some e
    → Stands cs e
find-Stands cs p [] e h q = cc
find-Stands cs p (f ∷ fs) e h q = elim (Bool-cases (p f)) [
  | inl b ↦ let g : some f ≡ some e = rw b at q in subst (Stands cs) (cc) h.0
  | inr b ↦ find-Stands cs p fs e h.1 (rw b at q)
]

find-map :
    (last : SubId) (es : List (ℕ × Candidate)) (e : ℕ × Candidate)
    → find (λ e. ltb last (sub_at e)) es ≡ some e
    → find (ltb last) (map sub_at es) ≡ some (sub_at e)
find-map last [] e q = cc
find-map last (f ∷ fs) e q = ground (arith, find-map last fs e)

find-map-none :
    (last : SubId) (es : List (ℕ × Candidate))
    → find (λ e. ltb last (sub_at e)) es ≡ none
    → find (ltb last) (map sub_at es) ≡ none
find-map-none last [] q = refl
find-map-none last (f ∷ fs) q = ground (arith, find-map-none last fs)

-- The entry that round robin takes from a non-empty order stands at its index and carries the next `SubId`.
record Taken (cs : List Candidate) (last : Option SubId) (ss : List SubId)
    (e : Option (ℕ × Candidate)) : Type 0 where
  taken : ℕ × Candidate
  found : e ≡ some taken
  stands : Stands cs taken
  next : next_sub last ss ≡ some (sub_at taken)

chosen-Taken :
    (cs : List Candidate) (last : Option SubId) (f : ℕ × Candidate) (fs : List (ℕ × Candidate))
    → All (Stands cs) (f ∷ fs)
    → Taken cs last (map sub_at (f ∷ fs)) (or_else (after_cursor last (f ∷ fs)) (first (f ∷ fs)))
chosen-Taken cs none f fs h = record { taken = f; found = refl; stands = h.0; next = refl }
chosen-Taken cs (some last) f fs h = elim (Option-cases (after_cursor (some last) (f ∷ fs))) [
  | inl q ↦
      rw q (record {
        taken = f;
        found = refl;
        stands = h.0;
        next = rw (find-map-none last (f ∷ fs) q);
      })
  | inr (e, q) ↦ rw q (record {
    taken = e;
    found = refl;
    stands = find-Stands cs (λ x. ltb last x.1.sub) (f ∷ fs) e h q;
    next = rw (find-map last (f ∷ fs) e q);
  })
]

insert_by_sub-cons :
    (e : ℕ × Candidate) (es : List (ℕ × Candidate))
    → (f : ℕ × Candidate) × (fs : List (ℕ × Candidate)) × (insert_by_sub e es ≡ f ∷ fs)
unfolding insert_by_sub
insert_by_sub-cons e [] = (e, [], refl)
insert_by_sub-cons e (f ∷ fs) = elim (Bool-cases (leb e.1.sub f.1.sub)) [
  | inl b ↦ (e, f ∷ fs, rw b)
  | inr b ↦ (f, insert_by_sub e fs, rw b)
]

order-cons :
    (c : Candidate) (cs : List Candidate)
    → (f : ℕ × Candidate) × (fs : List (ℕ × Candidate)) × (order (c ∷ cs) ≡ f ∷ fs)
unfolding sort_by_sub enumerate
order-cons c cs = insert_by_sub-cons (0, c) (sort_by_sub (enumerate 1 cs))

order-Stands : (cs : List Candidate) → All (Stands cs) (order cs)
order-Stands cs =
    sort_by_sub-All (Stands cs) (enumerate 0 cs)
      (enumerate-Stands cs 0 cs (λ k. ap (get_elem? cs) (omega arith)))

order-Taken :
    (c : Candidate) (cs : List Candidate) (last : Option SubId)
    → Taken
        (c ∷ cs)
        last
        (ring (c ∷ cs))
        (or_else (after_cursor last (order (c ∷ cs))) (first (order (c ∷ cs))))
order-Taken c cs last =
    let (f, fs, e) = order-cons c cs in
    rw e (chosen-Taken (c ∷ cs) last f fs (rw e at (order-Stands (c ∷ cs))))

-- Round robin picks the candidate with the next `SubId` in the ring, and moves the cursor to it.
pub pick_round_robin-next :
    (c : Candidate) (cs : List Candidate) (state : StrategyState)
    → (d : Candidate) × (get_elem? (c ∷ cs) (pick_round_robin (c ∷ cs) state).0 ≡ some d)
      × (next_sub state.last_picked (ring (c ∷ cs)) ≡ some d.sub)
      × ((pick_round_robin (c ∷ cs) state).1.last_picked ≡ some d.sub)
unfolding pick_round_robin
pick_round_robin-next c cs state =
    let t = order-Taken c cs state.last_picked in
    let e = ap index_of t.found in
    let g = ap (get_elem? (c ∷ cs)) e ∙ t.stands in (t.taken.1, g, t.next, ap sub_of g)
