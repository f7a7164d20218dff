-- ===== src/Balance/Strategy/RoundRobin/Ring.antt =====
-- The ring of round robin: the `SubId`s of the candidates, each once, in increasing order.
use subbier.Base.{
  ℕ, suc, ◌≤◌, ◌≡◌, ◌≢◌, refl, ap, ◌∙◌, inl, inr, List, [], ◌∷◌, map, arith, All, leb, length,
  length-map, Bool-cases,
}
use mathlib.Core.List.{Perm}
use mathlib.Core.List.Perm
use subbier.Model.{SubId}
use subbier.Balance.Strategy.{Candidate, enumerate, insert_by_sub, sort_by_sub}
use subbier.Balance.Strategy.RoundRobin.{sub_at, order, ring, sort_by_sub-All}

abbrev pub candidate_subs : List Candidate → List SubId
candidate_subs = map (λ c. c.sub)

-- No two candidates are the same subscription.
abbrev pub Distinct : List Candidate → Type 0
Distinct [] = Unit {0}
Distinct (c ∷ cs) = All (λ d. c.sub ≢ d.sub) cs × Distinct cs

-- The numbers increase strictly, from `b` on.
abbrev pub Rising : ℕ → List ℕ → Type 0
Rising b [] = Unit {0}
Rising b (s ∷ ss) = (b ≤ s) × Rising (suc s) ss

abbrev DistinctEntries : List (ℕ × Candidate) → Type 0
DistinctEntries [] = Unit {0}
DistinctEntries (e ∷ es) = All (λ f. sub_at e ≢ sub_at f) es × DistinctEntries es

enumerate-All :
    (s : SubId) (i : ℕ) (cs : List Candidate)
    → All (λ d. s ≢ d.sub) cs
    → All (λ f. s ≢ sub_at f) (enumerate i cs)
unfolding enumerate
enumerate-All s i [] h = tt
enumerate-All s i (c ∷ cs) h = (h.0, enumerate-All s (suc i) cs h.1)

enumerate-DistinctEntries :
    (i : ℕ) (cs : List Candidate) → Distinct cs → DistinctEntries (enumerate i cs)
unfolding enumerate
enumerate-DistinctEntries i [] h = tt
enumerate-DistinctEntries i (c ∷ cs) h =
    (enumerate-All c.sub (suc i) cs h.0, enumerate-DistinctEntries (suc i) cs h.1)

Rising-mono : {a b : ℕ} (ss : List ℕ) → a ≤ b → Rising b ss → Rising a ss
Rising-mono [] h r = tt
Rising-mono (s ∷ ss) h r = (omega arith, r.1)

insert_by_sub-Rising :
    (b : ℕ) (e : ℕ × Candidate) (es : List (ℕ × Candidate))
    → b ≤ sub_at e
    → All (λ f. sub_at e ≢ sub_at f) es
    → Rising b (map sub_at es)
    → Rising b (map sub_at (insert_by_sub e es))
unfolding insert_by_sub
insert_by_sub-Rising b e [] h d r = (h, tt)
insert_by_sub-Rising b e (f ∷ fs) h d r = elim (Bool-cases (leb e.1.sub f.1.sub)) [
  | inl q ↦ rw q (h, (ground (arith, d.0), r.1))
  | inr q ↦ rw q (r.0, insert_by_sub-Rising (suc (sub_at f)) e fs (ground arith) d.1 r.1)
]

sort_by_sub-Rising :
    (es : List (ℕ × Candidate)) → DistinctEntries es → Rising 0 (map sub_at (sort_by_sub es))
unfolding sort_by_sub
sort_by_sub-Rising [] h = tt
sort_by_sub-Rising (e ∷ es) h =
    insert_by_sub-Rising 0 e (sort_by_sub es) (omega arith)
      (sort_by_sub-All (λ f. sub_at e ≢ sub_at f) es h.0) (sort_by_sub-Rising es h.1)

pub ring-Rising : (cs : List Candidate) → Distinct cs → Rising 0 (ring cs)
ring-Rising cs h = sort_by_sub-Rising (enumerate 0 cs) (enumerate-DistinctEntries 0 cs h)

insert_by_sub-perm :
    (e : ℕ × Candidate) (es : List (ℕ × Candidate))
    → Perm (map sub_at (insert_by_sub e es)) (map sub_at (e ∷ es))
unfolding insert_by_sub
insert_by_sub-perm e [] = Perm.refl _
insert_by_sub-perm e (f ∷ fs) = elim (Bool-cases (leb e.1.sub f.1.sub)) [
  | inl q ↦ rw q (Perm.refl _)
  | inr q ↦ rw q (Perm.trans (Perm.cons (sub_at f) (insert_by_sub-perm e fs)) (Perm.swap _ _ _))
]

sort_by_sub-perm : (es : List (ℕ × Candidate)) → Perm (map sub_at (sort_by_sub es)) (map sub_at es)
unfolding sort_by_sub
sort_by_sub-perm [] = Perm.refl _
sort_by_sub-perm (e ∷ es) =
    Perm.trans (insert_by_sub-perm e (sort_by_sub es)) (Perm.cons (sub_at e) (sort_by_sub-perm es))

map-enumerate : (i : ℕ) (cs : List Candidate) → map sub_at (enumerate i cs) ≡ candidate_subs cs
unfolding enumerate
map-enumerate i [] = refl
map-enumerate i (c ∷ cs) = ap (◌∷◌ c.sub) (map-enumerate (suc i) cs)

pub ring-perm : (cs : List Candidate) → Perm (ring cs) (candidate_subs cs)
ring-perm cs = rw (← map-enumerate 0 cs) (sort_by_sub-perm (enumerate 0 cs))

insert_by_sub-length :
    (e : ℕ × Candidate) (es : List (ℕ × Candidate)) → length (insert_by_sub e es) ≡ suc (length es)
unfolding insert_by_sub
insert_by_sub-length e [] = refl
insert_by_sub-length e (f ∷ fs) = ground (arith, insert_by_sub-length e fs)

sort_by_sub-length : (es : List (ℕ × Candidate)) → length (sort_by_sub es) ≡ length es
unfolding sort_by_sub
sort_by_sub-length [] = refl
sort_by_sub-length (e ∷ es) =
    insert_by_sub-length e (sort_by_sub es) ∙ ap suc (sort_by_sub-length es)

enumerate-length : (i : ℕ) (cs : List Candidate) → length (enumerate i cs) ≡ length cs
unfolding enumerate
enumerate-length i [] = refl
enumerate-length i (c ∷ cs) = ap suc (enumerate-length (suc i) cs)

pub ring-length : (cs : List Candidate) → length (ring cs) ≡ length cs
ring-length cs =
    length-map sub_at (order cs) ∙ sort_by_sub-length (enumerate 0 cs) ∙ enumerate-length 0 cs
