-- ===== src/Balance/Strategy/RoundRobin/Cycle.antt =====
-- Consecutive picks of round robin over a fixed set of candidates.

use subbier.Base.{
  ℕ, zero, suc, ◌+◌, ◌≤◌, ◌<◌, ◌≡◌, refl, sym, ap, subst, ◌∙◌, inl, inr, Option, none, some, List,
  [], ◌∷◌, ◌++◌, map, arith, All, All-append, get_elem?, find, ltb, length, length-append,
  Bool-cases,
}
use mathlib.Core.List.{Perm, append_assoc, perm_append_comm, map-append, append-nil}
use mathlib.Core.List.Perm
use subbier.Model.{SubId, round_robin}
use subbier.Balance.Strategy.{Candidate, StrategyState, sub_of, pick}
use subbier.Balance.Strategy.RoundRobin.{next_sub, ring, head, pick_round_robin-next}
use subbier.Balance.Strategy.RoundRobin.Ring.{
  Distinct, Rising, candidate_subs, ring-Rising, ring-perm, ring-length,
}

-- The `SubId`s of `n` picks in a row, each from the cursor that the one before left.
pub picks : ℕ → List Candidate → StrategyState → List (Option SubId)
picks zero cs state = []
picks (suc n) cs state =
    let (index, state') = pick round_robin cs state in
    sub_of (get_elem? cs index) ∷ picks n cs state'

abbrev cursor : SubId → StrategyState
cursor s = record { last_picked = some s }

picks-step :
    (c : Candidate) (cs : List Candidate) (state : StrategyState) (s : SubId) (k : ℕ)
    → next_sub state.last_picked (ring (c ∷ cs)) ≡ some s
    → picks (suc k) (c ∷ cs) state ≡ some s ∷ picks k (c ∷ cs) (cursor s)
unfolding picks pick
picks-step c cs state s k e =
    let (d, g, n, m) = pick_round_robin-next c cs state in
    let q : d.sub ≡ s = cc in
    (λ i. ap sub_of g i ∷ picks k (c ∷ cs) (record { last_picked = m i }))
    ∙ ap (λ x. some x ∷ picks k (c ∷ cs) (cursor x)) q

abbrev AtMost : ℕ → ℕ → Type 0
AtMost l x = x ≤ l

-- The last number of a list, or `l` for the empty one.
abbrev end_of : ℕ → List ℕ → ℕ
end_of l [] = l
end_of l (s ∷ ss) = end_of s ss

find-cut :
    (l : ℕ) (pre : List ℕ) (s : ℕ) (suf : List ℕ)
    → All (AtMost l) pre
    → l < s
    → find (ltb l) (pre ++ (s ∷ suf)) ≡ some s
find-cut l [] s suf h k = ground arith
find-cut l (p ∷ pre) s suf h k = ground (arith, find-cut l pre s suf h.1 k)

find-All : (l : ℕ) (ss : List ℕ) → All (AtMost l) ss → find (ltb l) ss ≡ none
find-All l [] h = refl
find-All l (s ∷ ss) h = ground (arith, find-All l ss h.1)

AtMost-mono : (l m : ℕ) (ss : List ℕ) → l ≤ m → All (AtMost l) ss → All (AtMost m) ss
AtMost-mono l m [] h k = tt
AtMost-mono l m (s ∷ ss) h k = (omega arith, AtMost-mono l m ss h k.1)

end_of-le : (l : ℕ) (ss : List ℕ) → Rising (suc l) ss → l ≤ end_of l ss
end_of-le l [] r = omega arith
end_of-le l (s ∷ ss) r = omega (arith, end_of-le s ss r.1)

end_of-All : (l : ℕ) (ss : List ℕ) → Rising (suc l) ss → All (AtMost (end_of l ss)) ss
end_of-All l [] r = tt
end_of-All l (s ∷ ss) r = (end_of-le s ss r.1, end_of-All s ss r.1)

module _ (c : Candidate) (cs : List Candidate) where
  -- From a cursor inside the ring, the picks go on along it.
  picks-along :
      (l : ℕ) (pre mid suf : List ℕ) (k : ℕ)
      → ring (c ∷ cs) ≡ pre ++ (mid ++ suf)
      → All (AtMost l) pre
      → Rising (suc l) (mid ++ suf)
      → picks (length mid + k) (c ∷ cs) (cursor l)
        ≡ map some mid ++ picks k (c ∷ cs) (cursor (end_of l mid))
  picks-along l pre [] suf k e h r = ap (λ n. picks n (c ∷ cs) (cursor l)) (omega arith)
  picks-along l pre (s ∷ mid) suf k e h r =
      let found : next_sub (some l) (ring (c ∷ cs)) ≡ some s =
        ap (next_sub (some l)) e ∙ rw (find-cut l pre s (mid ++ suf) h r.0) in
      ap (λ n. picks n (c ∷ cs) (cursor l)) (omega arith)
      ∙ picks-step c cs (cursor l) s (length mid + k) found
      ∙ ap (◌∷◌ (some s)) (
          picks-along s (pre ++ (s ∷ [])) mid suf k
            (e ∙ sym (append_assoc pre (s ∷ []) (mid ++ suf)))
            (All-append (AtMost s) pre (s ∷ []) (AtMost-mono l s pre (omega arith) h)
              (omega arith, tt))
            r.1)

  -- From a cursor that wraps round, they start at the head of the ring.
  picks-from_head :
      (state : StrategyState) (pre suf : List ℕ)
      → ring (c ∷ cs) ≡ pre ++ suf
      → next_sub state.last_picked (ring (c ∷ cs)) ≡ head (ring (c ∷ cs))
      → Rising 0 (ring (c ∷ cs))
      → picks (length pre) (c ∷ cs) state ≡ map some pre
  unfolding picks
  picks-from_head state [] suf e n r = refl
  picks-from_head state (p ∷ pre) suf e n r =
      picks-step c cs state p (length pre) (n ∙ ap head e)
      ∙ ap (◌∷◌ (some p)) (
          ap (λ k. picks k (c ∷ cs) (cursor p)) (omega arith)
          ∙ picks-along p (p ∷ []) pre suf 0 e (omega arith, tt) (rw e at r).1
          ∙ append-nil (map some pre))

record Split (l : ℕ) (ss : List ℕ) : Type 0 where
  before : List ℕ
  after : List ℕ
  joins : ss ≡ before ++ after
  low : All (AtMost l) before
  high : Rising (suc l) after

split : (b l : ℕ) (ss : List ℕ) → Rising b ss → Split l ss
split b l [] r = record { before = []; after = []; joins = refl; low = tt; high = tt }
split b l (s ∷ ss) r = elim (Bool-cases (ltb l s)) [
  | inl h ↦ record {
    before = [];
    after = s ∷ ss;
    joins = refl;
    low = tt;
    high = (ground arith, r.1);
  }
  | inr h ↦
      let t = split (suc s) l ss r.1 in
      record {
        before = s ∷ t.before;
        after = t.after;
        joins = ap (◌∷◌ s) t.joins;
        low = (ground arith, t.low);
        high = t.high;
      }
]

wraps : (l : ℕ) (ss : List ℕ) (s : Split l ss) → next_sub (some (end_of l s.after)) ss ≡ head ss
wraps l ss s =
    let m = end_of l s.after in
    let low = AtMost-mono l m s.before (end_of-le l s.after s.high) s.low in
    let full = All-append (AtMost m) s.before s.after low (end_of-All l s.after s.high) in
    rw (find-All m ss (subst (All (AtMost m)) (sym s.joins) full))

-- The order in which a cycle from the cursor visits the candidates.
pub record Visits (c : Candidate) (cs : List Candidate) (state : StrategyState) : Type 0 where
  pub visited : List SubId
  pub each_once : Perm visited (candidate_subs (c ∷ cs))
  pub in_turn : picks (length (c ∷ cs)) (c ∷ cs) state ≡ map some visited

cycle-Visits :
    (c : Candidate) (cs : List Candidate) (last : Option SubId)
    → Distinct (c ∷ cs)
    → Visits c cs (record { last_picked = last })
cycle-Visits c cs none h = record {
  visited = ring (c ∷ cs);
  each_once = ring-perm (c ∷ cs);
  in_turn =
      ap (λ n. picks n (c ∷ cs) (record { last_picked = none })) (sym (ring-length (c ∷ cs)))
      ∙ picks-from_head c cs (record { last_picked = none }) (ring (c ∷ cs)) [] (sym (append-nil _))
          refl (ring-Rising (c ∷ cs) h);
}
cycle-Visits c cs (some l) h =
    let t = split 0 l (ring (c ∷ cs)) (ring-Rising (c ∷ cs) h) in
    record {
      visited = t.after ++ t.before;
      each_once =
          Perm.trans (perm_append_comm t.after t.before) (rw (← t.joins) (ring-perm (c ∷ cs)));
      in_turn =
          ap (λ n. picks n (c ∷ cs) (cursor l))
            (omega (arith, ring-length (c ∷ cs), ap length t.joins, length-append t.before t.after))
          ∙ picks-along c cs l t.before t.after [] (length t.before)
              (t.joins ∙ ap (◌++◌ t.before) (sym (append-nil t.after))) t.low (rw append-nil t.high)
          ∙ ap (◌++◌ (map some t.after)) (
              picks-from_head c cs (cursor (end_of l t.after)) t.before t.after t.joins
                (wraps l (ring (c ∷ cs)) t) (ring-Rising (c ∷ cs) h))
          ∙ sym (map-append some t.after t.before);
    }

-- From any cursor, as many consecutive picks as there are candidates visit every candidate exactly
-- once, if no two candidates are the same subscription.
pub round_robin_cycle :
    (c : Candidate) (cs : List Candidate) (state : StrategyState)
    → Distinct (c ∷ cs)
    → Visits c cs state
round_robin_cycle c cs state h = cycle-Visits c cs state.last_picked h
