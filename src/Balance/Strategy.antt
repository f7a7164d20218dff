-- ===== src/Balance/Strategy.antt =====
-- crates/libsubby/src/balance/strategy.rs: the four strategies, as rankings of the candidates.
pub mod Least
pub mod Ranking
pub mod RoundRobin
use Prim.Native.Nat.{compare, Ordering}
use subbier.Base.{
  ℕ, zero, suc, Bool, true, false, Option, none, some, List, [], ◌∷◌, ltb, leb, if◌then◌else◌,
  is_some, unwrap_or, find, get_elem?, or_else,
}
use subbier.Base.Comparator.{then_with}
use subbier.Model.{
  SubId, Pct, points, StrategyKind, lowest_usage, highest_usage, round_robin, least_connections,
}

pub record Candidate : Type 0 where
  pub sub : SubId
  pub usage_pct : Option Pct
  pub proxied_in_flight : ℕ
  pub proxied_requests_total : ℕ

-- `Candidate::effective_pct`.
unfoldable pub candidate_pct : Candidate → Pct
candidate_pct c = unwrap_or (points 100) c.usage_pct

unfoldable pub usage_known : Candidate → Bool
usage_known c = is_some c.usage_pct

pub record StrategyState : Type 0 where
  pub last_picked : Option SubId

abbrev pub initial : StrategyState
initial = record { last_picked = none }

unfoldable pub known_first : Candidate → ℕ
unfolding usage_known
known_first c = if usage_known c then 0 else 1

unfoldable pub drain_tier : Candidate → ℕ
drain_tier c = elim c.usage_pct [ none ↦ 1 | some pct ↦ if ltb pct (points 100) then 0 else 2 ]

-- The fold of `Iterator::min_by`: `i` is the index of the best candidate so far, `j` of the next.
-- The earlier of two equal candidates stays.
unfoldable pub min_from :
    (Candidate → Candidate → Ordering) → ℕ → Candidate → ℕ → List Candidate → ℕ
min_from key i best j [] = i
min_from key i best j (c ∷ cs) = elim (key best c) [
  | Ordering.gt ↦ min_from key j c (suc j) cs
  | _ ↦ min_from key i best (suc j) cs
]

unfoldable pub pick_min_by : List Candidate → (Candidate → Candidate → Ordering) → ℕ
unfolding min_from
pick_min_by [] key = 0
pick_min_by (c ∷ cs) key = min_from key 0 c 1 cs

unfoldable pub by_lowest_usage : Candidate → Candidate → Ordering
by_lowest_usage a b = then_with (compare (known_first a) (known_first b)) (
    then_with (compare (candidate_pct a) (candidate_pct b))
      (then_with (compare a.proxied_in_flight b.proxied_in_flight) (compare a.sub b.sub)))

unfoldable pub by_highest_usage : Candidate → Candidate → Ordering
by_highest_usage a b = then_with (compare (drain_tier a) (drain_tier b)) (
    then_with (compare (candidate_pct b) (candidate_pct a))
      (then_with (compare a.proxied_in_flight b.proxied_in_flight) (compare a.sub b.sub)))

unfoldable pub by_connections : Candidate → Candidate → Ordering
by_connections a b =
    then_with (compare a.proxied_in_flight b.proxied_in_flight)
      (then_with (compare a.proxied_requests_total b.proxied_requests_total) (compare a.sub b.sub))

-- The candidates with their indices.
unfoldable pub enumerate : ℕ → List Candidate → List (ℕ × Candidate)
enumerate i [] = []
enumerate i (c ∷ cs) = (i, c) ∷ enumerate (suc i) cs

-- A stable sort by `SubId`: an entry goes before the later ones that are not smaller.
unfoldable pub insert_by_sub : ℕ × Candidate → List (ℕ × Candidate) → List (ℕ × Candidate)
insert_by_sub e [] = e ∷ []
insert_by_sub e (f ∷ fs) = if leb e.1.sub f.1.sub then e ∷ f ∷ fs else f ∷ insert_by_sub e fs

unfoldable pub sort_by_sub : List (ℕ × Candidate) → List (ℕ × Candidate)
unfolding insert_by_sub
sort_by_sub [] = []
sort_by_sub (e ∷ es) = insert_by_sub e (sort_by_sub es)

abbrev pub first : List (ℕ × Candidate) → Option (ℕ × Candidate)
first [] = none
first (e ∷ es) = some e

-- The first entry strictly after the cursor, if there is a cursor and such an entry.
abbrev pub after_cursor : Option SubId → List (ℕ × Candidate) → Option (ℕ × Candidate)
after_cursor none order = none
after_cursor (some last) order = find (λ e. ltb last e.1.sub) order

abbrev pub index_of : Option (ℕ × Candidate) → ℕ
index_of none = 0
index_of (some e) = e.0

abbrev pub sub_of : Option Candidate → Option SubId
sub_of none = none
sub_of (some c) = some c.sub

unfoldable pub pick_round_robin : List Candidate → StrategyState → ℕ × StrategyState
unfolding enumerate sort_by_sub
pick_round_robin candidates state =
    let order = sort_by_sub (enumerate 0 candidates) in
    let index = index_of (or_else (after_cursor state.last_picked order) (first order)) in
    (index, record { last_picked = sub_of (get_elem? candidates index) })

unfoldable pub needs_usage : StrategyKind → Bool
needs_usage lowest_usage = true
needs_usage highest_usage = true
needs_usage round_robin = false
needs_usage least_connections = false

-- `for_kind(kind).pick(candidates, state)`.
unfoldable pub pick : StrategyKind → List Candidate → StrategyState → ℕ × StrategyState
unfolding pick_min_by pick_round_robin
pick lowest_usage candidates state = (pick_min_by candidates by_lowest_usage, state)
pick highest_usage candidates state = (pick_min_by candidates by_highest_usage, state)
pick round_robin candidates state = pick_round_robin candidates state
pick least_connections candidates state = (pick_min_by candidates by_connections, state)
