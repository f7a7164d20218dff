-- ===== src/Balance/Strategy/Ranking.antt =====
-- What each ranking strategy prefers, read off the candidate that it picks.
use Prim.Native.Nat.{compare, Ordering}
use subbier.Base.{
  ℕ, ◌≤◌, ◌<◌, ◌≡◌, refl, inl, inr, none, some, List, ◌∷◌, arith, All-elem, Elem, get_elem?,
  Option-cases,
}
use subbier.Base.Comparator.{IsOrder, then_with, on-IsOrder, reverse-IsOrder, then_with-IsOrder}
use subbier.Model.{Pct, points, lowest_usage, highest_usage, least_connections}
use subbier.Balance.Strategy.{
  Candidate, StrategyState, known_first, drain_tier, candidate_pct, by_lowest_usage,
  by_highest_usage, by_connections, pick,
}
use subbier.Balance.Strategy.Least.{IsLeastAt, NotAfter, pick_min_by-IsLeastAt}

abbrev key_in_flight : Candidate → ℕ
key_in_flight c = c.proxied_in_flight

abbrev key_total : Candidate → ℕ
key_total c = c.proxied_requests_total

abbrev key_sub : Candidate → ℕ
key_sub c = c.sub

abbrev by_key : (Candidate → ℕ) → Candidate → Candidate → Ordering
by_key f a b = compare (f a) (f b)

abbrev by_load : Candidate → Candidate → Ordering
by_load a b = then_with (by_key key_in_flight a b) (by_key key_sub a b)

by_load-IsOrder : IsOrder by_load
by_load-IsOrder =
    then_with-IsOrder (by_key key_in_flight) (by_key key_sub) (on-IsOrder key_in_flight)
      (on-IsOrder key_sub)

pub by_lowest_usage-IsOrder : IsOrder by_lowest_usage
unfolding by_lowest_usage
by_lowest_usage-IsOrder =
    then_with-IsOrder (by_key known_first) _ (on-IsOrder known_first)
      (then_with-IsOrder (by_key candidate_pct) by_load (on-IsOrder candidate_pct) by_load-IsOrder)

pub by_highest_usage-IsOrder : IsOrder by_highest_usage
unfolding by_highest_usage
by_highest_usage-IsOrder = then_with-IsOrder (by_key drain_tier) _ (on-IsOrder drain_tier) (
    then_with-IsOrder (λ a b. by_key candidate_pct b a) by_load (reverse-IsOrder candidate_pct)
      by_load-IsOrder)

pub by_connections-IsOrder : IsOrder by_connections
unfolding by_connections
by_connections-IsOrder = then_with-IsOrder (by_key key_in_flight) _ (on-IsOrder key_in_flight) (
    then_with-IsOrder (by_key key_total) (by_key key_sub) (on-IsOrder key_total)
      (on-IsOrder key_sub))

-- `LowestUsage`: a candidate whose usage is unknown is picked only if every usage is unknown, and
-- a known one is picked only if no known usage is lower.
abbrev pub PrefersLow : Candidate → Candidate → Type 0
PrefersLow c d = (p : Pct) → d.usage_pct ≡ some p → (q : Pct) × (c.usage_pct ≡ some q) × (q ≤ p)

low-prefers : (c d : Candidate) → NotAfter by_lowest_usage c d → PrefersLow c d
unfolding by_lowest_usage known_first candidate_pct
low-prefers c d h p e = elim (Option-cases c.usage_pct) [
  | inl k ↦ absurd (ground arith)
  | inr (q, k) ↦ (q, k, ground arith)
]

-- `HighestUsage`: a known usage below 100 percent wins over an unknown one, which wins over a full
-- one, and among the known ones below 100 percent the highest wins.
abbrev pub PrefersHigh : Candidate → Candidate → Type 0
PrefersHigh c d =
    ((p : Pct)
      → d.usage_pct ≡ some p
      → p < points 100
      → (q : Pct) × (c.usage_pct ≡ some q) × (p ≤ q) × (q < points 100))
    × (d.usage_pct ≡ none → (q : Pct) → c.usage_pct ≡ some q → q < points 100)

high-prefers : (c d : Candidate) → NotAfter by_highest_usage c d → PrefersHigh c d
unfolding by_highest_usage drain_tier candidate_pct
high-prefers c d h = (
  λ p e l. elim (Option-cases c.usage_pct) [
    | inl k ↦ absurd (ground arith)
    | inr (q, k) ↦ (q, k, ground arith, ground arith)
  ],
  λ e q k. ground arith,
)

-- `LeastConnections`: no candidate has fewer requests in flight, and none with as many has had
-- fewer in all.
abbrev pub PrefersIdle : Candidate → Candidate → Type 0
PrefersIdle c d =
    (c.proxied_in_flight ≤ d.proxied_in_flight)
    × (c.proxied_in_flight ≡ d.proxied_in_flight
        → c.proxied_requests_total ≤ d.proxied_requests_total)

idle-prefers : (c d : Candidate) → NotAfter by_connections c d → PrefersIdle c d
unfolding by_connections
idle-prefers c d h = ground arith

-- The candidate that a strategy's pick points at, with what it is preferred for.
pub record Preferred (P : Candidate → Candidate → Type 0) (candidates : List Candidate) (index : ℕ)
    : Type 0 where
  pub chosen : Candidate
  pub stands : get_elem? candidates index ≡ some chosen
  pub preferred : (d : Candidate) → Elem d candidates → P chosen d

Preferred-of :
    (P : Candidate → Candidate → Type 0) (key : Candidate → Candidate → Ordering)
    (cs : List Candidate) (index : ℕ)
    → ((c d : Candidate) → NotAfter key c d → P c d)
    → IsLeastAt key cs index
    → Preferred P cs index
Preferred-of P key cs index imp l = record {
  chosen = l.chosen;
  stands = l.stands;
  preferred = λ d e. imp l.chosen d (All-elem (NotAfter key l.chosen) d cs l.least e);
}

-- On any non-empty list of candidates the three ranking strategies pick a candidate of the list,
-- leave the cursor alone, and prefer it as documented: `LowestUsage` takes a known usage over an
-- unknown one and the lowest among the known; `HighestUsage` takes the highest known usage below
-- 100 percent, and a full account only if no usage is unknown or below 100; `LeastConnections`
-- takes the fewest requests in flight, and among those the fewest in all.
pub pick-Preferred :
    (c : Candidate) (cs : List Candidate) (state : StrategyState)
    → Preferred PrefersLow (c ∷ cs) (pick lowest_usage (c ∷ cs) state).0
      × Preferred PrefersHigh (c ∷ cs) (pick highest_usage (c ∷ cs) state).0
      × Preferred PrefersIdle (c ∷ cs) (pick least_connections (c ∷ cs) state).0
      × ((pick lowest_usage (c ∷ cs) state).1 ≡ state)
      × ((pick highest_usage (c ∷ cs) state).1 ≡ state)
      × ((pick least_connections (c ∷ cs) state).1 ≡ state)
unfolding pick
pick-Preferred c cs state = (
  Preferred-of PrefersLow _ _ _ low-prefers (pick_min_by-IsLeastAt _ by_lowest_usage-IsOrder c cs),
  Preferred-of PrefersHigh _ _ _ high-prefers
      (pick_min_by-IsLeastAt _ by_highest_usage-IsOrder c cs),
  Preferred-of PrefersIdle _ _ _ idle-prefers (pick_min_by-IsLeastAt _ by_connections-IsOrder c cs),
  refl,
  refl,
  refl,
)
