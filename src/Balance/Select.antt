-- ===== src/Balance/Select.antt =====
-- crates/libsubby/src/balance/mod.rs, `Router::select_in`: the sub that serves one request.
--
-- `select_in` locks the state twice: `select_locked` runs up to stickiness, then a usage round is
-- awaited with the lock released, and `rank_locked` ranks the candidates. What other requests do to
-- the state during the round is the argument `meanwhile`, the injected `UsageScorer` is `scorer`, and
-- the two readings of the clock are `now` and `later`.
pub mod Rank
pub mod Sound
use subbier.Base.{
  ℕ, suc, Option, none, some, List, [], ◌∷◌, map, if◌then◌else◌, get_elem?, is_empty, length,
}
use subbier.Model.{SubId, Timestamp, Pct, Provider, at, put, Usage}
use subbier.Balance.Exhaustion.{is_exhausted, effective_pct}
use subbier.Balance.Strategy.{Candidate, StrategyState, pick, needs_usage}
use subbier.Balance.Router.{SubStatus, PoolGate, RouterSettings, State, exhaust, is_free, candidate}
use subbier.Balance.Selection.{Hints, Selection, strategy, all_exhausted, Result, ok, err}
use subbier.Balance.Ladder.{Phase, answered, refused, to_rank, next_reset, select_locked}

-- `scores.get(index)`, with a missing entry and a failed fetch read alike.
abbrev pub score : List (Option Usage) → ℕ → Option Usage
score scores i = elim (get_elem? scores i) [ none ↦ none | some u ↦ u ]

-- A failed fetch never quarantines.
unfoldable pub exhaust_if_full : SubId → Option Usage → Timestamp → State → State
unfolding exhaust
exhaust_if_full sub none later state = state
exhaust_if_full sub (some u) later state =
    if is_exhausted u then (exhaust sub (some u) later state).0 else state

-- The loop that quarantines every sub whose fresh report says that it is used up.
unfoldable pub quarantine_full :
    ℕ → List SubStatus → List (Option Usage) → Timestamp → State → State
unfolding exhaust_if_full
quarantine_full i [] scores later state = state
quarantine_full i (s ∷ ss) scores later state =
    quarantine_full (suc i) ss scores later (exhaust_if_full s.sub (score scores i) later state)

abbrev pub pct_of : Option Usage → Option Pct
pct_of none = none
pct_of (some u) = some (effective_pct u)

-- The candidates that are still free, each with its fresh percentage.
unfoldable pub candidates_from : ℕ → List SubStatus → List (Option Usage) → State → List Candidate
candidates_from i [] scores state = []
candidates_from i (s ∷ ss) scores state =
    let rest = candidates_from (suc i) ss scores state in
    if is_free state s then candidate s (pct_of (score scores i)) ∷ rest else rest

-- What the pick leads to: the cursor moves and the sub is held. `none` is an index out of range.
abbrev pub settle :
    Provider
    → RouterSettings
    → ℕ
    → State
    → StrategyState
    → Option Candidate
    → State × Option (Result Selection)
settle provider settings count state cursor none = (state, none)
settle provider settings count state cursor (some c) = (
  record state {
    strategies = put state.strategies provider cursor;
    current = put state.current provider (some c.sub);
  },
  some (ok (record { sub = c.sub; reason = strategy settings.strategy; candidates = count })),
)

abbrev pub choose :
    Provider → RouterSettings → List Candidate → State → State × Option (Result Selection)
choose provider settings candidates state =
    let picked = pick settings.strategy candidates (at state.strategies provider) in
    settle provider settings (length candidates) state picked.1 (get_elem? candidates picked.0)

unfoldable pub rank_locked :
    Provider
    → List SubStatus
    → RouterSettings
    → List (Option Usage)
    → Timestamp
    → State
    → State × Option (Result Selection)
unfolding quarantine_full candidates_from
rank_locked provider live settings scores later state =
    let after =
      if needs_usage settings.strategy then quarantine_full 0 live scores later state else state in
    let candidates = candidates_from 0 live scores after in
    let chosen = choose provider settings candidates after in
    if is_empty candidates
    then (after, some (err (all_exhausted provider (next_reset after live))))
    else chosen

-- The usage round: nothing is asked for a strategy that ranks without usage.
abbrev pub round_scores :
    (List SubId → ℕ → List (Option Usage)) → RouterSettings → List SubStatus → List (Option Usage)
round_scores scorer settings live =
    if needs_usage settings.strategy
    then scorer (map (λ s. s.sub) live) settings.usage_deadline
    else []

-- The rest of `select_in` after the first lock is released.
abbrev pub resume :
    (scorer : List SubId → ℕ → List (Option Usage)) (meanwhile : State → State)
    → Provider
    → Timestamp
    → State
    → Phase
    → State × Option (Result Selection)
resume scorer meanwhile provider later after (answered selection) = (after, some (ok selection))
resume scorer meanwhile provider later after (refused e) = (after, some (err e))
resume scorer meanwhile provider later after (to_rank live settings) =
    rank_locked provider live settings (round_scores scorer settings live) later (meanwhile after)

unfoldable pub select_in :
    (scorer : List SubId → ℕ → List (Option Usage)) (meanwhile : State → State)
    → Provider
    → List SubStatus
    → Hints
    → Option PoolGate
    → (now later : Timestamp) → State
    → State × Option (Result Selection)
unfolding select_locked rank_locked
select_in scorer meanwhile provider subs hints pool now later state =
    let first = select_locked provider subs hints pool now state in
    resume scorer meanwhile provider later first.0 first.1
